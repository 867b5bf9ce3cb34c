-- ===== src/Scheduler/Advance.antt =====
-- How one call changes the requests (crates/glm-scheduler/src/lib.rs).
use glmaxx.Base.{
  ℕ, ◌≤◌, ◌≡◌, refl, Bool, true, false, List, [], ◌∷◌, Option, some, arith, All, ok, sym, subst, ap,
  ◌∙◌,
}
use glmaxx.Base.Maps.{Map, find, adjust}
use glmaxx.Base.Related.{Related, Related-refl, adjust-Related}
use glmaxx.Scheduler.Admission.{cancelled_state, cancel_request, cancel_all, apply_cancellations}
use glmaxx.Scheduler.Completion.{
  RequestCompletionUpdate, TenantServiceUpdate, BatchCompletionPlan, prefill_update, commit_update,
  decode_update, row_update, plan_row, plan_rows, write_request, write_requests, slot_of,
  slots_after, completion_or_one,
}
use glmaxx.Scheduler.Completion.Rows.{
  plan_success-Planned, plan_row-succeeds, plan_row-fails, plan_rows_step, plan_rows_end,
}
use glmaxx.Scheduler.Invariant.{IsRow, Runs}
use glmaxx.Scheduler.{
  RequestState, failed, is_terminal, Request, BatchKind, BatchRow, BatchCompletion, Scheduler,
}

-- From one state of a request to a later one: its specification is the same, its progress has not
-- shrunk, and once it has ended its state stays.
pub record Advances (r q : Request) : Type 0 where
  pub same_spec : q.spec ≡ r.spec
  pub ended : is_terminal r.state ≡ true → q.state ≡ r.state
  pub prompt : r.prompt_done ≤ q.prompt_done
  pub generated : r.generated ≤ q.generated

pub Advances-refl : (r : Request) → Advances r r
Advances-refl r = record {
  same_spec = refl;
  ended = λ e. refl;
  prompt = omega arith;
  generated = omega arith;
}

pub Advances-trans : (r q p : Request) → Advances r q → Advances q p → Advances r p
Advances-trans r q p a b = record {
  same_spec = b.same_spec ∙ a.same_spec;
  ended = λ e. b.ended (ap is_terminal (a.ended e) ∙ e) ∙ a.ended e;
  prompt = omega (arith, a.prompt, b.prompt);
  generated = omega (arith, a.generated, b.generated);
}

cancelled_state-ended :
    (state : RequestState) → is_terminal state ≡ true → cancelled_state state ≡ state
unfolding cancelled_state
cancelled_state-ended RequestState.finished h = refl
cancelled_state-ended _ h = ground arith

cancel_request-Advances : (r q : Request) → Advances r q → Advances r (cancel_request q)
unfolding cancel_request
cancel_request-Advances r q a = record {
  same_spec = a.same_spec;
  ended = λ e. cancelled_state-ended q.state (ap is_terminal (a.ended e) ∙ e) ∙ a.ended e;
  prompt = a.prompt;
  generated = a.generated;
}

cancel_all-Related :
    (ids : List ℕ) (m n : Map Request)
    → Related Advances m n
    → Related Advances m (cancel_all ids n)
unfolding cancel_all
cancel_all-Related [] m n h = h
cancel_all-Related (id ∷ ids) m n h =
    cancel_all-Related ids m (adjust id cancel_request n)
      (adjust-Related Advances id cancel_request m n (λ v w e. cancel_request-Advances v w) h)

pub apply_cancellations-Related :
    (s : Scheduler) → Related Advances s.requests (apply_cancellations s).requests
unfolding apply_cancellations
apply_cancellations-Related s =
    cancel_all-Related s.cancellations s.requests s.requests
      (Related-refl Advances Advances-refl s.requests)

-- An update moves the request that it finds forward.
abbrev Moves : Map Request → RequestCompletionUpdate → Type 0
Moves requests u =
    (r : Request) → find u.request_id requests ≡ some r → Advances r (write_request u r)

prefill_update-Advances :
    (r : Request) (row : BatchRow) (u : RequestCompletionUpdate) (d : ℕ)
    → prefill_update r row ≡ ok (u, d)
    → (u.request_id ≡ row.request_id) × Advances r (write_request u r)
unfolding prefill_update write_request
prefill_update-Advances r row u d h = ground arith

commit_update-Advances :
    (kind : BatchKind) (r : Request) (row : BatchRow) (c : BatchCompletion)
    (u : RequestCompletionUpdate) (d : ℕ)
    → is_terminal r.state ≡ false
    → commit_update kind r row c ≡ ok (u, d)
    → (u.request_id ≡ row.request_id) × Advances r (write_request u r)
unfolding commit_update write_request
commit_update-Advances kind r row c u d now h = ground arith

decode_update-Advances :
    (kind : BatchKind) (r : Request) (row : BatchRow) (c : Option BatchCompletion)
    (u : RequestCompletionUpdate) (d : ℕ)
    → decode_update kind r row c ≡ ok (u, d)
    → (u.request_id ≡ row.request_id) × Advances r (write_request u r)
unfolding decode_update
decode_update-Advances kind r row c u d h =
    ground (arith, commit_update-Advances kind r row (completion_or_one row c) u d)

row_update-Advances :
    (kind : BatchKind) (r : Request) (row : BatchRow) (c : Option BatchCompletion)
    (u : RequestCompletionUpdate) (d : ℕ)
    → row_update kind r row c ≡ ok (u, d)
    → (u.request_id ≡ row.request_id) × Advances r (write_request u r)
unfolding row_update
row_update-Advances BatchKind.prefill r row c u d h = prefill_update-Advances r row u d h
row_update-Advances BatchKind.decode r row c u d h =
    decode_update-Advances BatchKind.decode r row c u d h
row_update-Advances (BatchKind.verify n) r row c u d h =
    decode_update-Advances (BatchKind.verify n) r row c u d h

Runs-open :
    (kind : BatchKind) (r : Request) (row : BatchRow)
    → Runs kind r row
    → is_terminal r.state ≡ false
Runs-open BatchKind.prefill r row h = ground arith
Runs-open BatchKind.decode r row h = ground arith
Runs-open (BatchKind.verify n) r row h = ground arith

module _ (s : Scheduler) (kind : BatchKind) where
  found-Moves :
      (row : BatchRow) (r : Request) (u : RequestCompletionUpdate)
      → find row.request_id s.requests ≡ some r
      → u.request_id ≡ row.request_id
      → Advances r (write_request u r)
      → Moves s.requests u
  found-Moves row r u found same a r' found' =
      let one : r ≡ r' = ground arith in subst (λ x. Advances x (write_request u x)) one a

  failed-Advances :
      (row : BatchRow) (r : Request)
      → is_terminal r.state ≡ false
      → Advances r (
          write_request
            (record {
              request_id = row.request_id;
              state = failed;
              prompt_done = r.prompt_done;
              generated = r.generated;
            })
            r)
  unfolding write_request
  failed-Advances row r open_state = ground arith

  plan_row-Moves :
      (success : Bool) (row : BatchRow) (c : Option BatchCompletion)
      (units : List TenantServiceUpdate) (u : RequestCompletionUpdate)
      (units' : List TenantServiceUpdate)
      → IsRow s.requests kind row
      → plan_row s kind success row c units ≡ ok (u, units')
      → Moves s.requests u
  plan_row-Moves true row c units u units' v h =
      let (r, found, planned) = plan_row-succeeds s kind row c units u units' h in
      let p = plan_success-Planned s kind r row c units u units' planned in
      let (same, a) = row_update-Advances kind r row c u p.delta p.updated in
      found-Moves row r u found same a
  plan_row-Moves false row c units u units' v h =
      let (r, found, same, _) = plan_row-fails s kind row c units u units' h in
      let here : v.request ≡ r = ground (arith, v.found) in
      let is_open =
        subst (λ x. is_terminal x.state ≡ false) here (Runs-open kind v.request row v.runs) in
      subst (Moves s.requests) (sym same)
        (found-Moves row r _ found refl (failed-Advances row r is_open))

  pub plan_rows-Moves :
      (success : Bool) (slots : List (Option BatchCompletion)) (units : List TenantServiceUpdate)
      (rows : List BatchRow) (plan : BatchCompletionPlan)
      → All (IsRow s.requests kind) rows
      → plan_rows s kind success slots units rows ≡ ok plan
      → All (Moves s.requests) plan.requests
  plan_rows-Moves success slots units [] plan v h =
      subst (λ (q : BatchCompletionPlan). All (Moves s.requests) q.requests)
        (plan_rows_end s kind success slots units plan h) tt
  plan_rows-Moves success slots units (row ∷ rows) plan v h =
      let p = plan_rows_step s kind success slots units row rows plan h in
      subst (λ (q : BatchCompletionPlan). All (Moves s.requests) q.requests) (sym p.whole)
        (
          plan_row-Moves success row (slot_of slots) units p.update p.units_after v.0 p.first,
          plan_rows-Moves success (slots_after slots) p.units_after rows p.rest v.1 p.others,
        )

-- A write sets all that changes, so only the original request matters.
write-Advances :
    (u : RequestCompletionUpdate) (r q : Request)
    → Advances r q
    → Advances r (write_request u r)
    → Advances r (write_request u q)
unfolding write_request
write-Advances u r q a b = record {
  same_spec = a.same_spec;
  ended = b.ended;
  prompt = b.prompt;
  generated = b.generated;
}

pub write_requests-Related :
    (us : List RequestCompletionUpdate) (m n : Map Request)
    → All (Moves m) us
    → Related Advances m n
    → Related Advances m (write_requests us n)
unfolding write_requests
write_requests-Related [] m n moves h = h
write_requests-Related (u ∷ us) m n moves h =
    write_requests-Related us m (adjust u.request_id (write_request u) n) moves.1 (
      adjust-Related Advances u.request_id (write_request u) m n
        (λ r q found a. write-Advances u r q a (moves.0 r found)) h)
