-- ===== src/Scheduler/Completion/Preserve.antt =====
-- Completing a batch keeps the invariant, whatever it reports.

use glmaxx.Base.{
  ℕ, ◌≤◌, ◌≡◌, refl, inl, inr, Bool, true, false, List, [], ◌∷◌, Option, some, arith, All, All-mono,
  ok, is_some, u64_max, Option-cases, sym, subst, ◌∙◌,
}
use glmaxx.Base.Maps.{
  is_some-find-adjust, Map, find, adjust, Entries, find-adjust, adjust-Entries, adjust-Ascending,
  find-Entries, Entries-mono, Ascending,
}
use glmaxx.Engine.Graph.{GraphProfile}
use glmaxx.Scheduler.Completion.{
  RequestCompletionUpdate, TenantServiceUpdate, BatchCompletionPlan, prefill_update, commit_update,
  decode_update, row_update, plan_row, plan_rows, write_request, write_requests, write_tenants,
  apply_plan, complete_batch_internal, put_units, slot_of, slots_after, completion_or_one,
}
use glmaxx.Scheduler.Completion.Rows.{
  plan_success-Planned, plan_row-succeeds, plan_row-fails, plan_rows_step, plan_rows_end,
  plan_batch_rows, complete_cases,
}
use glmaxx.Scheduler.Invariant.{IsTenant, IsRequest, IsValid}
use glmaxx.Scheduler.{
  Request, Tenant, BatchKind, BatchRow, BatchCompletion, Scheduler, RequestSpec, is_decoding,
  failed,
}

module _ (profile : GraphProfile) (tenants : Map Tenant) (k : ℕ) (r : Request)
    (v : IsRequest profile tenants k r) where
  -- An update that the code computes keeps its request well formed and names the row's request.
  abbrev Keeps : BatchRow → RequestCompletionUpdate → Type 0
  Keeps row u = (u.request_id ≡ row.request_id) × IsRequest profile tenants k (write_request u r)

  prefill_update-Keeps :
      (row : BatchRow) (u : RequestCompletionUpdate) (d : ℕ)
      → prefill_update r row ≡ ok (u, d)
      → Keeps row u
  unfolding prefill_update write_request
  prefill_update-Keeps row u d h = ground arith

  commit_update-Keeps :
      (kind : BatchKind) (row : BatchRow) (c : BatchCompletion) (u : RequestCompletionUpdate)
      (d : ℕ)
      → is_decoding r.state ≡ true
      → commit_update kind r row c ≡ ok (u, d)
      → Keeps row u
  unfolding commit_update write_request
  commit_update-Keeps kind row c u d now h = ground arith

  decode_update-Keeps :
      (kind : BatchKind) (row : BatchRow) (c : Option BatchCompletion) (u : RequestCompletionUpdate)
      (d : ℕ)
      → decode_update kind r row c ≡ ok (u, d)
      → Keeps row u
  unfolding decode_update
  decode_update-Keeps kind row c u d h =
      ground (arith, commit_update-Keeps kind row (completion_or_one row c) u d)

  row_update-Keeps :
      (kind : BatchKind) (row : BatchRow) (c : Option BatchCompletion) (u : RequestCompletionUpdate)
      (d : ℕ)
      → row_update kind r row c ≡ ok (u, d)
      → Keeps row u
  unfolding row_update
  row_update-Keeps BatchKind.prefill row c u d h = prefill_update-Keeps row u d h
  row_update-Keeps BatchKind.decode row c u d h = decode_update-Keeps BatchKind.decode row c u d h
  row_update-Keeps (BatchKind.verify n) row c u d h =
      decode_update-Keeps (BatchKind.verify n) row c u d h

-- An update fits when it keeps whatever request its identifier finds.
abbrev Fits : GraphProfile → Map Tenant → Map Request → RequestCompletionUpdate → Type 0
Fits profile tenants requests u =
    (r : Request)
    → find u.request_id requests ≡ some r
    → IsRequest profile tenants u.request_id (write_request u r)

abbrev InWord : TenantServiceUpdate → Type 0
InWord u = u.service_units ≤ u64_max

put_units-InWord :
    (tenant total : ℕ) (units : List TenantServiceUpdate)
    → total ≤ u64_max
    → All InWord units
    → All InWord (put_units tenant total units)
unfolding put_units
put_units-InWord tenant total [] t w = (t, tt)
put_units-InWord tenant total (u ∷ us) t w = ground (arith, put_units-InWord tenant total us t w.1)

module _ (s : Scheduler) (v : IsValid s) where
  abbrev FitsHere : RequestCompletionUpdate → Type 0
  FitsHere = Fits s.profile s.tenants s.requests

  keeps-fits :
      (row : BatchRow) (r : Request) (u : RequestCompletionUpdate)
      → find row.request_id s.requests ≡ some r
      → u.request_id ≡ row.request_id
      → IsRequest s.profile s.tenants row.request_id (write_request u r)
      → FitsHere u
  keeps-fits row r u found same kept r' found' =
      let one : r ≡ r' = ground arith in
      subst (λ x. IsRequest s.profile s.tenants u.request_id (write_request u x)) one
        (subst (λ k. IsRequest s.profile s.tenants k (write_request u r)) (sym same) kept)

  row_update-fits :
      (kind : BatchKind) (r : Request) (row : BatchRow) (c : Option BatchCompletion)
      (u : RequestCompletionUpdate) (d : ℕ)
      → find row.request_id s.requests ≡ some r
      → row_update kind r row c ≡ ok (u, d)
      → FitsHere u
  row_update-fits kind r row c u d found h =
      let old =
        find-Entries (IsRequest s.profile s.tenants) row.request_id s.requests v.requests found in
      let (same, kept) =
        row_update-Keeps s.profile s.tenants row.request_id r old kind row c u d h in
      keeps-fits row r u found same kept

  failed_update-fits :
      (row : BatchRow) (r : Request)
      → find row.request_id s.requests ≡ some r
      → FitsHere (record {
        request_id = row.request_id;
        state = failed;
        prompt_done = r.prompt_done;
        generated = r.generated;
      })
  failed_update-fits row r found =
      let old =
        find-Entries (IsRequest s.profile s.tenants) row.request_id s.requests v.requests found in
      keeps-fits row r _ found refl (unfold write_request in ground arith)

  plan_row-fits :
      (kind : BatchKind) (success : Bool) (row : BatchRow) (c : Option BatchCompletion)
      (units : List TenantServiceUpdate) (u : RequestCompletionUpdate)
      (units' : List TenantServiceUpdate)
      → plan_row s kind success row c units ≡ ok (u, units')
      → All InWord units
      → FitsHere u × All InWord units'
  plan_row-fits kind true row c units u units' h w =
      let (r, found, planned) = plan_row-succeeds s kind row c units u units' h in
      let p = plan_success-Planned s kind r row c units u units' planned in
      (
        row_update-fits kind r row c u p.delta found p.updated,
        subst (All InWord) (sym p.charged) (put_units-InWord r.spec.tenant _ units p.word w),
      )
  plan_row-fits kind false row c units u units' h w =
      let (r, found, same, kept) = plan_row-fails s kind row c units u units' h in
      (subst FitsHere (sym same) (failed_update-fits row r found), subst (All InWord) (sym kept) w)

  plan_rows-fits :
      (kind : BatchKind) (success : Bool) (slots : List (Option BatchCompletion))
      (units : List TenantServiceUpdate) (rows : List BatchRow) (plan : BatchCompletionPlan)
      → plan_rows s kind success slots units rows ≡ ok plan
      → All InWord units
      → All FitsHere plan.requests × All InWord plan.tenant_service_units
  plan_rows-fits kind success slots units [] plan h w =
      subst
        (λ (q : BatchCompletionPlan). All FitsHere q.requests × All InWord q.tenant_service_units)
        (plan_rows_end s kind success slots units plan h) (tt, w)
  plan_rows-fits kind success slots units (row ∷ rows) plan h w =
      let p = plan_rows_step s kind success slots units row rows plan h in
      let (fits, w') =
        plan_row-fits kind success row (slot_of slots) units p.update p.units_after p.first w in
      let (all, w'') =
        plan_rows-fits kind success (slots_after slots) p.units_after rows p.rest p.others w' in
      subst
        (λ (q : BatchCompletionPlan). All FitsHere q.requests × All InWord q.tenant_service_units)
        (sym p.whole) ((fits, all), w'')

-- A write through one identifier leaves the fit of another as it was.
write-Fits :
    (profile : GraphProfile) (tenants : Map Tenant) (requests : Map Request)
    (w u : RequestCompletionUpdate)
    → Fits profile tenants requests u
    → Fits profile tenants (adjust w.request_id (write_request w) requests) u
unfolding write_request
write-Fits profile tenants requests w u fits r found =
    elim (Option-cases (find u.request_id requests)) [
      | inl missing ↦
          ground (arith, find-adjust u.request_id w.request_id (write_request w) requests)
      | inr (r₀, old) ↦
          let spec : r.spec ≡ r₀.spec =
            ground (arith, find-adjust u.request_id w.request_id (write_request w) requests) in
          subst
            (λ (x : RequestSpec). IsRequest profile tenants u.request_id (record {
              spec = x;
              state = u.state;
              prompt_done = u.prompt_done;
              generated = u.generated;
            }))
            (sym spec) (fits r₀ old)
    ]

write_requests-Entries :
    (profile : GraphProfile) (tenants : Map Tenant) (us : List RequestCompletionUpdate)
    (requests : Map Request)
    → All (Fits profile tenants requests) us
    → Entries (IsRequest profile tenants) requests
    → Ascending 0 requests
    → Entries (IsRequest profile tenants) (write_requests us requests)
      × Ascending 0 (write_requests us requests)
unfolding write_requests
write_requests-Entries profile tenants [] requests fits v a = (v, a)
write_requests-Entries profile tenants (u ∷ us) requests fits v a =
    write_requests-Entries profile tenants us (adjust u.request_id (write_request u) requests)
      (All-mono {Q = Fits profile tenants (adjust u.request_id (write_request u) requests)}
        (λ x. write-Fits profile tenants requests u x) us fits.1)
      (adjust-Entries (IsRequest profile tenants) u.request_id (write_request u) requests
        (λ r found old. fits.0 r found) v)
      (adjust-Ascending 0 u.request_id (write_request u) requests a)

-- Charging tenants changes no configuration, so the same tenants are known.
write_tenants-known :
    (us : List TenantServiceUpdate) (tenants : Map Tenant) (k : ℕ)
    → is_some (find k (write_tenants us tenants)) ≡ is_some (find k tenants)
unfolding write_tenants
write_tenants-known [] tenants k = refl
write_tenants-known (u ∷ us) tenants k =
    write_tenants-known us _ k ∙ is_some-find-adjust k u.tenant_id _ tenants

write_tenants-Entries :
    (us : List TenantServiceUpdate) (tenants : Map Tenant)
    → Entries IsTenant tenants
    → Entries IsTenant (write_tenants us tenants)
unfolding write_tenants
write_tenants-Entries [] tenants v = v
write_tenants-Entries (u ∷ us) tenants v = write_tenants-Entries us _ (
    adjust-Entries IsTenant u.tenant_id _ tenants
      (λ t found old. record {
        keyed = old.keyed;
        weighted = old.weighted;
        admitting = old.admitting;
      })
      v)

apply_plan-IsValid :
    (s : Scheduler) (kind : BatchKind) (plan : BatchCompletionPlan)
    → IsValid s
    → All (Fits s.profile s.tenants s.requests) plan.requests
    → IsValid (apply_plan s kind plan)
unfolding apply_plan
apply_plan-IsValid s kind plan v fits =
    let (requests, ascending) =
      write_requests-Entries s.profile s.tenants plan.requests s.requests fits v.requests
        v.ascending in
    record {
      config = v.config;
      entries = v.entries;
      tenants = write_tenants-Entries plan.tenant_service_units s.tenants v.tenants;
      requests =
          Entries-mono {Q = IsRequest s.profile (write_tenants plan.tenant_service_units s.tenants)}
            (λ k r old.
              ground (arith, write_tenants-known plan.tenant_service_units s.tenants r.spec.tenant))
            (write_requests plan.requests s.requests) requests;
      ascending = ascending;
      inflight = tt;
    }

pub complete_batch_internal-IsValid :
    (s : Scheduler) (success : Bool) (completions : List BatchCompletion) (explicit : Bool)
    → IsValid s
    → IsValid (complete_batch_internal s success completions explicit).0
complete_batch_internal-IsValid s success completions explicit v =
    complete_cases IsValid s success completions explicit v λ b plan busy e.
      let (slots, _, rows) = plan_batch_rows s b success completions explicit plan e in
      apply_plan-IsValid s b.kind plan v
        (plan_rows-fits s v b.kind success slots [] b.rows plan rows tt).0
