-- ===== src/Scheduler/Completion/Failure.antt =====
-- A batch that failed completes (crates/glm-scheduler/src/lib.rs, `complete_batch`).
use glmaxx.Base.{
  ℕ, ◌≤◌, ◌≡◌, ◌≢◌, refl, true, false, List, [], ◌∷◌, Option, none, some, any, ◌==◌, ==→eq, ==-refl,
  length, replicate, ok, All, Distinct, arith, Bool-cases, inl, inr, sym, subst, ◌∙◌,
}
use glmaxx.Base.Maps.{Map, find, adjust, find-adjust}
use glmaxx.Scheduler.Completion.{
  write_tenants, write_request, write_requests, TenantServiceUpdate, RequestCompletionUpdate,
  BatchCompletionPlan, counts_valid, rows_distinct, by_row, plan_row, plan_rows, plan_batch,
  slot_of, slots_after, apply_plan, complete_batch_internal, complete_batch_with_commits,
  complete_batch,
}
use glmaxx.Scheduler.Invariant.{IsValid, IsRow, IsBatch, IsInflight}
use glmaxx.Scheduler.{
  Request, BatchKind, BatchRow, BatchCompletion, RequestState, ScheduledBatch, Scheduler,
  maximum_batch_rows,
}

-- The row's request is not among those that were seen.
abbrev IsUnseen : List ℕ → BatchRow → Type 0
IsUnseen seen row = any (λ id. id == row.request_id) seen ≡ false

IsUnseen-cons :
    (id : ℕ) (seen : List ℕ) (row : BatchRow)
    → row.request_id ≢ id
    → IsUnseen seen row
    → IsUnseen (id ∷ seen) row
IsUnseen-cons id seen row other new = elim (Bool-cases (id == row.request_id)) [
  | inl same ↦ absurd (other (sym (==→eq id row.request_id same)))
  | inr differ ↦ rw (differ, new)
]

IsUnseen-after :
    (id : ℕ) (seen : List ℕ) (rows : List BatchRow)
    → All (λ row. row.request_id ≢ id) rows
    → All (IsUnseen seen) rows
    → All (IsUnseen (id ∷ seen)) rows
IsUnseen-after id seen [] h k = tt
IsUnseen-after id seen (row ∷ rows) h k =
    (IsUnseen-cons id seen row h.0 k.0, IsUnseen-after id seen rows h.1 k.1)

rows_distinct-true :
    (seen : List ℕ) (rows : List BatchRow)
    → Distinct (λ row. row.request_id) rows
    → All (IsUnseen seen) rows
    → rows_distinct seen rows ≡ true
unfolding rows_distinct
rows_distinct-true seen [] d u = refl
rows_distinct-true seen (row ∷ rows) d u = rw (
  u.0,
  rows_distinct-true (row.request_id ∷ seen) rows d.1
      (IsUnseen-after row.request_id seen rows d.0 u.1),
)

All-IsUnseen : (rows : List BatchRow) → All (IsUnseen []) rows
All-IsUnseen [] = tt
All-IsUnseen (row ∷ rows) = (refl, All-IsUnseen rows)

-- A row of a failed batch leaves its request's progress and fails it.
plan_row_failed :
    (s : Scheduler) (kind : BatchKind) (row : BatchRow) (slot : Option BatchCompletion)
    (units : List TenantServiceUpdate) (k : IsRow s.requests kind row)
    → plan_row s kind false row slot units
      ≡ ok (
        record {
          request_id = row.request_id;
          state = RequestState.failed;
          prompt_done = k.request.prompt_done;
          generated = k.request.generated;
        },
        units,
      )
unfolding plan_row
plan_row_failed s kind row slot units k = rw k.found

abbrev failed_update : BatchRow → Request → RequestCompletionUpdate
failed_update row r = record {
  request_id = row.request_id;
  state = RequestState.failed;
  prompt_done = r.prompt_done;
  generated = r.generated;
}

-- The updates of rows that fail, one for each.
abbrev failed_updates :
    (s : Scheduler) (kind : BatchKind) (rows : List BatchRow)
    → All (IsRow s.requests kind) rows
    → List RequestCompletionUpdate
failed_updates s kind [] h = []
failed_updates s kind (row ∷ rows) h =
    failed_update row h.0.request ∷ failed_updates s kind rows h.1

-- The plan of a failed batch fails every row and charges no tenant.
plan_rows_failed :
    (s : Scheduler) (kind : BatchKind) (slots : List (Option BatchCompletion))
    (rows : List BatchRow) (h : All (IsRow s.requests kind) rows)
    → plan_rows s kind false slots [] rows
      ≡ ok (record { requests = failed_updates s kind rows h; tenant_service_units = [] })
unfolding plan_rows
plan_rows_failed s kind slots [] h = refl
plan_rows_failed s kind slots (row ∷ rows) h = rw (
  plan_row_failed s kind row (slot_of slots) [] h.0,
  plan_rows_failed s kind (slots_after slots) rows h.1,
)

adjust-other :
    (k j : ℕ) (f : Request → Request) (m : Map Request) → j ≢ k → find k (adjust j f m) ≡ find k m
adjust-other k j f m o = elim (Bool-cases (k == j)) [
  | inl same ↦ absurd (o (sym (==→eq k j same)))
  | inr differ ↦ find-adjust k j f m ∙ rw differ refl
]

adjust-own :
    (k : ℕ) (f : Request → Request) (m : Map Request) (r : Request)
    → find k m ≡ some r
    → find k (adjust k f m) ≡ some (f r)
adjust-own k f m r found = find-adjust k k f m ∙ rw (==-refl k, found) refl

-- Writing updates leaves the requests that none of them names.
write_other :
    (s : Scheduler) (kind : BatchKind) (k : ℕ) (rows : List BatchRow)
    (h : All (IsRow s.requests kind) rows) (m : Map Request)
    → All (λ row. row.request_id ≢ k) rows
    → find k (write_requests (failed_updates s kind rows h) m) ≡ find k m
unfolding write_requests
write_other s kind k [] h m o = refl
write_other s kind k (row ∷ rows) h m o =
    let f = write_request (failed_update row h.0.request) in
    write_other s kind k rows h.1 (adjust row.request_id f m) o.1
    ∙ adjust-other k row.request_id f m o.0

-- A row's request failed, with its progress as it was.
abbrev pub HasFailed : Map Request → Map Request → BatchRow → Type 0
HasFailed before after row =
    (r : Request) × (find row.request_id before ≡ some r)
    × (find row.request_id after ≡ some (record r { state = RequestState.failed }))

-- The rows' requests are in the map as they were.
abbrev Intact : Map Request → Map Request → BatchRow → Type 0
Intact before m row = find row.request_id m ≡ find row.request_id before

Intact-after :
    (before m : Map Request) (k : ℕ) (f : Request → Request) (rows : List BatchRow)
    → All (λ row. row.request_id ≢ k) rows
    → All (Intact before m) rows
    → All (Intact before (adjust k f m)) rows
Intact-after before m k f [] d i = tt
Intact-after before m k f (row ∷ rows) d i = (
  adjust-other row.request_id k f m (λ e. d.0 (sym e)) ∙ i.0,
  Intact-after before m k f rows d.1 i.1,
)

write_failed :
    (s : Scheduler) (kind : BatchKind) (rows : List BatchRow) (h : All (IsRow s.requests kind) rows)
    (m : Map Request)
    → Distinct (λ row. row.request_id) rows
    → All (Intact s.requests m) rows
    → All (HasFailed s.requests (write_requests (failed_updates s kind rows h) m)) rows
unfolding write_requests
write_failed s kind [] h m d i = tt
write_failed s kind (row ∷ rows) h m d i =
    let f = write_request (failed_update row h.0.request) in
    (
      (
        h.0.request,
        h.0.found,
        write_other s kind row.request_id rows h.1 (adjust row.request_id f m) d.0
            ∙ adjust-own row.request_id f m h.0.request (i.0 ∙ h.0.found)
            ∙ unfold write_request in refl,
      ),
      write_failed s kind rows h.1 (adjust row.request_id f m) d.1
          (Intact-after s.requests m row.request_id f rows d.0 i.1),
    )

Intact-All : (m : Map Request) (rows : List BatchRow) → All (Intact m m) rows
Intact-All m [] = tt
Intact-All m (row ∷ rows) = (refl, Intact-All m rows)

failed_counts :
    (b : ScheduledBatch) → length b.rows ≤ maximum_batch_rows → counts_valid b false [] false ≡ true
unfolding counts_valid
failed_counts b h = ground arith

plan_failed :
    (s : Scheduler) (b : ScheduledBatch) (legal : IsBatch s.requests b)
    → plan_batch s b false [] false
      ≡ ok (record {
        requests = failed_updates s b.kind b.rows legal.rows;
        tenant_service_units = [];
      })
unfolding plan_batch by_row
plan_failed s b legal = rw (
  failed_counts b legal.row_limit,
  rows_distinct-true [] b.rows legal.distinct (All-IsUnseen b.rows),
  plan_rows_failed s b.kind (replicate maximum_batch_rows none) b.rows legal.rows,
)

planned :
    (s : Scheduler) (b : ScheduledBatch) (plan : BatchCompletionPlan)
    → s.inflight ≡ some b
    → plan_batch s b false [] false ≡ ok plan
    → complete_batch_internal s false [] false ≡ (apply_plan s b.kind plan, ok tt)
unfolding complete_batch_internal
planned s b plan busy e = ground arith

-- A failed batch completes: nothing is in flight after it, no tenant is charged, and the request of
-- every row has failed, with its progress as it was.
pub record FailsBatch (s : Scheduler) (b : ScheduledBatch) : Type 0 where
  pub after : Scheduler
  pub completed : complete_batch s false ≡ (after, ok tt)
  pub idle : after.inflight ≡ none
  pub uncharged : after.tenants ≡ s.tenants
  pub failed : All (HasFailed s.requests after.requests) b.rows

-- In a well-formed scheduler with a batch in flight, `complete_batch` with failure succeeds: nothing is
-- in flight after it, no tenant is charged, and the request of every row of the batch has failed, with
-- its progress as it was.
pub complete_batch-FailsBatch :
    (s : Scheduler) (b : ScheduledBatch) → IsValid s → s.inflight ≡ some b → FailsBatch s b
unfolding complete_batch complete_batch_with_commits apply_plan write_tenants
complete_batch-FailsBatch s b v busy =
    let legal = subst (IsInflight s.requests) busy v.inflight in
    record {
      after = apply_plan s b.kind (record {
        requests = failed_updates s b.kind b.rows legal.rows;
        tenant_service_units = [];
      });
      completed = planned s b _ busy (plan_failed s b legal);
      idle = refl;
      uncharged = refl;
      failed =
          write_failed s b.kind b.rows legal.rows s.requests legal.distinct
            (Intact-All s.requests b.rows);
    }
