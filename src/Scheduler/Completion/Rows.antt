-- ===== src/Scheduler/Completion/Rows.antt =====
-- The planning loop of `complete_batch_internal` (crates/glm-scheduler/src/lib.rs) taken apart: what
-- a plan that was returned went through, row by row.
use glmaxx.Base.{
  ℕ, ◌+◌, ◌≤◌, ◌≡◌, inl, inr, Bool, true, false, List, [], ◌∷◌, Option, some, none, replicate,
  arith, ok, err, ap, sym, subst, u64_max, Option-cases, Result-cases,
}
use glmaxx.Base.Maps.{find}
use glmaxx.Scheduler.Completion.{
  RequestCompletionUpdate, TenantServiceUpdate, BatchCompletionPlan, row_update, plan_success,
  plan_row, plan_rows, plan_batch, by_row, apply_plan, complete_batch_internal, planned_units,
  put_units, slot_of, slots_after,
}
use glmaxx.Scheduler.{
  Request, Tenant, BatchKind, BatchRow, BatchCompletion, ScheduledBatch, no_inflight, Outcome,
  maximum_batch_rows, Scheduler, failed,
}

-- What the planning of a row that succeeded computed.
pub record Planned (s : Scheduler) (kind : BatchKind) (r : Request) (row : BatchRow)
    (c : Option BatchCompletion) (units : List TenantServiceUpdate) (u : RequestCompletionUpdate)
    (units' : List TenantServiceUpdate) : Type 0 where
  pub tenant : Tenant
  pub delta : ℕ
  pub known : find r.spec.tenant s.tenants ≡ some tenant
  pub updated : row_update kind r row c ≡ ok (u, delta)
  pub word : planned_units r.spec.tenant tenant.service_units units + delta ≤ u64_max
  pub charged :
      units'
      ≡ put_units r.spec.tenant
          (planned_units r.spec.tenant tenant.service_units units + delta)
          units

pub plan_success-Planned :
    (s : Scheduler) (kind : BatchKind) (r : Request) (row : BatchRow) (c : Option BatchCompletion)
    (units : List TenantServiceUpdate) (u : RequestCompletionUpdate)
    (units' : List TenantServiceUpdate)
    → plan_success s kind r row c units ≡ ok (u, units')
    → Planned s kind r row c units u units'
unfolding plan_success
plan_success-Planned s kind r row c units u units' h =
    elim (Option-cases (find r.spec.tenant s.tenants)) [
      | inl missing ↦ ground arith
      | inr (t, known) ↦ elim (Result-cases (row_update kind r row c)) [
        | inl (x, updated) ↦ record {
          tenant = t;
          delta = x.1;
          known = known;
          updated = ground arith;
          word = ground arith;
          charged = ground arith;
        }
        | inr (e, refused) ↦ ground arith
      ]
    ]

pub plan_row-succeeds :
    (s : Scheduler) (kind : BatchKind) (row : BatchRow) (c : Option BatchCompletion)
    (units : List TenantServiceUpdate) (u : RequestCompletionUpdate)
    (units' : List TenantServiceUpdate)
    → plan_row s kind true row c units ≡ ok (u, units')
    → (r : Request) × (find row.request_id s.requests ≡ some r)
      × (plan_success s kind r row c units ≡ ok (u, units'))
unfolding plan_row
plan_row-succeeds s kind row c units u units' h =
    elim (Option-cases (find row.request_id s.requests)) [
      | inl missing ↦ ground arith
      | inr (r, found) ↦ (r, found, ground arith)
    ]

pub plan_row-fails :
    (s : Scheduler) (kind : BatchKind) (row : BatchRow) (c : Option BatchCompletion)
    (units : List TenantServiceUpdate) (u : RequestCompletionUpdate)
    (units' : List TenantServiceUpdate)
    → plan_row s kind false row c units ≡ ok (u, units')
    → (r : Request) × (find row.request_id s.requests ≡ some r)
      × (u ≡ record {
        request_id = row.request_id;
        state = failed;
        prompt_done = r.prompt_done;
        generated = r.generated;
      })
      × (units' ≡ units)
unfolding plan_row
plan_row-fails s kind row c units u units' h =
    elim (Option-cases (find row.request_id s.requests)) [
      | inl missing ↦ ground arith
      | inr (r, found) ↦ (r, found, ground arith, ground arith)
    ]

-- The plan of a row and the rows behind it, taken apart.
pub record PlannedRows (s : Scheduler) (kind : BatchKind) (success : Bool)
    (slots : List (Option BatchCompletion)) (units : List TenantServiceUpdate) (row : BatchRow)
    (rows : List BatchRow) (plan : BatchCompletionPlan) : Type 0 where
  pub update : RequestCompletionUpdate
  pub units_after : List TenantServiceUpdate
  pub rest : BatchCompletionPlan
  pub first : plan_row s kind success row (slot_of slots) units ≡ ok (update, units_after)
  pub others : plan_rows s kind success (slots_after slots) units_after rows ≡ ok rest
  pub whole : plan ≡ record rest { requests = update ∷ rest.requests }

pub plan_rows_step :
    (s : Scheduler) (kind : BatchKind) (success : Bool) (slots : List (Option BatchCompletion))
    (units : List TenantServiceUpdate) (row : BatchRow) (rows : List BatchRow)
    (plan : BatchCompletionPlan)
    → plan_rows s kind success slots units (row ∷ rows) ≡ ok plan
    → PlannedRows s kind success slots units row rows plan
unfolding plan_rows
plan_rows_step s kind success slots units row rows plan h =
    elim (Result-cases (plan_row s kind success row (slot_of slots) units)) [
      | inr (e, refused) ↦ ground arith
      | inl (x, first) ↦
          elim (Result-cases (plan_rows s kind success (slots_after slots) x.1 rows)) [
            | inr (e, refused) ↦ ground arith
            | inl (rest, others) ↦ record {
              update = x.0;
              units_after = x.1;
              rest = rest;
              first = first;
              others = others;
              whole = ground arith;
            }
          ]
    ]

pub plan_rows_end :
    (s : Scheduler) (kind : BatchKind) (success : Bool) (slots : List (Option BatchCompletion))
    (units : List TenantServiceUpdate) (plan : BatchCompletionPlan)
    → plan_rows s kind success slots units [] ≡ ok plan
    → record { requests = []; tenant_service_units = units } ≡ plan
unfolding plan_rows
plan_rows_end s kind success slots units plan h = ground arith

-- A plan that was returned is that of its rows, with the completions put at them.
pub plan_batch_rows :
    (s : Scheduler) (b : ScheduledBatch) (success : Bool) (completions : List BatchCompletion)
    (explicit : Bool) (plan : BatchCompletionPlan)
    → plan_batch s b success completions explicit ≡ ok plan
    → (slots : List (Option BatchCompletion)) × (by_row b.rows
          (replicate maximum_batch_rows none)
          completions
        ≡ ok slots)
      × (plan_rows s b.kind success slots [] b.rows ≡ ok plan)
unfolding plan_batch
plan_batch_rows s b success completions explicit plan h =
    elim (Result-cases (by_row b.rows (replicate maximum_batch_rows none) completions)) [
      | inl (slots, put) ↦ (slots, put, ground arith)
      | inr (e, refused) ↦ ground arith
    ]

-- What completing does, on every branch.
pub complete_cases :
    (P : Scheduler → Type 0) (s : Scheduler) (success : Bool) (completions : List BatchCompletion)
    (explicit : Bool)
    → P s
    → ((b : ScheduledBatch) (plan : BatchCompletionPlan)
        → s.inflight ≡ some b
        → plan_batch s b success completions explicit ≡ ok plan
        → P (apply_plan s b.kind plan))
    → P (complete_batch_internal s success completions explicit).0
unfolding complete_batch_internal
complete_cases P s success completions explicit refused planned = elim (Option-cases s.inflight) [
  | inl idle ↦ subst P (sym (after (s, err no_inflight) (ground arith))) refused
  | inr (b, busy) ↦ elim (Result-cases (plan_batch s b success completions explicit)) [
    | inl (plan, e) ↦
        subst P (sym (after (apply_plan s b.kind plan, ok tt) (ground arith)))
          (planned b plan busy e)
    | inr (x, e) ↦ subst P (sym (after (s, err x) (ground arith))) refused
  ]
]
  where
    after :
        (o : Outcome (Unit {0}))
        → complete_batch_internal s success completions explicit ≡ o
        → (complete_batch_internal s success completions explicit).0 ≡ o.0
    after o e = ap (λ x. x.0) e
