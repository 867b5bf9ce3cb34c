-- ===== src/Scheduler/Completion.antt =====
-- Completing the batch in flight: crates/glm-scheduler/src/lib.rs, `complete_batch_internal` and its
-- three callers. The plan is computed before anything is written.
pub mod Rows
pub mod Preserve
pub mod Failure
use glmaxx.Base.{
  ℕ, ◌+◌, ◌%◌, min, Bool, true, false, ◌&&◌, ◌||◌, not, List, [], ◌∷◌, map, Option, none, some, ltb,
  ◌==◌, if◌then◌else◌, any, length, is_empty, is_some, get_elem?, set, replicate, position, Result,
  ok, err, or_fail, ◌>>=◌, checked_add, checked_sub, u16_max, u32_max, u64_max,
}
use glmaxx.Base.Maps.{Map, find, adjust}
use glmaxx.Scheduler.{
  RequestState, waiting_prefill, decoding, finished, failed, is_waiting, is_decoding, is_prefill,
  Request, Tenant, BatchKind, BatchRow, BatchCompletion, ScheduledBatch, Scheduler, SchedulerError,
  tenant_error, unknown_request, no_inflight, commit, overflow, Outcome, maximum_batch_rows,
}

pub record RequestCompletionUpdate : Type 0 where
  pub request_id : ℕ
  pub state : RequestState
  pub prompt_done : ℕ
  pub generated : ℕ

pub record TenantServiceUpdate : Type 0 where
  pub tenant_id : ℕ
  pub service_units : ℕ

-- The filled slots of the code's two arrays, in order.
pub record BatchCompletionPlan : Type 0 where
  pub requests : List RequestCompletionUpdate
  pub tenant_service_units : List TenantServiceUpdate

-- The guards on the number of completions.
unfoldable pub counts_valid : ScheduledBatch → Bool → List BatchCompletion → Bool → Bool
counts_valid batch success completions require_explicit = not (
    ltb maximum_batch_rows (length batch.rows)
    || (not success && not (is_empty completions))
    || (is_prefill batch.kind && not (is_empty completions))
    || (not (is_empty completions) && not (length completions == length batch.rows))
    || (require_explicit
        && success
        && not (is_prefill batch.kind)
        && not (length completions == length batch.rows)))

-- No row repeats the request of an earlier one.
unfoldable pub rows_distinct : List ℕ → List BatchRow → Bool
rows_distinct seen [] = true
rows_distinct seen (row ∷ rows) =
    not (any (λ id. id == row.request_id) seen) && rows_distinct (row.request_id ∷ seen) rows

-- The completions put at their rows; one that has no row, or a second one for a row, is an error.
unfoldable pub by_row :
    List BatchRow
    → List (Option BatchCompletion)
    → List BatchCompletion
    → Result SchedulerError (List (Option BatchCompletion))
by_row rows slots [] = ok slots
by_row rows slots (c ∷ cs) = do
  index ← or_fail (position (λ row. row.request_id == c.request_id) rows) commit
  slot ← or_fail (get_elem? slots index) commit
  let rest = by_row rows (set slots index (some c)) cs
  if is_some slot then err commit else rest

-- The state of a request whose prompt is done up to the given token.
abbrev pub prefilled_state : Request → ℕ → RequestState
prefilled_state r done = if done == r.spec.prompt_tokens then decoding else waiting_prefill

-- A request's update, and the service that it costs its tenant.
unfoldable pub prefill_update :
    Request → BatchRow → Result SchedulerError (RequestCompletionUpdate × ℕ)
prefill_update r row = if not (is_waiting r.state) || row.prompt_tokens == 0 then err commit else do
  done ← or_fail (checked_add u32_max r.prompt_done row.prompt_tokens) overflow
  if ltb r.spec.prompt_tokens done
      then err commit
      else ok (
        record {
          request_id = row.request_id;
          state = prefilled_state r done;
          prompt_done = done;
          generated = r.generated;
        },
        row.prompt_tokens,
      )

-- `depth + 1` is a byte.
unfoldable pub maximum_commit : BatchKind → ℕ
maximum_commit (BatchKind.verify depth) = (depth + 1) % 256
maximum_commit _ = 1

abbrev pub decoded_state : Request → BatchCompletion → ℕ → RequestState
decoded_state r c generated =
    if c.terminal || generated == r.spec.maximum_new_tokens then finished else decoding

-- The update for a completion that the row's guards let pass.
unfoldable pub commit_update :
    BatchKind
    → Request
    → BatchRow
    → BatchCompletion
    → Result SchedulerError (RequestCompletionUpdate × ℕ)
commit_update kind r row c = do
  remaining ← or_fail (checked_sub r.spec.maximum_new_tokens r.generated) commit
  if c.committed_tokens == 0
        || ltb (maximum_commit kind) c.committed_tokens
        || ltb remaining c.committed_tokens
      then err commit
      else (do
        generated ← or_fail (checked_add u32_max r.generated c.committed_tokens) overflow
        ok (
          record {
            request_id = row.request_id;
            state = decoded_state r c generated;
            prompt_done = r.prompt_done;
            generated = generated;
          },
          c.committed_tokens,
        ))

-- A row with no completion commits one token.
unfoldable pub completion_or_one : BatchRow → Option BatchCompletion → BatchCompletion
completion_or_one row (some c) = c
completion_or_one row none = record {
  request_id = row.request_id;
  committed_tokens = 1;
  terminal = false;
}

unfoldable pub decode_update :
    BatchKind
    → Request
    → BatchRow
    → Option BatchCompletion
    → Result SchedulerError (RequestCompletionUpdate × ℕ)
decode_update kind r row completion =
    if not (is_decoding r.state) || not (row.prompt_tokens == 0)
    then err commit
    else commit_update kind r row (completion_or_one row completion)

unfoldable pub row_update :
    BatchKind
    → Request
    → BatchRow
    → Option BatchCompletion
    → Result SchedulerError (RequestCompletionUpdate × ℕ)
row_update BatchKind.prefill r row completion = prefill_update r row
row_update BatchKind.decode r row completion = decode_update BatchKind.decode r row completion
row_update (BatchKind.verify depth) r row completion =
    decode_update (BatchKind.verify depth) r row completion

-- A tenant's service so far: the planned one, or else the tenant's own.
unfoldable pub planned_units : ℕ → ℕ → List TenantServiceUpdate → ℕ
planned_units tenant own [] = own
planned_units tenant own (u ∷ us) =
    if u.tenant_id == tenant then u.service_units else planned_units tenant own us

-- Whether the tenant has a slot, or there is a free one.
unfoldable pub has_slot : ℕ → List TenantServiceUpdate → Bool
has_slot tenant units =
    any (λ u. u.tenant_id == tenant) units || ltb (length units) maximum_batch_rows

unfoldable pub put_units : ℕ → ℕ → List TenantServiceUpdate → List TenantServiceUpdate
put_units tenant total [] = (record { tenant_id = tenant; service_units = total }) ∷ []
put_units tenant total (u ∷ us) =
    if u.tenant_id == tenant
    then (record { tenant_id = tenant; service_units = total }) ∷ us
    else u ∷ put_units tenant total us

-- The body of the planning loop for a batch that succeeded.
unfoldable pub plan_success :
    Scheduler
    → BatchKind
    → Request
    → BatchRow
    → Option BatchCompletion
    → List TenantServiceUpdate
    → Result SchedulerError (RequestCompletionUpdate × List TenantServiceUpdate)
plan_success s kind r row completion units = do
  tenant ← or_fail (find r.spec.tenant s.tenants) tenant_error
  if not (has_slot r.spec.tenant units) then err overflow else (do
    (update, delta) ← row_update kind r row completion
    total ←
        or_fail (checked_add u64_max (planned_units r.spec.tenant tenant.service_units units) delta)
          overflow
    ok (update, put_units r.spec.tenant total units))

unfoldable pub plan_row :
    Scheduler
    → BatchKind
    → Bool
    → BatchRow
    → Option BatchCompletion
    → List TenantServiceUpdate
    → Result SchedulerError (RequestCompletionUpdate × List TenantServiceUpdate)
plan_row s kind success row completion units = do
  r ← or_fail (find row.request_id s.requests) unknown_request
  if success
      then plan_success s kind r row completion units
      else ok (
        record {
          request_id = row.request_id;
          state = failed;
          prompt_done = r.prompt_done;
          generated = r.generated;
        },
        units,
      )

-- The completion in a row's slot.
abbrev pub slot_of : List (Option BatchCompletion) → Option BatchCompletion
slot_of [] = none
slot_of (slot ∷ slots) = slot

abbrev pub slots_after : List (Option BatchCompletion) → List (Option BatchCompletion)
slots_after [] = []
slots_after (slot ∷ slots) = slots

unfoldable pub plan_rows :
    Scheduler
    → BatchKind
    → Bool
    → List (Option BatchCompletion)
    → List TenantServiceUpdate
    → List BatchRow
    → Result SchedulerError BatchCompletionPlan
plan_rows s kind success slots units [] =
    ok (record { requests = []; tenant_service_units = units })
plan_rows s kind success slots units (row ∷ rows) = do
  (update, units') ← plan_row s kind success row (slot_of slots) units
  plan ← plan_rows s kind success (slots_after slots) units' rows
  ok (record plan { requests = update ∷ plan.requests })

unfoldable pub write_request : RequestCompletionUpdate → Request → Request
write_request u r = record r {
  state = u.state;
  prompt_done = u.prompt_done;
  generated = u.generated;
}

unfoldable pub write_requests : List RequestCompletionUpdate → Map Request → Map Request
write_requests [] requests = requests
write_requests (u ∷ us) requests =
    write_requests us (adjust u.request_id (write_request u) requests)

unfoldable pub write_tenants : List TenantServiceUpdate → Map Tenant → Map Tenant
write_tenants [] tenants = tenants
write_tenants (u ∷ us) tenants =
    write_tenants us
      (adjust u.tenant_id (λ t. record t { service_units = u.service_units }) tenants)

unfoldable pub burst_after : BatchKind → ℕ → ℕ
burst_after BatchKind.prefill burst = 0
burst_after _ burst = min (burst + 1) u16_max

unfoldable pub plan_batch :
    Scheduler
    → ScheduledBatch
    → Bool
    → List BatchCompletion
    → Bool
    → Result SchedulerError BatchCompletionPlan
plan_batch s batch success completions require_explicit =
    if not (counts_valid batch success completions require_explicit)
    then err commit
    else if not (rows_distinct [] batch.rows)
    then err commit
    else do
      slots ← by_row batch.rows (replicate maximum_batch_rows none) completions
      plan_rows s batch.kind success slots [] batch.rows

unfoldable pub apply_plan : Scheduler → BatchKind → BatchCompletionPlan → Scheduler
apply_plan s kind plan = record s {
  inflight = none;
  requests = write_requests plan.requests s.requests;
  tenants = write_tenants plan.tenant_service_units s.tenants;
  decode_burst = burst_after kind s.decode_burst;
}

unfoldable pub complete_batch_internal :
    Scheduler → Bool → List BatchCompletion → Bool → Outcome (Unit {0})
complete_batch_internal s success completions require_explicit = elim s.inflight [
  | none ↦ (s, err no_inflight)
  | some batch ↦ elim (plan_batch s batch success completions require_explicit) [
    | err e ↦ (s, err e)
    | ok plan ↦ (apply_plan s batch.kind plan, ok tt)
  ]
]

unfoldable pub complete_batch_with_commits : Scheduler → Bool → List (ℕ × ℕ) → Outcome (Unit {0})
complete_batch_with_commits s success commits =
    complete_batch_internal s success
      (map (λ c. record { request_id = c.0; committed_tokens = c.1; terminal = false }) commits)
      false

unfoldable pub complete_batch : Scheduler → Bool → Outcome (Unit {0})
complete_batch s success = complete_batch_with_commits s success []

unfoldable pub complete_batch_with_results :
    Scheduler → Bool → List BatchCompletion → Outcome (Unit {0})
complete_batch_with_results s success completions =
    complete_batch_internal s success completions true
