-- ===== src/Scheduler/Admission.antt =====
-- Construction, admission and cancellation: crates/glm-scheduler/src/lib.rs, `new` to
-- `apply_cancellations_at_boundary`, `has_graph_for_request` and `apply_cancellations`.
pub mod Preserve
use glmaxx.Base.{
  ℕ, ◌%◌, Bool, ◌&&◌, ◌||◌, not, List, [], ◌∷◌, none, some, ltb, leb, ◌==◌, if◌then◌else◌, any,
  count, is_empty, is_some, Result, ok, err,
}
use glmaxx.Base.Maps.{Map, find, insert, adjust, values}
use glmaxx.Engine.Graph.{GraphProfile, GraphEntry, StepMode, mode_eq, verify_profile}
use glmaxx.Scheduler.{
  TenantConfig, RequestSpec, Request, RequestState, waiting_prefill, decoding, finished, cancelled,
  failed, is_terminal, Tenant, SchedulerConfig, Scheduler, SchedulerError, config_error,
  graph_profile, tenant_error, tenant_limit, request_error, unknown_request, uncaptured_shape,
  inflight_error, Outcome, maximum_batch_rows,
}

unfoldable pub config_valid : SchedulerConfig → Bool
config_valid c = not (
    c.maximum_batch_sequences == 0
    || ltb maximum_batch_rows c.maximum_batch_sequences
    || c.maximum_prefill_tokens == 0
    || c.maximum_decode_burst == 0)

unfoldable pub tenant_valid : TenantConfig → Bool
tenant_valid t = not (t.tenant == 0 || t.weight == 0 || t.maximum_active_requests == 0)

-- The loop of `new` over the tenant configurations; a tenant may be named once.
unfoldable pub add_tenants : Map Tenant → List TenantConfig → Result SchedulerError (Map Tenant)
add_tenants tenants [] = ok tenants
add_tenants tenants (t ∷ ts) =
    let rest =
      add_tenants (insert t.tenant (record { config = t; service_units = 0 }) tenants) ts in
    if not (tenant_valid t) || is_some (find t.tenant tenants) then err tenant_error else rest

-- `Scheduler::new`.
unfoldable pub new :
    (List ℕ → List ℕ)
    → SchedulerConfig
    → GraphProfile
    → List TenantConfig
    → Result SchedulerError Scheduler
new sha256 config profile tenant_configs = elim (verify_profile sha256 profile) [
  | err e ↦ err graph_profile
  | ok _ ↦
      if not (config_valid config) then err config_error else elim (add_tenants [] tenant_configs) [
        | err e ↦ err e
        | ok tenants ↦
            if is_empty tenants
            then err tenant_error
            else ok (record {
              config = config;
              profile = profile;
              tenants = tenants;
              requests = [];
              cancellations = [];
              inflight = none;
              next_step_id = 1;
              decode_burst = 0;
            })
      ]
]

-- The conditions on a request's own numbers.
unfoldable pub spec_valid : RequestSpec → ℕ → Bool
spec_valid spec cached = not (
    spec.id == 0
    || spec.prompt_tokens == 0
    || spec.maximum_new_tokens == 0
    || ltb 6 spec.mtp_depth
    || ltb spec.prompt_tokens cached
    || (not (cached == spec.prompt_tokens) && not (cached % 64 == 0)))

unfoldable pub is_active_of : ℕ → Request → Bool
is_active_of tenant r = r.spec.tenant == tenant && not (is_terminal r.state)

-- The requests of a tenant that have not ended.
unfoldable pub active_requests : Scheduler → ℕ → ℕ
active_requests s tenant = count (is_active_of tenant) (values s.requests)

unfoldable pub is_prefill_entry : GraphEntry → Bool
is_prefill_entry e = mode_eq e.key.mode StepMode.prefill

unfoldable pub is_decode_entry : GraphEntry → Bool
is_decode_entry e =
    mode_eq e.key.mode StepMode.decode && e.key.mtp_depth == 0 && not (e.maximum_query_rows == 0)

unfoldable pub is_verify_entry : ℕ → GraphEntry → Bool
is_verify_entry depth e =
    mode_eq e.key.mode StepMode.verify && e.key.mtp_depth == depth && ltb depth e.maximum_query_rows

unfoldable pub has_graph_for_request : GraphProfile → RequestSpec → Bool
has_graph_for_request profile spec =
    any is_prefill_entry profile.entries
    && any is_decode_entry profile.entries
    && (spec.mtp_depth == 0 || any (is_verify_entry spec.mtp_depth) profile.entries)

-- A request as it enters, with the cached part of its prompt done.
unfoldable pub entering : RequestSpec → ℕ → Request
entering spec cached = record {
  spec = spec;
  state = if cached == spec.prompt_tokens then decoding else waiting_prefill;
  prompt_done = cached;
  generated = 0;
}

unfoldable pub admit_with_prefix : Scheduler → RequestSpec → ℕ → Outcome (Unit {0})
admit_with_prefix s spec cached =
    if not (spec_valid spec cached) || is_some (find spec.id s.requests)
    then (s, err request_error)
    else elim (find spec.tenant s.tenants) [
      | none ↦ (s, err tenant_error)
      | some tenant ↦
          if leb tenant.config.maximum_active_requests (active_requests s spec.tenant)
          then (s, err tenant_limit)
          else if not (has_graph_for_request s.profile spec)
          then (s, err uncaptured_shape)
          else (record s { requests = insert spec.id (entering spec cached) s.requests }, ok tt)
    ]

unfoldable pub admit : Scheduler → RequestSpec → Outcome (Unit {0})
admit s spec = admit_with_prefix s spec 0

-- The set of cancellations, ascending.
unfoldable pub add_cancellation : ℕ → List ℕ → List ℕ
add_cancellation id [] = id ∷ []
add_cancellation id (other ∷ ids) =
    if id == other
    then other ∷ ids
    else if ltb id other
    then id ∷ other ∷ ids
    else other ∷ add_cancellation id ids

unfoldable pub cancel : Scheduler → ℕ → Outcome (Unit {0})
cancel s id = elim (find id s.requests) [
  | none ↦ (s, err unknown_request)
  | some request ↦
      if is_terminal request.state
      then (s, ok tt)
      else (record s { cancellations = add_cancellation id s.cancellations }, ok tt)
]

-- What a pending cancellation does to its request.
unfoldable pub cancelled_state : RequestState → RequestState
cancelled_state finished = finished
cancelled_state failed = failed
cancelled_state _ = cancelled

unfoldable pub cancel_request : Request → Request
cancel_request r = record r { state = cancelled_state r.state }

unfoldable pub cancel_all : List ℕ → Map Request → Map Request
cancel_all [] requests = requests
cancel_all (id ∷ ids) requests = cancel_all ids (adjust id cancel_request requests)

unfoldable pub apply_cancellations : Scheduler → Scheduler
apply_cancellations s = record s {
  requests = cancel_all s.cancellations s.requests;
  cancellations = [];
}

unfoldable pub apply_cancellations_at_boundary : Scheduler → Outcome (Unit {0})
apply_cancellations_at_boundary s =
    if is_some s.inflight then (s, err inflight_error) else (apply_cancellations s, ok tt)
