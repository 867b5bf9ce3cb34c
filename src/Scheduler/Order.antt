-- ===== src/Scheduler/Order.antt =====
-- The order in which requests are served: crates/glm-scheduler/src/lib.rs, `ordered_requests` and
-- `effective_decode_depth`. A list of identifiers in the code is here the list of the requests that
-- they name, which the code looks up again; a request's key in the map is its identifier.
pub mod Eligible
use glmaxx.Base.{
  ℕ, ◌-◌, ◌*◌, min, Bool, true, false, ◌&&◌, ◌||◌, List, [], ◌∷◌, Option, none, some, ltb, leb,
  ◌==◌, if◌then◌else◌, keep, Result, ok, err, or_fail, ◌>>=◌, checked_sub, u8_max,
}
use glmaxx.Base.Maps.{find, values}
use glmaxx.Base.Sorting.{sort_by}
use glmaxx.Engine.Graph.{GraphProfile, GraphEntry, StepMode, mode_eq}
use glmaxx.Scheduler.{
  SamplingCollective, sampling_eq, Request, RequestState, Scheduler, SchedulerError, commit,
}

-- An entry whose graph can verify one sequence at a depth within the bound.
unfoldable pub can_verify : ℕ → GraphEntry → Bool
can_verify bound e =
    mode_eq e.key.mode StepMode.verify
    && leb e.key.mtp_depth bound
    && ltb e.key.mtp_depth e.maximum_query_rows

unfoldable pub deepest : ℕ → List GraphEntry → ℕ
deepest bound [] = 0
deepest bound (e ∷ es) =
    let rest = deepest bound es in
    if can_verify bound e && ltb rest e.key.mtp_depth then e.key.mtp_depth else rest

unfoldable pub effective_decode_depth : GraphProfile → Request → Result SchedulerError ℕ
effective_decode_depth profile r = do
  remaining ← or_fail (checked_sub r.spec.maximum_new_tokens r.generated) commit
  if remaining == 0
      then err commit
      else ok (deepest (min r.spec.mtp_depth (min (remaining - 1) u8_max)) profile.entries)

-- The decode class of a request: its effective depth and its sampling collective.
unfoldable pub in_class : GraphProfile → Option (ℕ × SamplingCollective) → Request → Bool
in_class profile none r = true
in_class profile (some (depth, sampling)) r =
    elim (effective_decode_depth profile r) [ ok d ↦ d == depth | err e ↦ false ]
    && sampling_eq r.spec.sampling sampling

-- The service and weight of a request's tenant. The index of a tenant that is missing panics in the
-- code; here it gives a default.
unfoldable pub tenant_share : Scheduler → Request → ℕ × ℕ
tenant_share s r = elim (find r.spec.tenant s.tenants) [
  | none ↦ (0, 1)
  | some t ↦ (t.service_units, t.config.weight)
]

-- The comparator of `ordered_requests`: service by weight, then tenant, then identifier.
unfoldable pub precedes : Scheduler → Request → Request → Bool
precedes s left right =
    let left_score = (tenant_share s left).0 * (tenant_share s right).1 in
    let right_score = (tenant_share s right).0 * (tenant_share s left).1 in
    ltb left_score right_score
    || (left_score == right_score
        && (ltb left.spec.tenant right.spec.tenant
            || (left.spec.tenant == right.spec.tenant && leb left.spec.id right.spec.id)))

unfoldable pub ordered_requests :
    Scheduler → (RequestState → Bool) → Option (ℕ × SamplingCollective) → List Request
ordered_requests s in_state class =
    sort_by (precedes s)
      (keep (λ r. in_state r.state && in_class s.profile class r) (values s.requests))
