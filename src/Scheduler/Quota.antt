-- ===== src/Scheduler/Quota.antt =====
-- The limit on a tenant's active requests (crates/glm-scheduler/src/lib.rs, `admit_with_prefix`).
use glmaxx.Base.{
  ℕ, ◌+◌, ◌≤◌, ◌<◌, ◌≡◌, refl, inl, inr, Bool, true, false, List, [], ◌∷◌, some, arith, ◌==◌, All,
  count, Bool-cases, Option-cases, sym, subst, ap, if◌then◌else◌, not, ◌||◌, is_some, leb, ==→eq,
}
use glmaxx.Base.Maps.{Map, find, insert, values}
use glmaxx.Base.Related.{Related, Related-refl, adjust-Related, find-Related_back, count-Related}
use glmaxx.Scheduler.Admission.{
  is_active_of, active_requests, admit_with_prefix, entering, cancel, spec_valid,
  has_graph_for_request, apply_cancellations, apply_cancellations_at_boundary,
}
use glmaxx.Scheduler.Advance.{Advances}
use glmaxx.Scheduler.Batches.{next_batch}
use glmaxx.Scheduler.Completion.{
  TenantServiceUpdate, write_tenants, apply_plan, complete_batch_internal,
  complete_batch_with_commits, complete_batch_with_results,
}
use glmaxx.Scheduler.Completion.Rows.{complete_cases}
use glmaxx.Scheduler.History.{
  Call, admits, cancels, settles, selects, commits, reports, step, run, IsWordCall, step-IsValid,
}
use glmaxx.Scheduler.Invariant.{IsValid}
use glmaxx.Scheduler.Lifetime.{
  Forward, Forward-refl, cancel-requests, settle-Forward, next_batch-Forward, next_batch-tenants,
  complete-Forward,
}
use glmaxx.Scheduler.{BatchCompletion, Request, RequestSpec, Tenant, Scheduler, is_terminal}

-- No tenant has more active requests than it may.
abbrev pub InQuota : Scheduler → Type 0
InQuota s =
    (k : ℕ) (t : Tenant)
    → find k s.tenants ≡ some t
    → active_requests s k ≤ t.config.maximum_active_requests

advance-active :
    (tenant : ℕ) (r q : Request)
    → Advances r q
    → is_active_of tenant q ≡ true
    → is_active_of tenant r ≡ true
unfolding is_active_of
advance-active tenant r q a h = elim (Bool-cases (is_terminal r.state)) [
  | inl over ↦ let same = ap is_terminal (a.ended over) in ground (arith, a.same_spec)
  | inr open_state ↦ ground (arith, ap (λ x. x.tenant) a.same_spec)
]

-- Moving requests forward makes none active.
pub active-Forward :
    (s t : Scheduler) (tenant : ℕ)
    → Forward s t
    → active_requests t tenant ≤ active_requests s tenant
unfolding active_requests
active-Forward s t tenant h =
    count-Related Advances (is_active_of tenant) s.requests t.requests (advance-active tenant) h

count-insert :
    (p : Request → Bool) (k : ℕ) (r : Request) (m : Map Request)
    → count p (values (insert k r m)) ≤ count p (values m) + (if p r then 1 else 0)
unfolding insert
count-insert p k r [] = ground arith
count-insert p k r ((j, q) ∷ m) = ground (arith, count-insert p k r m)

-- Admission changes nothing, or adds a request for a tenant that is below its limit.
data Admits (s : Scheduler) (spec : RequestSpec) (cached : ℕ) (t : Scheduler) : Type 0 where
  unchanged : t ≡ s → Admits s spec cached t
  added :
      (tenant : Tenant)
      → find spec.tenant s.tenants ≡ some tenant
      → active_requests s spec.tenant < tenant.config.maximum_active_requests
      → t ≡ record s { requests = insert spec.id (entering spec cached) s.requests }
      → Admits s spec cached t

admit_room :
    (s : Scheduler) (spec : RequestSpec) (cached : ℕ)
    → Admits s spec cached (admit_with_prefix s spec cached).0
unfolding admit_with_prefix
admit_room s spec cached = elim (Option-cases (find spec.tenant s.tenants)) [
  | inl missing ↦ unchanged (ground arith)
  | inr (t, found) ↦
      elim (Bool-cases (
        not (spec_valid spec cached)
        || is_some (find spec.id s.requests)
        || leb t.config.maximum_active_requests (active_requests s spec.tenant)
        || not (has_graph_for_request s.profile spec))) [
          | inl refused ↦ unchanged (ground arith)
          | inr passed ↦ added t found (ground arith) (ground arith)
        ]
]

entering-active :
    (spec : RequestSpec) (cached k : ℕ)
    → (spec.tenant == k) ≡ false
    → is_active_of k (entering spec cached) ≡ false
unfolding is_active_of entering
entering-active spec cached k h = ground arith

added-InQuota :
    (s : Scheduler) (spec : RequestSpec) (cached : ℕ) (tenant : Tenant)
    → find spec.tenant s.tenants ≡ some tenant
    → active_requests s spec.tenant < tenant.config.maximum_active_requests
    → InQuota s
    → InQuota (record s { requests = insert spec.id (entering spec cached) s.requests })
unfolding active_requests
added-InQuota s spec cached tenant found room q k t e = elim (Bool-cases (spec.tenant == k)) [
  | inl own ↦
      let here = ==→eq spec.tenant k own in
      let same : tenant ≡ t = ground arith in
      let one = count-insert (is_active_of k) spec.id (entering spec cached) s.requests in
      let below =
        subst
          (λ x. count (is_active_of x) (values s.requests) < tenant.config.maximum_active_requests)
          here room in
      ground (arith, one, below)
  | inr other ↦ ground (
    arith,
    q k t e,
    count-insert (is_active_of k) spec.id (entering spec cached) s.requests,
    entering-active spec cached k other,
  )
]

admit-InQuota :
    (s : Scheduler) (spec : RequestSpec) (cached : ℕ)
    → InQuota s
    → InQuota (admit_with_prefix s spec cached).0
admit-InQuota s spec cached q = elim (admit_room s spec cached) [
  | unchanged e ↦ subst InQuota (sym e) q
  | added t found room e ↦ subst InQuota (sym e) (added-InQuota s spec cached t found room q)
]

-- Calls that move requests forward and keep the tenants' configurations keep the quota.
abbrev SameConfig : Tenant → Tenant → Type 0
SameConfig t u = u.config ≡ t.config

abbrev SameTenants : Scheduler → Scheduler → Type 0
SameTenants s t = Related SameConfig s.tenants t.tenants

Forward-InQuota : (s t : Scheduler) → Forward s t → SameTenants s t → InQuota s → InQuota t
Forward-InQuota s t f same q k u e =
    let (u₀, found, config) = find-Related_back SameConfig k s.tenants t.tenants same e in
    omega (arith, active-Forward s t k f, q k u₀ found, ap (λ c. c.maximum_active_requests) config)

write_tenants-Same :
    (us : List TenantServiceUpdate) (m n : Map Tenant)
    → Related SameConfig m n
    → Related SameConfig m (write_tenants us n)
unfolding write_tenants
write_tenants-Same [] m n h = h
write_tenants-Same (u ∷ us) m n h =
    write_tenants-Same us m _ (adjust-Related SameConfig u.tenant_id _ m n (λ v w e same. same) h)

same_refl : (s : Scheduler) → SameTenants s s
same_refl s = Related-refl SameConfig (λ t. refl) s.tenants

same-eq : (s t : Scheduler) → t.tenants ≡ s.tenants → SameTenants s t
same-eq s t e = subst (Related SameConfig s.tenants) (sym e) (same_refl s)

complete-Same :
    (s : Scheduler) (success : Bool) (completions : List BatchCompletion) (explicit : Bool)
    → SameTenants s (complete_batch_internal s success completions explicit).0
unfolding apply_plan
complete-Same s success completions explicit =
    complete_cases (SameTenants s) s success completions explicit (same_refl s) λ b plan busy e.
      write_tenants-Same plan.tenant_service_units s.tenants s.tenants (same_refl s)

cancel-tenants : (s : Scheduler) (id : ℕ) → (cancel s id).0.tenants ≡ s.tenants
unfolding cancel
cancel-tenants s id = ground arith

settle-tenants : (s : Scheduler) → (apply_cancellations_at_boundary s).0.tenants ≡ s.tenants
unfolding apply_cancellations_at_boundary apply_cancellations
settle-tenants s = ground arith

cancel-Forward : (s : Scheduler) (id : ℕ) → Forward s (cancel s id).0
cancel-Forward s id =
    subst (Related Advances s.requests) (sym (cancel-requests s id)) (Forward-refl s)

complete-InQuota :
    (s : Scheduler) (success : Bool) (completions : List BatchCompletion) (explicit : Bool)
    → IsValid s
    → InQuota s
    → InQuota (complete_batch_internal s success completions explicit).0
complete-InQuota s success completions explicit v =
    Forward-InQuota s (complete_batch_internal s success completions explicit).0
      (complete-Forward s success completions explicit v)
      (complete-Same s success completions explicit)

step-InQuota : (s : Scheduler) (c : Call) → IsValid s → InQuota s → InQuota (step s c)
unfolding step complete_batch_with_commits complete_batch_with_results
step-InQuota s (admits spec cached) v q = admit-InQuota s spec cached q
step-InQuota s (cancels id) v q =
    Forward-InQuota s (cancel s id).0 (cancel-Forward s id)
      (same-eq s (cancel s id).0 (cancel-tenants s id)) q
step-InQuota s settles v q =
    Forward-InQuota s (apply_cancellations_at_boundary s).0 (settle-Forward s)
      (same-eq s (apply_cancellations_at_boundary s).0 (settle-tenants s)) q
step-InQuota s selects v q =
    Forward-InQuota s (next_batch s).0 (next_batch-Forward s v)
      (same-eq s (next_batch s).0 (next_batch-tenants s v)) q
step-InQuota s (commits success pairs) v q = complete-InQuota s success _ false v q
step-InQuota s (reports success completions) v q = complete-InQuota s success completions true v q

-- Any calls whose numbers are words, from a well-formed scheduler in which no tenant has more active
-- requests than it may have, leave every tenant within that number.
pub run-InQuota :
    (s : Scheduler) (cs : List Call)
    → All IsWordCall cs
    → IsValid s
    → InQuota s
    → InQuota (run s cs)
unfolding run
run-InQuota s [] w v q = q
run-InQuota s (c ∷ cs) w v q =
    run-InQuota (step s c) cs w.1 (step-IsValid s c w.0 v) (step-InQuota s c v q)
