-- ===== src/Scheduler/Construction.antt =====
-- A scheduler that `new` returns is well formed (crates/glm-scheduler/src/lib.rs).
use glmaxx.Base.{
  ℕ, ◌≤◌, ◌≡◌, inl, inr, true, List, [], ◌∷◌, none, arith, ok, Result-cases, u32_max, sym, subst,
}
use glmaxx.Base.Maps.{Map, insert, Entries, insert-Entries}
use glmaxx.Engine.Graph.{GraphProfile, verify_profile}
use glmaxx.Engine.Graph.Validity.{verify_profile-valid, validate_entries-IsCaptured}
use glmaxx.Scheduler.Admission.{config_valid, tenant_valid, add_tenants, new}
use glmaxx.Scheduler.Invariant.{IsTenant, IsConfig, IsValid}
use glmaxx.Scheduler.{TenantConfig, Tenant, SchedulerConfig, Scheduler}

fresh_tenant :
    (t : TenantConfig)
    → tenant_valid t ≡ true
    → IsTenant t.tenant (record { config = t; service_units = 0 })
unfolding tenant_valid
fresh_tenant t h = ground arith

add_tenants_step :
    (tenants m : Map Tenant) (t : TenantConfig) (ts : List TenantConfig)
    → add_tenants tenants (t ∷ ts) ≡ ok m
    → (tenant_valid t ≡ true)
      × (add_tenants (insert t.tenant (record { config = t; service_units = 0 }) tenants) ts ≡ ok m)
unfolding add_tenants
add_tenants_step tenants m t ts h = ground arith

add_tenants_end : (tenants m : Map Tenant) → add_tenants tenants [] ≡ ok m → tenants ≡ m
unfolding add_tenants
add_tenants_end tenants m h = ground arith

add_tenants-Entries :
    (tenants m : Map Tenant) (ts : List TenantConfig)
    → add_tenants tenants ts ≡ ok m
    → Entries IsTenant tenants
    → Entries IsTenant m
add_tenants-Entries tenants m [] h v = subst (Entries IsTenant) (add_tenants_end tenants m h) v
add_tenants-Entries tenants m (t ∷ ts) h v =
    let (valid, rest) = add_tenants_step tenants m t ts h in
    add_tenants-Entries (insert t.tenant (record { config = t; service_units = 0 }) tenants) m ts
      rest (insert-Entries IsTenant t.tenant _ tenants (fresh_tenant t valid) v)

config_valid-IsConfig :
    (c : SchedulerConfig) → c.maximum_prefill_tokens ≤ u32_max → config_valid c ≡ true → IsConfig c
unfolding config_valid
config_valid-IsConfig c w h = ground arith

-- What `new` went through when it returned a scheduler.
record Built (sha256 : List ℕ → List ℕ) (c : SchedulerConfig) (p : GraphProfile)
    (ts : List TenantConfig) (s : Scheduler) : Type 0 where
  verified : verify_profile sha256 p ≡ ok tt
  configured : config_valid c ≡ true
  tenants : Map Tenant
  added : add_tenants [] ts ≡ ok tenants
  whole : s ≡ record {
    config = c;
    profile = p;
    tenants = tenants;
    requests = [];
    cancellations = [];
    inflight = none;
    next_step_id = 1;
    decode_burst = 0;
  }

new-Built :
    (sha256 : List ℕ → List ℕ) (c : SchedulerConfig) (p : GraphProfile) (ts : List TenantConfig)
    (s : Scheduler)
    → new sha256 c p ts ≡ ok s
    → Built sha256 c p ts s
unfolding new
new-Built sha256 c p ts s h = elim (Result-cases (verify_profile sha256 p)) [
  | inr (e, refused) ↦ ground arith
  | inl (tt, verified) ↦ elim (Result-cases (add_tenants [] ts)) [
    | inr (e, refused) ↦ ground arith
    | inl (tenants, added) ↦ record {
      verified = ground arith;
      configured = ground arith;
      tenants = tenants;
      added = added;
      whole = ground arith;
    }
  ]
]

pub new-IsValid :
    (sha256 : List ℕ → List ℕ) (c : SchedulerConfig) (p : GraphProfile) (ts : List TenantConfig)
    (s : Scheduler)
    → c.maximum_prefill_tokens ≤ u32_max
    → new sha256 c p ts ≡ ok s
    → IsValid s
new-IsValid sha256 c p ts s w h =
    let b = new-Built sha256 c p ts s h in
    subst IsValid (sym b.whole) (record {
      config = config_valid-IsConfig c w b.configured;
      entries = validate_entries-IsCaptured p.entries (verify_profile-valid sha256 p b.verified);
      tenants = add_tenants-Entries [] b.tenants ts b.added tt;
      requests = tt;
      ascending = tt;
      inflight = tt;
    })
