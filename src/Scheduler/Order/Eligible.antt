-- ===== src/Scheduler/Order/Eligible.antt =====
-- The requests that `ordered_requests` returns (crates/glm-scheduler/src/lib.rs).
use glmaxx.Base.{
  ℕ, ◌+◌, ◌-◌, min, ◌≤◌, ◌<◌, ◌≡◌, refl, inl, inr, Bool, true, ◌&&◌, List, [], ◌∷◌, Option, some,
  arith, ltb, All, Memᴰ, Distinct, All-of_mem, mem-keep, mem-of_keep, keep-Distinct, ok, Bool-cases,
  Result-cases, u8_max, sym, subst, ◌∙◌, &&-eq_true,
}
use glmaxx.Base.Maps.{find, values, find-Entries, mem-key, values-Distinct, Entries-mono}
use glmaxx.Base.Sorting.{sort_by-All, sort_by-Distinct, mem-sort_by}
use glmaxx.Engine.Graph.{GraphProfile, GraphEntry}
use glmaxx.Scheduler.Invariant.{IsRequest, IsValid}
use glmaxx.Scheduler.Order.{
  can_verify, deepest, effective_decode_depth, in_class, precedes, ordered_requests,
}
use glmaxx.Scheduler.{SamplingCollective, sampling_eq, Request, RequestState, Scheduler}

-- A request of the map that is in a state and a class.
pub record IsEligible (s : Scheduler) (in_state : RequestState → Bool)
    (class : Option (ℕ × SamplingCollective)) (r : Request) : Type 0 where
  pub found : find r.spec.id s.requests ≡ some r
  pub valid : IsRequest s.profile s.tenants r.spec.id r
  pub state : in_state r.state ≡ true
  pub classed : in_class s.profile class r ≡ true

module _ (s : Scheduler) (v : IsValid s) where
  mem-found :
      (r : Request)
      → Memᴰ r (values s.requests)
      → (find r.spec.id s.requests ≡ some r) × IsRequest s.profile s.tenants r.spec.id r
  mem-found r m =
      let (k, _, found) = mem-key 0 s.requests r v.ascending m in
      let valid = find-Entries (IsRequest s.profile s.tenants) k s.requests v.requests found in
      let at_id : r.spec.id ≡ k = valid.keyed in
      (
        subst (λ x. find x s.requests ≡ some r) (sym at_id) found,
        subst (λ x. IsRequest s.profile s.tenants x r) (sym at_id) valid,
      )

  module _ (in_state : RequestState → Bool) (class : Option (ℕ × SamplingCollective)) where
    pub ordered_requests-IsEligible :
        All (IsEligible s in_state class) (ordered_requests s in_state class)
    unfolding ordered_requests
    ordered_requests-IsEligible = sort_by-All (precedes s) (IsEligible s in_state class) _ (
        All-of_mem (IsEligible s in_state class) _ λ r m.
          let (m', passes) = mem-of_keep _ (values s.requests) m in
          let (found, valid) = mem-found r m' in
          let (state, classed) =
            &&-eq_true (in_state r.state) (in_class s.profile class r) passes in
          record { found = found; valid = valid; state = state; classed = classed })

    pub ordered_requests-Distinct : Distinct (λ r. r.spec.id) (ordered_requests s in_state class)
    unfolding ordered_requests
    ordered_requests-Distinct =
        sort_by-Distinct (precedes s) (λ r. r.spec.id) _
          (keep-Distinct (λ r. r.spec.id) _ (values s.requests)
            (values-Distinct (λ (r : Request). r.spec.id) 0 s.requests v.ascending
              (Entries-mono (λ k r q. q.keyed) s.requests v.requests)))

    pub eligible-mem :
        (r : Request)
        → Memᴰ r (values s.requests)
        → in_state r.state ≡ true
        → in_class s.profile class r ≡ true
        → Memᴰ r (ordered_requests s in_state class)
    unfolding ordered_requests
    eligible-mem r m state classed =
        mem-sort_by (precedes s) _ (mem-keep _ (values s.requests) m (ground arith))

-- The depth is no more than the bound, and some entry of the profile verifies at it.
pub deepest-le : (bound : ℕ) (es : List GraphEntry) → deepest bound es ≤ bound
unfolding deepest can_verify
deepest-le bound [] = omega arith
deepest-le bound (e ∷ es) = ground (arith, deepest-le bound es)

pub effective_depth_bounds :
    (profile : GraphProfile) (r : Request) (depth : ℕ)
    → effective_decode_depth profile r ≡ ok depth
    → (depth ≤ r.spec.mtp_depth) × (r.generated + depth < r.spec.maximum_new_tokens)
unfolding effective_decode_depth
effective_depth_bounds profile r depth h = ground (
  arith,
  deepest-le (min r.spec.mtp_depth (min (r.spec.maximum_new_tokens - r.generated - 1) u8_max))
      profile.entries,
)

-- A decoding request with tokens left has an effective depth.
pub effective_depth_total :
    (profile : GraphProfile) (r : Request)
    → r.generated < r.spec.maximum_new_tokens
    → (depth : ℕ) × (effective_decode_depth profile r ≡ ok depth)
unfolding effective_decode_depth
effective_depth_total profile r h = (
  deepest (min r.spec.mtp_depth (min (r.spec.maximum_new_tokens - r.generated - 1) u8_max))
      profile.entries,
  ground arith,
)

-- A nonzero depth comes from an entry that verifies at it.
pub deepest-entry :
    (bound : ℕ) (es : List GraphEntry)
    → 0 < deepest bound es
    → (e : GraphEntry) × Memᴰ e es
      × (can_verify bound e ≡ true)
      × (e.key.mtp_depth ≡ deepest bound es)
unfolding deepest
deepest-entry bound [] h = absurd (omega arith)
deepest-entry bound (e ∷ es) h =
    elim (Bool-cases (can_verify bound e && ltb (deepest bound es) e.key.mtp_depth)) [
      | inl here ↦ (e, Memᴰ.head refl, ground arith, ground arith)
      | inr there ↦
          let (e', m, verifies, at_depth) = deepest-entry bound es (ground arith) in
          (e', Memᴰ.tail m, verifies, ground arith)
    ]

-- A nonzero effective depth is that of a captured entry which verifies at it.
pub effective_entry :
    (profile : GraphProfile) (r : Request) (depth : ℕ)
    → effective_decode_depth profile r ≡ ok depth
    → 0 < depth
    → (e : GraphEntry) × (bound : ℕ) × Memᴰ e profile.entries
      × (can_verify bound e ≡ true)
      × (e.key.mtp_depth ≡ depth)
unfolding effective_decode_depth
effective_entry profile r depth h some_depth =
    let bound = min r.spec.mtp_depth (min (r.spec.maximum_new_tokens - r.generated - 1) u8_max) in
    let same : deepest bound profile.entries ≡ depth = ground arith in
    let (e, m, verifies, at_depth) = deepest-entry bound profile.entries (omega arith) in
    (e, bound, m, verifies, at_depth ∙ same)

pub in_class_depth :
    (profile : GraphProfile) (r : Request) (depth : ℕ) (sampling : SamplingCollective)
    → in_class profile (some (depth, sampling)) r ≡ true
    → effective_decode_depth profile r ≡ ok depth
unfolding in_class
in_class_depth profile r depth sampling h = elim (Result-cases (effective_decode_depth profile r)) [
  | inl (d, e) ↦ ground arith
  | inr (x, e) ↦ ground arith
]

sampling_eq_refl : (x : SamplingCollective) → sampling_eq x x ≡ true
unfolding sampling_eq
sampling_eq_refl SamplingCollective.greedy = refl
sampling_eq_refl _ = refl

pub in_class_own :
    (profile : GraphProfile) (r : Request) (depth : ℕ)
    → effective_decode_depth profile r ≡ ok depth
    → in_class profile (some (depth, r.spec.sampling)) r ≡ true
unfolding in_class
in_class_own profile r depth e = ground (arith, sampling_eq_refl r.spec.sampling)
