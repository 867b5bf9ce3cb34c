-- ===== src/Scheduler/Batches/Decode.antt =====
-- The rows of a decode or verify batch (crates/glm-scheduler/src/lib.rs, `build_decode_batch`).
use glmaxx.Base.{
  ℕ, ◌≡◌, refl, ◌≢◌, inl, inr, true, List, [], ◌∷◌, map, some, arith, ◌==◌, All, Distinct,
  Bool-cases,
}
use glmaxx.Scheduler.Invariant.{IsRow, Runs}
use glmaxx.Scheduler.Order.Eligible.{IsEligible, in_class_depth, effective_depth_bounds}
use glmaxx.Scheduler.Batches.{decode_row, decode_kind}
use glmaxx.Scheduler.{Request, Scheduler, SamplingCollective, is_decoding, decoding}

pub is_decoding-eq : (r : Request) → is_decoding r.state ≡ true → r.state ≡ decoding
is_decoding-eq r h = ground arith

-- The requests of a decode class run in its batches.
abbrev pub DecodeClass : Scheduler → ℕ → SamplingCollective → Request → Type 0
DecodeClass s depth sampling = IsEligible s is_decoding (some (depth, sampling))

class-Runs :
    (s : Scheduler) (depth : ℕ) (sampling : SamplingCollective) (r : Request)
    → DecodeClass s depth sampling r
    → Runs (decode_kind depth) r (decode_row r)
class-Runs s depth sampling r c =
    let now = is_decoding-eq r c.state in
    let (deep, left) =
      effective_depth_bounds s.profile r depth
        (in_class_depth s.profile r depth sampling c.classed) in
    elim (Bool-cases (depth == 0)) [
      | inl flat ↦ rw flat (now, refl)
      | inr steep ↦ rw steep (now, refl, ground arith, omega (arith, c.valid.depth), left)
    ]

class-IsRow :
    (s : Scheduler) (depth : ℕ) (sampling : SamplingCollective) (r : Request)
    → DecodeClass s depth sampling r
    → IsRow s.requests (decode_kind depth) (decode_row r)
class-IsRow s depth sampling r c = record {
  request = r;
  found = c.found;
  runs = class-Runs s depth sampling r c;
}

pub rows-All :
    (s : Scheduler) (depth : ℕ) (sampling : SamplingCollective) (rs : List Request)
    → All (DecodeClass s depth sampling) rs
    → All (IsRow s.requests (decode_kind depth)) (map decode_row rs)
rows-All s depth sampling [] c = tt
rows-All s depth sampling (r ∷ rs) c =
    (class-IsRow s depth sampling r c.0, rows-All s depth sampling rs c.1)

rows-apart :
    (id : ℕ) (rs : List Request)
    → All (λ r. r.spec.id ≢ id) rs
    → All (λ row. row.request_id ≢ id) (map decode_row rs)
rows-apart id [] h = tt
rows-apart id (r ∷ rs) h = (h.0, rows-apart id rs h.1)

pub rows-Distinct :
    (rs : List Request)
    → Distinct (λ r. r.spec.id) rs
    → Distinct (λ row. row.request_id) (map decode_row rs)
rows-Distinct [] d = tt
rows-Distinct (r ∷ rs) d = (rows-apart r.spec.id rs d.0, rows-Distinct rs d.1)
