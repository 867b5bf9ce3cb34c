-- ===== src/Engine/Step/Bytes.antt =====
-- The canonical bytes of a plan have the size of their arrays (crates/glm-engine/src/step.rs).
use glmaxx.Base.{ℕ, ◌+◌, ◌≡◌, List, [], ◌∷◌, ◌++◌, length, arith}
use glmaxx.Engine.Graph.{to_le_bytes}
use glmaxx.Engine.Step.{StepPlan, canonical_hash_input, canonical_record}

length-++ : (xs ys : List ℕ) → length (xs ++ ys) ≡ length xs + length ys
length-++ [] ys = ground arith
length-++ (x ∷ xs) ys = ground (arith, length-++ xs ys)

length-canonical_hash_input :
    (p : StepPlan) → length (canonical_hash_input p) ≡ 53 + length p.collective_schedule_hash
unfolding canonical_hash_input to_le_bytes
length-canonical_hash_input p = omega arith

-- The bytes that are hashed for a plan whose schedule's hash has 32 bytes are 85, and with a plan hash
-- of 32 bytes the canonical record has 117.
pub length-canonical_record :
    (p : StepPlan)
    → length p.collective_schedule_hash ≡ 32
    → length p.plan_hash ≡ 32
    → (length (canonical_hash_input p) ≡ 85) × (length (canonical_record p) ≡ 117)
unfolding canonical_record
length-canonical_record p s h =
    let input = length-canonical_hash_input p in
    (
      omega (arith, input, s),
      omega (arith, length-++ (canonical_hash_input p) p.plan_hash, input, s, h),
    )
