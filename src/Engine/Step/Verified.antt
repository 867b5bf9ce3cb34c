-- ===== src/Engine/Step/Verified.antt =====
-- Plans that are built verify, and what a verified plan guarantees (crates/glm-engine/src/step.rs).
use glmaxx.Base.{ℕ, ◌+◌, ◌*◌, ◌≤◌, ◌<◌, ◌≡◌, refl, List, ok, arith, subst}
use glmaxx.Engine.Collective.{
  CollectiveOp, CollectiveSchedule, collective_hash, new_schedule, verify_schedule,
}
use glmaxx.Engine.Graph.{StepMode}
use glmaxx.Engine.Graph.Validity.{bytes_eq_refl}
use glmaxx.Engine.Step.{
  StepPlanRequest, StepPlan, request, with_hashes, validate_request, canonical_hash_input,
  compute_hash, check_hashes, hashed, build, verify_plan, zero_hash,
}

module _ (sha256 : List ℕ → List ℕ) where
  new_schedule-whole :
      (ops : List CollectiveOp) (s : CollectiveSchedule)
      → new_schedule sha256 ops ≡ ok s
      → record { operations = ops; hash = collective_hash sha256 ops } ≡ s
  unfolding new_schedule
  new_schedule-whole ops s h = ground arith

  verify_schedule-built :
      (ops : List CollectiveOp) (s : CollectiveSchedule)
      → new_schedule sha256 ops ≡ ok s
      → verify_schedule sha256 (record { operations = ops; hash = collective_hash sha256 ops })
        ≡ ok tt
  unfolding verify_schedule
  verify_schedule-built ops s h = rw (bytes_eq_refl (collective_hash sha256 ops), h)

  -- A schedule that `CollectiveSchedule::new` returns verifies, whatever the hash function.
  pub verify_schedule-new_schedule :
      (ops : List CollectiveOp) (s : CollectiveSchedule)
      → new_schedule sha256 ops ≡ ok s
      → verify_schedule sha256 s ≡ ok tt
  verify_schedule-new_schedule ops s h =
      subst (λ t. verify_schedule sha256 t ≡ ok tt) (new_schedule-whole ops s h)
        (verify_schedule-built ops s h)

  pub build_parts :
      (r : StepPlanRequest) (schedule : CollectiveSchedule) (p : StepPlan)
      → build sha256 r schedule ≡ ok p
      → (verify_schedule sha256 schedule ≡ ok tt)
        × (validate_request r schedule.operations ≡ ok tt)
        × (hashed sha256 (with_hashes r schedule.hash zero_hash) ≡ p)
  unfolding build
  build_parts r schedule p h = ground arith

  hashed-check :
      (r : StepPlanRequest) (schedule : CollectiveSchedule)
      → validate_request r schedule.operations ≡ ok tt
      → check_hashes sha256 (hashed sha256 (with_hashes r schedule.hash zero_hash)) schedule ≡ ok tt
  unfolding check_hashes hashed with_hashes request compute_hash canonical_hash_input
  hashed-check r schedule valid = rw (
    bytes_eq_refl schedule.hash,
    bytes_eq_refl (compute_hash sha256 (with_hashes r schedule.hash zero_hash)),
    valid,
  )

  verify_plan-hashed :
      (r : StepPlanRequest) (schedule : CollectiveSchedule)
      → verify_schedule sha256 schedule ≡ ok tt
      → validate_request r schedule.operations ≡ ok tt
      → verify_plan sha256 (hashed sha256 (with_hashes r schedule.hash zero_hash)) schedule ≡ ok tt
  unfolding verify_plan
  verify_plan-hashed r schedule fine valid = rw fine (hashed-check r schedule valid)

  request-hashed :
      (r : StepPlanRequest) (hash : List ℕ)
      → request (hashed sha256 (with_hashes r hash zero_hash)) ≡ r
  unfolding request hashed with_hashes
  request-hashed r hash = refl

  -- A plan that `StepPlan::build` returns verifies against its schedule and carries the request that it
  -- was built from, whatever the hash function.
  pub verify_plan-build :
      (r : StepPlanRequest) (schedule : CollectiveSchedule) (p : StepPlan)
      → build sha256 r schedule ≡ ok p
      → (verify_plan sha256 p schedule ≡ ok tt) × (request p ≡ r)
  verify_plan-build r schedule p h =
      let (fine, valid, whole) = build_parts r schedule p h in
      (
        subst (λ q. verify_plan sha256 q schedule ≡ ok tt) whole
            (verify_plan-hashed r schedule fine valid),
        subst (λ q. request q ≡ r) whole (request-hashed r schedule.hash),
      )

  -- A request that is valid for a verified schedule is built.
  pub build_total :
      (r : StepPlanRequest) (schedule : CollectiveSchedule)
      → verify_schedule sha256 schedule ≡ ok tt
      → validate_request r schedule.operations ≡ ok tt
      → build sha256 r schedule ≡ ok (hashed sha256 (with_hashes r schedule.hash zero_hash))
  unfolding build
  build_total r schedule fine valid = rw (fine, valid)

-- What a plan of a computation that was accepted is: of at most 64 sequences, which fit its bucket,
-- and 448 rows, with as many rows as its mode asks for.
abbrev pub rows_expected : StepPlanRequest → StepMode → ℕ
rows_expected r StepMode.prefill = r.scheduled_prompt_tokens
rows_expected r StepMode.decode = r.active_sequences
rows_expected r _ = r.active_sequences * (r.mtp_depth + 1)

pub record IsRunnable (r : StepPlanRequest) : Type 0 where
  pub active : 0 < r.active_sequences
  pub bucket : r.active_sequences ≤ r.sequence_bucket
  pub bucket_limit : r.sequence_bucket ≤ 64
  pub row_limit : r.query_rows ≤ 448
  pub rows : r.query_rows ≡ rows_expected r r.mode
  pub depth : r.mtp_depth ≤ 6
