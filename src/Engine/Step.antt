-- ===== src/Engine/Step.antt =====
-- Step plans: crates/glm-engine/src/step.rs. SHA-256 is a function
-- from bytes to bytes that the definitions take as an argument.
pub mod Verified
pub mod Bytes
use glmaxx.Base.{
  ℕ, ◌+◌, ◌*◌, ◌%◌, ◌/◌, Bool, true, false, ◌&&◌, ◌||◌, not, List, [], ◌∷◌, ◌++◌, Result, ok, err,
  ltb, leb, ◌==◌, if◌then◌else◌, length, is_empty, u16_max, u32_max, min, ◌>>=◌, Option, none, some,
  or_fail, checked_mul,
}
use Prim.Native.String.{String}
use glmaxx.Engine.Collective.{
  CollectiveOp, CollectiveSchedule, PlanError, verify_schedule, collective_hash_error,
  plan_hash_error, mtp_depth_error, noncanonical_unused, mixed_contract_unreviewed, shape_error,
  mode_error,
}
use glmaxx.Engine.Graph.{
  StepMode, mode_code, AttentionTransport, transport_code, transport_eq, to_le_bytes, bytes_eq,
  codes, is_prefill_transport,
}

abbrev pub maximum_active_sequences : ℕ
maximum_active_sequences = 64

abbrev pub maximum_verifier_rows : ℕ
maximum_verifier_rows = 448

abbrev pub maximum_mtp_depth : ℕ
maximum_mtp_depth = 6

unfoldable pub is_sequence_bucket : ℕ → Bool
is_sequence_bucket value =
    value == 1
    || value == 2
    || value == 4
    || value == 8
    || value == 16
    || value == 32
    || value == 64

pub record StepPlanRequest : Type 0 where
  pub epoch : ℕ
  pub step_id : ℕ
  pub mode : StepMode
  pub active_sequences : ℕ
  pub sequence_bucket : ℕ
  pub scheduled_prompt_tokens : ℕ
  pub query_rows : ℕ
  pub verifier_row_bucket : ℕ
  pub mtp_depth : ℕ
  pub graph_id : ℕ
  pub tp_route_id : ℕ
  pub dcp_route_id : ℕ
  pub attention_transport : AttentionTransport
  pub sampling_route_id : ℕ
  pub sequence_table_generation : ℕ

pub record StepPlan : Type 0 where
  pub epoch : ℕ
  pub step_id : ℕ
  pub mode : StepMode
  pub active_sequences : ℕ
  pub sequence_bucket : ℕ
  pub scheduled_prompt_tokens : ℕ
  pub query_rows : ℕ
  pub verifier_row_bucket : ℕ
  pub mtp_depth : ℕ
  pub graph_id : ℕ
  pub tp_route_id : ℕ
  pub dcp_route_id : ℕ
  pub attention_transport : AttentionTransport
  pub sampling_route_id : ℕ
  pub sequence_table_generation : ℕ
  pub collective_schedule_hash : List ℕ
  pub plan_hash : List ℕ

-- `StepPlan::request`.
unfoldable pub request : StepPlan → StepPlanRequest
request p = record {
  epoch = p.epoch;
  step_id = p.step_id;
  mode = p.mode;
  active_sequences = p.active_sequences;
  sequence_bucket = p.sequence_bucket;
  scheduled_prompt_tokens = p.scheduled_prompt_tokens;
  query_rows = p.query_rows;
  verifier_row_bucket = p.verifier_row_bucket;
  mtp_depth = p.mtp_depth;
  graph_id = p.graph_id;
  tp_route_id = p.tp_route_id;
  dcp_route_id = p.dcp_route_id;
  attention_transport = p.attention_transport;
  sampling_route_id = p.sampling_route_id;
  sequence_table_generation = p.sequence_table_generation;
}

-- The plan of a request with the two hashes given.
unfoldable pub with_hashes : StepPlanRequest → List ℕ → List ℕ → StepPlan
with_hashes r schedule_hash hash = record {
  epoch = r.epoch;
  step_id = r.step_id;
  mode = r.mode;
  active_sequences = r.active_sequences;
  sequence_bucket = r.sequence_bucket;
  scheduled_prompt_tokens = r.scheduled_prompt_tokens;
  query_rows = r.query_rows;
  verifier_row_bucket = r.verifier_row_bucket;
  mtp_depth = r.mtp_depth;
  graph_id = r.graph_id;
  tp_route_id = r.tp_route_id;
  dcp_route_id = r.dcp_route_id;
  attention_transport = r.attention_transport;
  sampling_route_id = r.sampling_route_id;
  sequence_table_generation = r.sequence_table_generation;
  collective_schedule_hash = schedule_hash;
  plan_hash = hash;
}

-- `cache_only` plans leave every field of a computation at zero.
unfoldable pub unused_canonical : StepPlanRequest → List CollectiveOp → Bool
unfolding transport_eq
unused_canonical r ops =
    r.active_sequences == 0
    && r.sequence_bucket == 0
    && r.scheduled_prompt_tokens == 0
    && r.query_rows == 0
    && r.verifier_row_bucket == 0
    && r.mtp_depth == 0
    && r.graph_id == 0
    && r.tp_route_id == 0
    && r.dcp_route_id == 0
    && transport_eq r.attention_transport AttentionTransport.none_transport
    && r.sampling_route_id == 0
    && r.sequence_table_generation == 0
    && is_empty ops

unfoldable pub shape_valid : StepPlanRequest → List CollectiveOp → Bool
unfolding is_sequence_bucket
shape_valid r ops =
    not (r.active_sequences == 0)
    && leb r.active_sequences maximum_active_sequences
    && is_sequence_bucket r.sequence_bucket
    && leb r.active_sequences r.sequence_bucket
    && not (r.query_rows == 0)
    && leb r.query_rows maximum_verifier_rows
    && not (r.graph_id == 0)
    && not (r.tp_route_id == 0)
    && not (r.dcp_route_id == 0)
    && not (r.sequence_table_generation == 0)
    && not (is_empty ops)

unfoldable pub prefill_valid : StepPlanRequest → Bool
unfolding is_prefill_transport
prefill_valid r =
    not (r.scheduled_prompt_tokens == 0)
    && r.query_rows == r.scheduled_prompt_tokens
    && r.verifier_row_bucket == 0
    && r.mtp_depth == 0
    && is_prefill_transport r.attention_transport
    && r.sampling_route_id == 0

-- The guards that decode and verify share, for the expected number of rows.
unfoldable pub rows_valid : StepPlanRequest → ℕ → Bool
unfolding transport_eq
rows_valid r expected_rows =
    r.scheduled_prompt_tokens == 0
    && r.query_rows == expected_rows
    && leb r.query_rows r.verifier_row_bucket
    && leb r.verifier_row_bucket maximum_verifier_rows
    && transport_eq r.attention_transport AttentionTransport.decode_query_lse
    && not (r.sampling_route_id == 0)

-- The part of `validate_request` that depends on the mode.
unfoldable pub validate_mode :
    StepMode → StepPlanRequest → List CollectiveOp → Result PlanError (Unit {0})
validate_mode StepMode.cache_only r ops =
    if unused_canonical r ops then ok tt else err noncanonical_unused
validate_mode StepMode.mixed r ops = err mixed_contract_unreviewed
validate_mode StepMode.prefill r ops =
    if not (shape_valid r ops)
    then err shape_error
    else if prefill_valid r
    then ok tt
    else err mode_error
validate_mode StepMode.decode r ops =
    if not (shape_valid r ops)
    then err shape_error
    else if rows_valid r r.active_sequences && r.mtp_depth == 0
    then ok tt
    else err mode_error
validate_mode StepMode.verify r ops = if not (shape_valid r ops) then err shape_error else do
  expected_rows ← or_fail (checked_mul u32_max r.active_sequences (r.mtp_depth + 1)) shape_error
  if_rows r expected_rows
  where
    if_rows : StepPlanRequest → ℕ → Result PlanError (Unit {0})
    if_rows q expected_rows =
        if rows_valid q expected_rows && not (q.mtp_depth == 0) then ok tt else err mode_error

unfoldable pub validate_request : StepPlanRequest → List CollectiveOp → Result PlanError (Unit {0})
validate_request r ops =
    if ltb maximum_mtp_depth r.mtp_depth then err mtp_depth_error else validate_mode r.mode r ops

-- `canonical_hash_input`: the fields in order, little-endian, then the schedule's hash.
unfoldable pub canonical_hash_input : StepPlan → List ℕ
canonical_hash_input p =
    to_le_bytes 8 p.epoch
    ++ to_le_bytes 8 p.step_id
    ++ (mode_code p.mode ∷ [])
    ++ to_le_bytes 2 p.active_sequences
    ++ to_le_bytes 2 p.sequence_bucket
    ++ to_le_bytes 4 p.scheduled_prompt_tokens
    ++ to_le_bytes 4 p.query_rows
    ++ to_le_bytes 4 p.verifier_row_bucket
    ++ (p.mtp_depth ∷ [])
    ++ to_le_bytes 4 p.graph_id
    ++ to_le_bytes 2 p.tp_route_id
    ++ to_le_bytes 2 p.dcp_route_id
    ++ (transport_code p.attention_transport ∷ [])
    ++ to_le_bytes 2 p.sampling_route_id
    ++ to_le_bytes 8 p.sequence_table_generation
    ++ p.collective_schedule_hash

unfoldable pub canonical_record : StepPlan → List ℕ
unfolding canonical_hash_input
canonical_record p = canonical_hash_input p ++ p.plan_hash

-- Thirty-two zero bytes.
abbrev pub zero_hash : List ℕ
zero_hash = to_le_bytes 32 0

module _ (sha256 : List ℕ → List ℕ) where
  unfoldable pub compute_hash : StepPlan → List ℕ
  compute_hash p = sha256 (codes "glmaxx.step-plan.v1" ++ (0 ∷ []) ++ canonical_hash_input p)

  unfoldable pub check_hashes : StepPlan → CollectiveSchedule → Result PlanError (Unit {0})
  check_hashes p schedule =
      if not (bytes_eq schedule.hash p.collective_schedule_hash)
      then err collective_hash_error
      else if not (bytes_eq (compute_hash p) p.plan_hash)
      then err plan_hash_error
      else validate_request (request p) schedule.operations

  -- The plan that `build` makes: its hash does not depend on the hash it had before.
  unfoldable pub hashed : StepPlan → StepPlan
  hashed p = record p { plan_hash = compute_hash p }

  -- `StepPlan::build`.
  unfoldable pub build : StepPlanRequest → CollectiveSchedule → Result PlanError StepPlan
  build r schedule = do
    fine ← verify_schedule sha256 schedule
    valid ← validate_request r schedule.operations
    ok (hashed (with_hashes r schedule.hash zero_hash))

  -- `StepPlan::verify`.
  unfoldable pub verify_plan : StepPlan → CollectiveSchedule → Result PlanError (Unit {0})
  verify_plan p schedule = do fine ← verify_schedule sha256 schedule; check_hashes p schedule
