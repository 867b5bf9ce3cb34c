-- ===== src/Engine/Collective.antt =====
-- The collective schedule of a step: crates/glm-engine/src/step.rs. SHA-256 is a function from bytes
-- to bytes that the definitions take as an argument.
use glmaxx.Base.{
  ℕ, ◌+◌, ◌%◌, ◌/◌, Bool, ◌&&◌, not, List, [], ◌∷◌, ◌++◌, Result, ok, err, ltb, ◌==◌, if◌then◌else◌,
  length, min, u16_max, ◌>>=◌,
}
use glmaxx.Engine.Graph.{to_le_bytes, bytes_eq, codes}

abbrev pub tp_rank_mask : ℕ
tp_rank_mask = 15

pub data CollectiveKind : Type 0 where
  tp_reduce dcp_packed_ckv dcp_query_gather dcp_candidate_exchange dcp_partial_state_return
        logits_argmax logits_top_k logits_mass :
      CollectiveKind

unfoldable pub kind_code : CollectiveKind → ℕ
kind_code tp_reduce = 1
kind_code dcp_packed_ckv = 2
kind_code dcp_query_gather = 3
kind_code dcp_candidate_exchange = 4
kind_code dcp_partial_state_return = 5
kind_code logits_argmax = 6
kind_code logits_top_k = 7
kind_code logits_mass = 8

pub record CollectiveOp : Type 0 where
  pub ordinal : ℕ
  pub kind : CollectiveKind
  pub route_id : ℕ
  pub payload_bytes : ℕ
  pub participant_mask : ℕ

pub record CollectiveSchedule : Type 0 where
  pub operations : List CollectiveOp
  pub hash : List ℕ

pub data PlanError : Type 0 where
  collective_count collective_ordinal collective_operation collective_hash_error plan_hash_error :
      PlanError
  mtp_depth_error noncanonical_unused mixed_contract_unreviewed shape_error mode_error : PlanError

unfoldable pub operation_bytes : CollectiveOp → List ℕ
unfolding to_le_bytes kind_code
operation_bytes op =
    to_le_bytes 2 op.ordinal
    ++ (kind_code op.kind ∷ [])
    ++ to_le_bytes 2 op.route_id
    ++ to_le_bytes 4 op.payload_bytes
    ++ (op.participant_mask ∷ [])

unfoldable pub operations_bytes : List CollectiveOp → List ℕ
unfolding operation_bytes
operations_bytes [] = []
operations_bytes (op ∷ ops) = operation_bytes op ++ operations_bytes ops

-- The operation's guards; the upper four bits of the mask, a byte, are those outside `TP_RANK_MASK`.
unfoldable pub operation_valid : CollectiveOp → Bool
operation_valid op =
    not (op.route_id == 0)
    && not (op.payload_bytes == 0)
    && not (op.participant_mask == 0)
    && op.participant_mask / 16 % 16 == 0

-- The loop of `CollectiveSchedule::new`, from the expected ordinal.
unfoldable pub check_operations : ℕ → List CollectiveOp → Result PlanError (Unit {0})
check_operations expected [] = ok tt
check_operations expected (op ∷ ops) =
    if not (op.ordinal == expected)
    then err collective_ordinal
    else if not (operation_valid op)
    then err collective_operation
    else check_operations (expected + 1) ops

module _ (sha256 : List ℕ → List ℕ) where
  unfoldable pub collective_hash : List CollectiveOp → List ℕ
  collective_hash ops = sha256 (
      codes "glmaxx.collective-schedule.v1"
      ++ (0 ∷ [])
      ++ to_le_bytes 2 (min (length ops) u16_max)
      ++ operations_bytes ops)

  -- `CollectiveSchedule::new`.
  unfoldable pub new_schedule : List CollectiveOp → Result PlanError CollectiveSchedule
  new_schedule ops = if ltb u16_max (length ops) then err collective_count else do
    checked ← check_operations 0 ops
    ok (record { operations = ops; hash = collective_hash ops })

  unfoldable pub verify_schedule : CollectiveSchedule → Result PlanError (Unit {0})
  verify_schedule s =
      if not (bytes_eq (collective_hash s.operations) s.hash)
      then err collective_hash_error
      else do rebuilt ← new_schedule s.operations; ok tt
