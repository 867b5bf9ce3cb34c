-- ===== src/Scheduler/Compile.antt =====
-- The compiler from a scheduled batch to a step plan: crates/glm-scheduler/src/compile.rs.
pub mod Routes
pub mod Admitted
use glmaxx.Base.{
  ℕ, ◌+◌, Bool, true, false, ◌&&◌, ◌||◌, not, List, [], ◌∷◌, ◌++◌, map, keep, any, all, ◌==◌, ltb,
  if◌then◌else◌, is_empty, length, Result, ok, err, or_fail, ◌>>=◌, checked_mul, u16_max, u32_max,
}
use glmaxx.Engine.Admit.{contains}
use glmaxx.Engine.Collective.{
  CollectiveKind, CollectiveOp, CollectiveSchedule, PlanError, new_schedule, tp_rank_mask,
  tp_reduce, dcp_packed_ckv, dcp_query_gather, dcp_candidate_exchange, dcp_partial_state_return,
  logits_argmax, logits_top_k, logits_mass,
}
use glmaxx.Engine.Graph.{
  StepMode, mode_eq, AttentionTransport, none_transport, prefill_ckv, prefill_query,
  decode_query_lse, GraphEntry,
}
use glmaxx.Engine.Step.{StepPlan, StepPlanRequest, build}
use glmaxx.Scheduler.Shape.{kind_mode, kind_depth}
use glmaxx.Scheduler.{SamplingCollective, greedy, top_k, mass, sampling_eq, ScheduledBatch}

pub record RouteCatalog : Type 0 where
  pub tp_route_id : ℕ
  pub dcp_ckv_route_id : ℕ
  pub dcp_query_route_id : ℕ
  pub dcp_candidate_route_id : ℕ
  pub dcp_partial_route_id : ℕ
  pub greedy_route_id : ℕ
  pub top_k_route_id : ℕ
  pub mass_route_id : ℕ
  pub packed_ckv_bytes_per_row : ℕ
  pub query_bytes_per_row : ℕ
  pub candidate_bytes_per_row : ℕ
  pub partial_state_bytes_per_row : ℕ
  pub tp_reduce_bytes_per_row : ℕ
  pub greedy_bytes_per_row : ℕ
  pub top_k_bytes_per_row : ℕ
  pub mass_bytes_per_row : ℕ

pub data CompileError : Type 0 where
  epoch_error catalog_error batch_error graph_error route_error sampling_error overflow :
      CompileError
  plan_error : PlanError → CompileError

abbrev pub routes_of : RouteCatalog → List ℕ
routes_of c =
    c.tp_route_id ∷ c.dcp_ckv_route_id ∷ c.dcp_query_route_id ∷ c.dcp_candidate_route_id
    ∷ c.dcp_partial_route_id ∷ c.greedy_route_id ∷ c.top_k_route_id ∷ c.mass_route_id ∷ []

abbrev pub payloads_of : RouteCatalog → List ℕ
payloads_of c =
    c.packed_ckv_bytes_per_row ∷ c.query_bytes_per_row ∷ c.candidate_bytes_per_row
    ∷ c.partial_state_bytes_per_row ∷ c.tp_reduce_bytes_per_row ∷ c.greedy_bytes_per_row
    ∷ c.top_k_bytes_per_row ∷ c.mass_bytes_per_row ∷ []

unfoldable pub validate_catalog : RouteCatalog → Result CompileError (Unit {0})
validate_catalog c =
    if contains (routes_of c) 0 || contains (payloads_of c) 0 then err catalog_error else ok tt

pub record StepPlanCompiler : Type 0 where
  pub epoch : ℕ
  pub routes : RouteCatalog

-- `StepPlanCompiler::new`.
unfoldable pub new_compiler : ℕ → RouteCatalog → Result CompileError StepPlanCompiler
new_compiler epoch routes = do
  nonzero ← if epoch == 0 then err epoch_error else ok (tt {0})
  valid ← validate_catalog routes
  ok (record { epoch = epoch; routes = routes })

pub record CompiledStep : Type 0 where
  pub plan : StepPlan
  pub schedule : CollectiveSchedule

unfoldable pub scaled : ℕ → ℕ → Result CompileError ℕ
scaled bytes_per_row rows = or_fail (checked_mul u32_max bytes_per_row rows) overflow

abbrev pub operation_at : ℕ → CollectiveKind → ℕ → ℕ → CollectiveOp
operation_at ordinal kind route payload = record {
  ordinal = ordinal;
  kind = kind;
  route_id = route;
  payload_bytes = payload;
  participant_mask = tp_rank_mask;
}

unfoldable pub push :
    List CollectiveOp → CollectiveKind → ℕ → ℕ → Result CompileError (List CollectiveOp)
push ops kind route payload =
    if ltb u16_max (length ops)
    then err overflow
    else ok (ops ++ (operation_at (length ops) kind route payload ∷ []))

-- A push of a payload that is scaled by the rows.
unfoldable pub push_scaled :
    List CollectiveOp → CollectiveKind → ℕ → ℕ → ℕ → Result CompileError (List CollectiveOp)
push_scaled ops kind route bytes rows = do payload ← scaled bytes rows; push ops kind route payload

-- The operations of the attention's transport.
unfoldable pub attention_operations :
    RouteCatalog → AttentionTransport → ℕ → Result CompileError (List CollectiveOp)
attention_operations c prefill_ckv rows =
    push_scaled [] dcp_packed_ckv c.dcp_ckv_route_id c.packed_ckv_bytes_per_row rows
attention_operations c prefill_query rows = do
  gathered ← push_scaled [] dcp_query_gather c.dcp_query_route_id c.query_bytes_per_row rows
  push_scaled gathered dcp_partial_state_return c.dcp_partial_route_id c.partial_state_bytes_per_row
      rows
attention_operations c decode_query_lse rows = do
  gathered ← push_scaled [] dcp_query_gather c.dcp_query_route_id c.query_bytes_per_row rows
  exchanged ←
      push_scaled gathered dcp_candidate_exchange c.dcp_candidate_route_id c.candidate_bytes_per_row
        rows
  push_scaled exchanged dcp_partial_state_return c.dcp_partial_route_id
      c.partial_state_bytes_per_row rows
attention_operations c none_transport rows = err graph_error

unfoldable pub sampling_kind : SamplingCollective → CollectiveKind
sampling_kind greedy = logits_argmax
sampling_kind top_k = logits_top_k
sampling_kind mass = logits_mass

unfoldable pub sampling_route : RouteCatalog → SamplingCollective → ℕ
sampling_route c greedy = c.greedy_route_id
sampling_route c top_k = c.top_k_route_id
sampling_route c mass = c.mass_route_id

unfoldable pub sampling_bytes : RouteCatalog → SamplingCollective → ℕ
sampling_bytes c greedy = c.greedy_bytes_per_row
sampling_bytes c top_k = c.top_k_bytes_per_row
sampling_bytes c mass = c.mass_bytes_per_row

-- The route of the sampling, none for a prefill.
unfoldable pub sampling_route_id : RouteCatalog → StepMode → SamplingCollective → ℕ
sampling_route_id c StepMode.prefill sampling = 0
sampling_route_id c _ sampling = sampling_route c sampling

unfoldable pub sampling_operations :
    RouteCatalog
    → StepMode
    → SamplingCollective
    → ℕ
    → List CollectiveOp
    → Result CompileError (List CollectiveOp)
sampling_operations c StepMode.prefill sampling rows ops = ok ops
sampling_operations c _ sampling rows ops =
    push_scaled ops (sampling_kind sampling) (sampling_route c sampling) (sampling_bytes c sampling)
      rows

unfoldable pub compile_operations :
    RouteCatalog
    → AttentionTransport
    → StepMode
    → SamplingCollective
    → ℕ
    → Result CompileError (List CollectiveOp)
compile_operations c transport mode sampling rows = do
  attention ← attention_operations c transport rows
  reduced ← push_scaled attention tp_reduce c.tp_route_id c.tp_reduce_bytes_per_row rows
  sampling_operations c mode sampling rows reduced

unfoldable pub dcp_route : RouteCatalog → AttentionTransport → Result CompileError ℕ
dcp_route c prefill_ckv = ok c.dcp_ckv_route_id
dcp_route c prefill_query = ok c.dcp_query_route_id
dcp_route c decode_query_lse = ok c.dcp_query_route_id
dcp_route c none_transport = err graph_error

unfoldable pub is_dcp : CollectiveKind → Bool
is_dcp dcp_packed_ckv = true
is_dcp dcp_query_gather = true
is_dcp dcp_candidate_exchange = true
is_dcp dcp_partial_state_return = true
is_dcp _ = false

abbrev pub op_kind : CollectiveOp → CollectiveKind
op_kind op = op.kind

unfoldable pub required_dcp_routes : List CollectiveOp → List ℕ
required_dcp_routes ops = map (λ op. op.route_id) (keep (λ op. is_dcp (op_kind op)) ops)

unfoldable pub routes_compatible : RouteCatalog → GraphEntry → List CollectiveOp → ℕ → Bool
routes_compatible c entry ops sampling_route' =
    contains entry.compatible_tp_routes c.tp_route_id
    && not
        (any (λ route. not (contains entry.compatible_dcp_routes route)) (required_dcp_routes ops))
    && (sampling_route' == 0 || contains entry.compatible_sampling_routes sampling_route')

-- A plan's error passed on.
abbrev pub from_plan : {A : Type 0} → Result PlanError A → Result CompileError A
from_plan (ok a) = ok a
from_plan (err e) = err (plan_error e)

unfoldable pub plan_request :
    StepPlanCompiler → ScheduledBatch → GraphEntry → ℕ → ℕ → StepPlanRequest
plan_request c batch entry generation dcp_route_id = record {
  epoch = c.epoch;
  step_id = batch.step_id;
  mode = kind_mode batch.kind;
  active_sequences = length batch.rows;
  sequence_bucket = entry.key.sequence_bucket;
  scheduled_prompt_tokens =
      if mode_eq (kind_mode batch.kind) StepMode.prefill then batch.query_rows else 0;
  query_rows = batch.query_rows;
  verifier_row_bucket = entry.key.verifier_row_bucket;
  mtp_depth = kind_depth batch.kind;
  graph_id = entry.graph_id;
  tp_route_id = c.routes.tp_route_id;
  dcp_route_id = dcp_route_id;
  attention_transport = entry.key.attention_transport;
  sampling_route_id = sampling_route_id c.routes (kind_mode batch.kind) batch.sampling;
  sequence_table_generation = generation;
}

module _ (sha256 : List ℕ → List ℕ) where
  -- The schedule and the plan of operations that were compiled.
  unfoldable pub emit_step :
      StepPlanCompiler
      → ScheduledBatch
      → GraphEntry
      → ℕ
      → ℕ
      → List CollectiveOp
      → Result CompileError CompiledStep
  emit_step c batch entry generation dcp_route_id ops = do
    schedule ← from_plan (new_schedule sha256 ops)
    plan ← from_plan (build sha256 (plan_request c batch entry generation dcp_route_id) schedule)
    ok (record { plan = plan; schedule = schedule })

  unfoldable pub route_step :
      StepPlanCompiler
      → ScheduledBatch
      → GraphEntry
      → ℕ
      → ℕ
      → List CollectiveOp
      → Result CompileError CompiledStep
  route_step c batch entry generation dcp_route_id ops =
      if not (
        routes_compatible c.routes entry ops
          (sampling_route_id c.routes (kind_mode batch.kind) batch.sampling))
      then err route_error
      else if ltb u16_max (length batch.rows)
      then err overflow
      else emit_step c batch entry generation dcp_route_id ops

  unfoldable pub compile_checked :
      StepPlanCompiler → ScheduledBatch → GraphEntry → ℕ → Result CompileError CompiledStep
  compile_checked c batch entry generation = do
    ops ←
        compile_operations c.routes entry.key.attention_transport (kind_mode batch.kind)
          batch.sampling batch.query_rows
    dcp_route_id ← dcp_route c.routes entry.key.attention_transport
    route_step c batch entry generation dcp_route_id ops

  -- `StepPlanCompiler::compile`.
  unfoldable pub compile :
      StepPlanCompiler → ScheduledBatch → GraphEntry → ℕ → Result CompileError CompiledStep
  compile c batch entry generation =
      if generation == 0 || is_empty batch.rows || not (batch.graph_id == entry.graph_id)
      then err batch_error
      else if not (mode_eq entry.key.mode (kind_mode batch.kind))
          || not (entry.key.mtp_depth == kind_depth batch.kind)
      then err graph_error
      else if mode_eq (kind_mode batch.kind) StepMode.prefill
          && not (sampling_eq batch.sampling greedy)
      then err sampling_error
      else compile_checked c batch entry generation
