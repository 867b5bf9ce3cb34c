-- ===== src/Engine/Admit.antt =====
-- The graph that a step plan runs: `GraphProfile::admit` of crates/glm-engine/src/graph.rs.
use glmaxx.Base.{
  ℕ, Bool, ◌&&◌, ◌||◌, List, ◌==◌, leb, any, if◌then◌else◌, find_first, Result, ok, err, or_fail,
  ◌>>=◌,
}
use glmaxx.Engine.Graph.{
  StepMode, mode_eq, GraphKey, GraphEntry, GraphProfile, GraphProfileError, key_eq, verify_profile,
  missing_graph, incompatible, cache_only_has_no_graph,
}
use glmaxx.Engine.Step.{StepPlan}

unfoldable pub contains : List ℕ → ℕ → Bool
contains values x = any (λ value. value == x) values

abbrev pub plan_key : StepPlan → GraphKey
plan_key p = record {
  mode = p.mode;
  sequence_bucket = p.sequence_bucket;
  verifier_row_bucket = p.verifier_row_bucket;
  mtp_depth = p.mtp_depth;
  attention_transport = p.attention_transport;
}

-- The guards on the entry that the plan names.
unfoldable pub compatible : GraphEntry → StepPlan → Bool
compatible e p =
    key_eq e.key (plan_key p)
    && leb p.active_sequences e.maximum_active_sequences
    && leb p.scheduled_prompt_tokens e.maximum_prompt_tokens
    && leb p.query_rows e.maximum_query_rows
    && contains e.compatible_tp_routes p.tp_route_id
    && contains e.compatible_dcp_routes p.dcp_route_id
    && (p.sampling_route_id == 0 || contains e.compatible_sampling_routes p.sampling_route_id)

unfoldable pub check_compatible : GraphEntry → StepPlan → Result GraphProfileError GraphEntry
check_compatible e p = if compatible e p then ok e else err incompatible

-- The entry of the plan's identifier, when the plan is compatible with it.
unfoldable pub find_compatible : GraphProfile → StepPlan → Result GraphProfileError GraphEntry
find_compatible profile p = do
  entry ← or_fail (find_first (λ e. e.graph_id == p.graph_id) profile.entries) missing_graph
  check_compatible entry p

-- `GraphProfile::admit`.
unfoldable pub admit_plan :
    (List ℕ → List ℕ) → GraphProfile → StepPlan → Result GraphProfileError GraphEntry
admit_plan sha256 profile p = do verified ← verify_profile sha256 profile; admit_verified profile p
  where
    admit_verified : GraphProfile → StepPlan → Result GraphProfileError GraphEntry
    admit_verified profile' p' =
        if mode_eq p'.mode StepMode.cache_only
        then err cache_only_has_no_graph
        else find_compatible profile' p'
