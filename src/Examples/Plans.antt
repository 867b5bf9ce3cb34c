-- ===== src/Examples/Plans.antt =====
-- The theorems on step plans at the batch of the small deployment.
use glmaxx.Base.{some, ◌≡◌, refl, true, [], ◌∷◌, ok, Memᴰ, length}
use glmaxx.Engine.Admit.{contains, admit_plan}
use glmaxx.Engine.Collective.{
  CollectiveSchedule, collective_hash, new_schedule, check_operations, operation_valid,
  verify_schedule, operations_bytes, operation_bytes, kind_code, dcp_packed_ckv, tp_reduce,
}
use glmaxx.Engine.Graph.{
  GraphEntry, mode_code, mode_eq, transport_code, is_prefill_transport, to_le_bytes, bytes_eq,
  verify_profile,
}
use glmaxx.Engine.Graph.Validity.{verify_profile-new_profile}
use glmaxx.Engine.Step.Verified.{verify_plan-build}
use glmaxx.Engine.Step.Bytes.{length-canonical_record}
use glmaxx.Engine.Step.{
  StepPlan, canonical_record, StepPlanRequest, request, with_hashes, zero_hash, hashed,
  compute_hash, canonical_hash_input, validate_request, validate_mode, shape_valid,
  is_sequence_bucket, prefill_valid, build, verify_plan,
}
use glmaxx.Examples.{
  opened, launched_first, first_batch_test, digest, prefill_entry, captured_entries,
  captured_profile, first_batch, new_profile_test,
}
use glmaxx.Scheduler.Dispatch.{next_batch-compile, next_batch-graph_entry}
use glmaxx.Scheduler.Shape.Fitting.{HoldsBatch, needed_rows}
use glmaxx.Scheduler.Readers.{graph_entry}
use glmaxx.Scheduler.Compile.Admitted.{admit_plan-compile}
use glmaxx.Scheduler.Compile.{
  RouteCatalog, StepPlanCompiler, CompiledStep, scaled, push, push_scaled, attention_operations,
  sampling_operations, compile_operations, dcp_route, is_dcp, required_dcp_routes,
  routes_compatible, sampling_route_id, plan_request, emit_step, route_step, compile_checked,
  compile, operation_at,
}
use glmaxx.Scheduler.Shape.{fits, kind_mode, kind_depth}
use glmaxx.Scheduler.{sampling_eq}

abbrev catalog : RouteCatalog
catalog = record {
  tp_route_id = 1;
  dcp_ckv_route_id = 2;
  dcp_query_route_id = 3;
  dcp_candidate_route_id = 4;
  dcp_partial_route_id = 5;
  greedy_route_id = 6;
  top_k_route_id = 7;
  mass_route_id = 8;
  packed_ckv_bytes_per_row = 368;
  query_bytes_per_row = 64;
  candidate_bytes_per_row = 32;
  partial_state_bytes_per_row = 16;
  tp_reduce_bytes_per_row = 128;
  greedy_bytes_per_row = 8;
  top_k_bytes_per_row = 64;
  mass_bytes_per_row = 64;
}

abbrev compiler : StepPlanCompiler
compiler = record { epoch = 1; routes = catalog }

abbrev first_schedule : CollectiveSchedule
first_schedule =
    let ops = operation_at 0 dcp_packed_ckv 2 5520 ∷ operation_at 1 tp_reduce 1 1920 ∷ [] in
    record { operations = ops; hash = collective_hash digest ops }

abbrev first_request : StepPlanRequest
first_request = plan_request compiler first_batch prefill_entry 1 2

abbrev first_step : CompiledStep
first_step = record {
  plan = hashed digest (with_hashes first_request first_schedule.hash zero_hash);
  schedule = first_schedule;
}

build_test : build digest first_request first_schedule ≡ ok first_step.plan
unfolding validate_request validate_mode shape_valid is_sequence_bucket prefill_valid
    is_prefill_transport plan_request kind_mode kind_depth sampling_route_id mode_eq mode_code build
    verify_schedule bytes_eq collective_hash to_le_bytes operations_bytes operation_bytes kind_code
    new_schedule check_operations operation_valid
build_test = refl

compile_test : compile digest compiler first_batch prefill_entry 1 ≡ ok first_step
unfolding validate_request validate_mode shape_valid is_sequence_bucket prefill_valid
    is_prefill_transport plan_request kind_mode kind_depth sampling_route_id mode_eq mode_code build
    verify_schedule bytes_eq collective_hash to_le_bytes operations_bytes operation_bytes kind_code
    new_schedule check_operations operation_valid compile compile_checked compile_operations
    attention_operations sampling_operations push_scaled scaled push dcp_route route_step
    routes_compatible required_dcp_routes contains is_dcp emit_step sampling_eq hashed with_hashes
    compute_hash canonical_hash_input transport_code
compile_test = refl

first_fits :
    fits first_batch.kind (length first_batch.rows) first_batch.query_rows prefill_entry ≡ true
unfolding fits kind_mode kind_depth mode_eq mode_code
first_fits = refl

captured-verified : verify_profile digest captured_profile ≡ ok tt
captured-verified =
    verify_profile-new_profile digest captured_entries captured_profile new_profile_test

admit_plan-compile_example :
    (verify_plan digest first_step.plan first_step.schedule ≡ ok tt)
    × (admit_plan digest captured_profile first_step.plan ≡ ok prefill_entry)
admit_plan-compile_example =
    admit_plan-compile digest compiler first_batch prefill_entry 1 first_step captured_profile
      captured-verified (Memᴰ.head refl) first_fits compile_test

verify_plan-build_example :
    (verify_plan digest first_step.plan first_schedule ≡ ok tt)
    × (request first_step.plan ≡ first_request)
verify_plan-build_example =
    verify_plan-build digest first_request first_schedule first_step.plan build_test

first_entry : graph_entry opened first_batch.graph_id ≡ some prefill_entry
unfolding graph_entry
first_entry = refl

next_batch-compile_example :
    (verify_plan digest first_step.plan first_step.schedule ≡ ok tt)
    × (admit_plan digest opened.profile first_step.plan ≡ ok prefill_entry)
next_batch-compile_example =
    next_batch-compile digest opened launched_first first_batch prefill_entry compiler 1 first_step
      captured-verified first_batch_test first_entry compile_test

next_batch-graph_entry_example :
    (g : GraphEntry) × (graph_entry opened first_batch.graph_id ≡ some g)
    × Memᴰ g opened.profile.entries
    × HoldsBatch first_batch.kind
        (length first_batch.rows)
        (needed_rows first_batch.kind first_batch.rows)
        g
    × (first_batch.query_rows ≡ needed_rows first_batch.kind first_batch.rows)
next_batch-graph_entry_example =
    next_batch-graph_entry digest opened launched_first first_batch captured-verified
      first_batch_test

-- A schedule's hash of thirty-two bytes.
abbrev padded_plan : StepPlan
padded_plan = hashed (λ bytes. zero_hash) (with_hashes first_request zero_hash zero_hash)

length-canonical_record_example :
    (length (canonical_hash_input padded_plan) ≡ 85) × (length (canonical_record padded_plan) ≡ 117)
length-canonical_record_example =
    length-canonical_record padded_plan (unfold hashed with_hashes to_le_bytes in refl)
      (unfold hashed compute_hash to_le_bytes in refl)
