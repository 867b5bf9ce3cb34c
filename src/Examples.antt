-- ===== src/Examples.antt =====
-- Tests of the scheduler on a small deployment, and the instances of the theorems on it.
mod Plans
mod Pages
mod Runs
mod Table
mod Tiers
use glmaxx.Base.{
  ℕ, ◌%◌, ◌≡◌, refl, true, List, [], ◌∷◌, none, some, ok, length, arith, All, ◌||◌, subst,
}
use glmaxx.Base.Maps.{find, insert, adjust}
use glmaxx.Base.Sorting.{place, sort_by}
use glmaxx.Engine.Graph.{
  StepMode, mode_code, mode_eq, AttentionTransport, transport_code, transport_eq, GraphEntry,
  GraphProfile, profile_schema, step_plan_abi_name, kernel_abi_name, key_eq, ascending_from,
  strictly_sorted_nonzero, bounds_valid, routes_valid, is_prefill_transport, decoding_valid,
  mode_valid, entry_valid, validate_from, validate_entries, to_le_bytes, u16_list_bytes,
  hash_u16_list, entry_bytes, entries_bytes, bytes_eq, hash_entries, new_profile, verify_profile,
}
use glmaxx.Engine.Graph.Validity.{verify_profile-new_profile}
use glmaxx.Scheduler.{
  waiting_prefill, SamplingCollective, sampling_eq, TenantConfig, RequestSpec, RequestState,
  is_waiting, is_decoding, BatchKind, ScheduledBatch, SchedulerConfig, Request, Scheduler,
}
use glmaxx.Scheduler.Admission.{
  config_valid, tenant_valid, add_tenants, new, spec_valid, is_active_of, active_requests,
  is_prefill_entry, is_decode_entry, is_verify_entry, has_graph_for_request, entering,
  admit_with_prefix, add_cancellation, cancel, cancelled_state, cancel_request, cancel_all,
  apply_cancellations, apply_cancellations_at_boundary,
}
use glmaxx.Scheduler.Order.{
  can_verify, deepest, effective_decode_depth, in_class, tenant_share, precedes, ordered_requests,
}
use glmaxx.Scheduler.Shape.{
  kind_mode, kind_depth, fits, smaller, minimum, best_graph, checked_sum, batch_query_rows,
  shape_batch, finalize_batch,
}
use glmaxx.Scheduler.Shape.Choice.{Chosen, best_graph-Chosen}
use glmaxx.Scheduler.Batches.{
  prefill_rows, entry_rows, improves, best_prefill, build_prefill_batch, shrink_batch,
  build_class_batch, build_decode_batch, has_state, chooses_prefill, build_batch, launch,
  select_batch, next_batch,
}
use glmaxx.Scheduler.Completion.{
  counts_valid, rows_distinct, by_row, prefill_update, maximum_commit, commit_update,
  completion_or_one, decode_update, row_update, planned_units, has_slot, put_units, plan_success,
  plan_row, plan_rows, write_request, write_requests, write_tenants, burst_after, plan_batch,
  apply_plan, complete_batch_internal, complete_batch_with_commits,
}
use glmaxx.Scheduler.Construction.{new-IsValid}
use glmaxx.Scheduler.Invariant.{IsValid}
use glmaxx.Scheduler.History.{
  admits, cancels, selects, commits, Call, step, run, IsWordCall, run-new-IsValid,
}
use glmaxx.Scheduler.Lifetime.{Kept, run-Kept}
use glmaxx.Scheduler.Quota.{InQuota, run-InQuota}
use glmaxx.Scheduler.Selection.{Selects, next_batch-Selects, PrefillDue, next_batch_prefill}

-- A checksum in the place of SHA-256.
abbrev pub digest : List ℕ → List ℕ
digest bytes = (length bytes % 256) ∷ []

abbrev pub entry_of : ℕ → StepMode → ℕ → ℕ → ℕ → AttentionTransport → List ℕ → GraphEntry
entry_of id mode rows depth prompt transport sampling = record {
  graph_id = id;
  key = record {
    mode = mode;
    sequence_bucket = 4;
    verifier_row_bucket = rows;
    mtp_depth = depth;
    attention_transport = transport;
  };
  maximum_active_sequences = 4;
  maximum_prompt_tokens = prompt;
  maximum_query_rows = 64;
  compatible_tp_routes = 1 ∷ [];
  compatible_dcp_routes = 2 ∷ 3 ∷ 4 ∷ 5 ∷ [];
  compatible_sampling_routes = sampling;
  maximum_scratch_bytes = 1024;
  argument_bytes = 256;
  graph_object_bytes = 4096;
  resident_module_bytes = 8192;
  admission_slo_class = 1;
}

abbrev pub prefill_entry : GraphEntry
prefill_entry = entry_of 10 StepMode.prefill 0 0 64 AttentionTransport.prefill_ckv []

abbrev pub decode_entry : GraphEntry
decode_entry = entry_of 20 StepMode.decode 64 0 0 AttentionTransport.decode_query_lse (6 ∷ [])

abbrev pub verify_entry : GraphEntry
verify_entry = entry_of 30 StepMode.verify 64 2 0 AttentionTransport.decode_query_lse (6 ∷ [])

abbrev pub captured_entries : List GraphEntry
captured_entries = prefill_entry ∷ decode_entry ∷ verify_entry ∷ []

abbrev pub captured_profile : GraphProfile
captured_profile = record {
  schema = profile_schema;
  step_plan_abi = step_plan_abi_name;
  kernel_abi = kernel_abi_name;
  entries = captured_entries;
  profile_hash = hash_entries digest captured_entries;
}

pub new_profile_test : new_profile digest captured_entries ≡ ok captured_profile
unfolding new_profile sort_by place validate_entries validate_from entry_valid bounds_valid
    routes_valid mode_valid decoding_valid is_prefill_transport strictly_sorted_nonzero
    ascending_from key_eq mode_eq mode_code transport_eq transport_code
new_profile_test = refl

abbrev pub limits : SchedulerConfig
limits = record {
  maximum_batch_sequences = 4;
  maximum_prefill_tokens = 32;
  maximum_decode_burst = 2;
}

abbrev pub tenant_configs : List TenantConfig
tenant_configs =
    record { tenant = 1; weight = 1; maximum_active_requests = 2 }
    ∷ record { tenant = 2; weight = 3; maximum_active_requests = 1 }
    ∷ []

abbrev pub started : Scheduler
started = record {
  config = limits;
  profile = captured_profile;
  tenants =
      insert 2
        (record {
          config = record { tenant = 2; weight = 3; maximum_active_requests = 1 };
          service_units = 0;
        })
        (insert 1
          (record {
            config = record { tenant = 1; weight = 1; maximum_active_requests = 2 };
            service_units = 0;
          })
          []);
  requests = [];
  cancellations = [];
  inflight = none;
  next_step_id = 1;
  decode_burst = 0;
}

new_test : new digest limits captured_profile tenant_configs ≡ ok started
unfolding new config_valid tenant_valid add_tenants verify_profile bytes_eq hash_entries
    entries_bytes entry_bytes hash_u16_list u16_list_bytes to_le_bytes validate_entries
    validate_from entry_valid bounds_valid routes_valid mode_valid decoding_valid insert
    is_prefill_transport strictly_sorted_nonzero ascending_from key_eq mode_eq mode_code
    transport_eq transport_code find
new_test = refl

abbrev spec_of : ℕ → ℕ → ℕ → ℕ → RequestSpec
spec_of id tenant prompt depth = record {
  id = id;
  tenant = tenant;
  prompt_tokens = prompt;
  maximum_new_tokens = 8;
  mtp_depth = depth;
  sampling = SamplingCollective.greedy;
}

abbrev pub opening : List Call
opening = admits (spec_of 7 1 10 2) 0 ∷ admits (spec_of 8 2 5 0) 0 ∷ []

-- After the admissions.
abbrev request_seven : Request
request_seven = record {
  spec = spec_of 7 1 10 2;
  state = waiting_prefill;
  prompt_done = 0;
  generated = 0;
}

abbrev request_eight : Request
request_eight = record {
  spec = spec_of 8 2 5 0;
  state = waiting_prefill;
  prompt_done = 0;
  generated = 0;
}

abbrev pub opened : Scheduler
opened = record started { requests = (7, request_seven) ∷ (8, request_eight) ∷ [] }

opening_test : run started opening ≡ opened
unfolding run step find admit_with_prefix spec_valid insert active_requests has_graph_for_request
    is_prefill_entry mode_eq mode_code is_decode_entry is_verify_entry is_active_of entering
opening_test = refl

opening_words : All IsWordCall opening
opening_words = (
  record { prompt_word = omega arith; new_word = omega arith },
  (record { prompt_word = omega arith; new_word = omega arith }, tt),
)

pub opened-IsValid : IsValid opened
opened-IsValid = subst IsValid opening_test (
    run-new-IsValid digest limits captured_profile tenant_configs started opening (omega arith)
      new_test opening_words)

-- A prefill of both prompts, the tenant of greater weight first.
abbrev pub first_batch : ScheduledBatch
first_batch = record {
  step_id = 1;
  kind = BatchKind.prefill;
  graph_id = 10;
  rows =
      record { request_id = 7; prompt_tokens = 10 }
      ∷ record { request_id = 8; prompt_tokens = 5 }
      ∷ [];
  query_rows = 15;
  sampling = SamplingCollective.greedy;
}

abbrev pub launched_first : Scheduler
launched_first = record opened { next_step_id = 2; inflight = some first_batch }

pub first_batch_test : next_batch opened ≡ (launched_first, ok (some first_batch))
unfolding next_batch apply_cancellations cancel_all select_batch has_state chooses_prefill
    build_batch launch build_prefill_batch best_prefill entry_rows prefill_rows improves
    ordered_requests sort_by place precedes tenant_share in_class finalize_batch shape_batch
    batch_query_rows checked_sum best_graph fits kind_mode kind_depth minimum smaller mode_eq
    mode_code is_prefill_entry find insert
first_batch_test = refl

abbrev serving : List Call
serving =
    selects
    ∷ commits true []
    ∷ selects
    ∷ cancels 8
    ∷ commits true ((8, 1) ∷ [])
    ∷ selects
    ∷ commits true ((7, 2) ∷ [])
    ∷ []

serving_words : All IsWordCall serving
serving_words = (tt, (tt, (tt, (tt, (tt, (tt, (tt, tt)))))))

abbrev served_seven : Request
served_seven = record {
  spec = spec_of 7 1 10 2;
  state = RequestState.decoding;
  prompt_done = 10;
  generated = 2;
}

served_test : find 7 (run opened serving).requests ≡ some served_seven
unfolding next_batch apply_cancellations cancel_all select_batch has_state chooses_prefill
    build_batch launch build_prefill_batch best_prefill entry_rows prefill_rows improves
    ordered_requests sort_by place precedes tenant_share in_class finalize_batch shape_batch
    batch_query_rows checked_sum best_graph fits kind_mode kind_depth minimum smaller mode_eq
    mode_code is_prefill_entry find insert build_decode_batch build_class_batch shrink_batch
    effective_decode_depth deepest can_verify sampling_eq adjust cancel_request cancelled_state
    cancel add_cancellation apply_cancellations_at_boundary complete_batch_with_commits
    complete_batch_internal plan_batch counts_valid rows_distinct by_row prefill_update
    maximum_commit commit_update completion_or_one decode_update row_update planned_units has_slot
    put_units plan_success plan_row plan_rows write_request write_requests write_tenants burst_after
    apply_plan run step
served_test = refl

opened_seven : find 7 opened.requests ≡ some request_seven
unfolding find
opened_seven = refl

run-new-IsValid_example : IsValid (run started opening)
run-new-IsValid_example =
    run-new-IsValid digest limits captured_profile tenant_configs started opening (omega arith)
      new_test opening_words

run-Kept_example : Kept 7 request_seven (run opened serving)
run-Kept_example = run-Kept opened serving 7 request_seven serving_words opened-IsValid opened_seven

started-InQuota : InQuota started
unfolding active_requests
started-InQuota k t e = omega arith

started-IsValid : IsValid started
started-IsValid =
    new-IsValid digest limits captured_profile tenant_configs started (omega arith) new_test

run-InQuota_example : InQuota (run started opening)
run-InQuota_example = run-InQuota started opening opening_words started-IsValid started-InQuota

opened_work :
    (has_state (apply_cancellations opened) is_waiting
      || has_state (apply_cancellations opened) is_decoding)
    ≡ true
unfolding has_state apply_cancellations cancel_all
opened_work = refl

next_batch-Selects_example : Selects (apply_cancellations opened) (next_batch opened)
next_batch-Selects_example = next_batch-Selects opened opened-IsValid refl (omega arith) opened_work

-- A burst of two decodes is over.
abbrev burst : Scheduler
burst = record opened { decode_burst = 2 }

burst_due : PrefillDue (apply_cancellations burst)
unfolding has_state apply_cancellations cancel_all
burst_due = (refl, omega arith)

burst_test :
    next_batch burst
    ≡ (record burst { next_step_id = 2; inflight = some first_batch }, ok (some first_batch))
unfolding next_batch apply_cancellations cancel_all select_batch has_state chooses_prefill
    build_batch launch build_prefill_batch best_prefill entry_rows prefill_rows improves
    ordered_requests sort_by place precedes tenant_share in_class finalize_batch shape_batch
    batch_query_rows checked_sum best_graph fits kind_mode kind_depth minimum smaller mode_eq
    mode_code is_prefill_entry find insert
burst_test = refl

next_batch_prefill_example : first_batch.kind ≡ BatchKind.prefill
next_batch_prefill_example = next_batch_prefill burst _ first_batch burst_due burst_test

best_graph-Chosen_example :
    Chosen captured_profile
      (BatchKind.verify 2)
      3
      9
      (best_graph captured_profile (BatchKind.verify 2) 3 9)
best_graph-Chosen_example = best_graph-Chosen captured_profile (BatchKind.verify 2) 3 9

verify_profile-new_profile_example : verify_profile digest captured_profile ≡ ok tt
verify_profile-new_profile_example =
    verify_profile-new_profile digest captured_entries captured_profile new_profile_test
