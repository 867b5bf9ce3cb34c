-- ===== src/Examples/Runs.antt =====
-- The theorems on the rows of a batch and on its failure at the small deployment.
use glmaxx.Base.{◌≤◌, ◌≡◌, refl, ok, Memᴰ, subst, ap}
use glmaxx.Base.Maps.{find, insert}
use glmaxx.Base.Sorting.{place, sort_by}
use glmaxx.Engine.Graph.{mode_eq, mode_code}
use glmaxx.Examples.{
  opened, opened-IsValid, launched_first, first_batch, first_batch_test, prefill_entry,
}
use glmaxx.Scheduler.Admission.{is_prefill_entry}
use glmaxx.Scheduler.Batches.Optimal.{entry_tokens, build_prefill_batch_most}
use glmaxx.Scheduler.Batches.Preserve.{next_batch-IsValid}
use glmaxx.Scheduler.Batches.{build_prefill_batch, best_prefill, entry_rows, prefill_rows, improves}
use glmaxx.Scheduler.Completion.Failure.{FailsBatch, complete_batch-FailsBatch}
use glmaxx.Scheduler.Invariant.{IsValid}
use glmaxx.Scheduler.Order.{ordered_requests, precedes, tenant_share, in_class}
use glmaxx.Scheduler.Shape.{
  finalize_batch, shape_batch, batch_query_rows, checked_sum, best_graph, fits, kind_mode,
  kind_depth, minimum, smaller,
}

prefill_test : build_prefill_batch opened ≡ (record opened { next_step_id = 2 }, ok first_batch)
unfolding build_prefill_batch best_prefill entry_rows prefill_rows improves ordered_requests sort_by
    place precedes tenant_share in_class finalize_batch shape_batch batch_query_rows checked_sum
    best_graph fits kind_mode kind_depth minimum smaller mode_eq mode_code is_prefill_entry find
    insert
prefill_test = refl

build_prefill_batch_most_example : entry_tokens opened prefill_entry ≤ first_batch.query_rows
build_prefill_batch_most_example =
    build_prefill_batch_most opened (record opened { next_step_id = 2 }) first_batch prefill_entry
      opened-IsValid prefill_test (Memᴰ.head refl)
      (unfold is_prefill_entry mode_eq mode_code in refl)

launched-IsValid : IsValid launched_first
launched-IsValid =
    subst IsValid (ap (λ o. o.0) first_batch_test) (next_batch-IsValid opened opened-IsValid)

complete_batch-FailsBatch_example : FailsBatch launched_first first_batch
complete_batch-FailsBatch_example =
    complete_batch-FailsBatch launched_first first_batch launched-IsValid refl
