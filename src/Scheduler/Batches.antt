-- ===== src/Scheduler/Batches.antt =====
-- Selecting a batch: crates/glm-scheduler/src/lib.rs, `next_batch`, `build_prefill_batch` and
-- `build_decode_batch`.
pub mod Prefill
pub mod Equations
pub mod Best
pub mod Optimal
pub mod Decode
pub mod Preserve
pub mod Progress
pub mod Decodable
use glmaxx.Base.{
  ℕ, zero, suc, ◌-◌, min, Bool, true, ◌&&◌, ◌||◌, not, List, [], ◌∷◌, map, Option, none, some, ltb,
  leb, ◌==◌, if◌then◌else◌, any, take, length, is_some, Result, ok, err, ◌>>=◌,
}
use glmaxx.Base.Maps.{values}
use glmaxx.Engine.Graph.{GraphEntry}
use glmaxx.Scheduler.Admission.{is_prefill_entry, apply_cancellations}
use glmaxx.Scheduler.Order.{effective_decode_depth, ordered_requests}
use glmaxx.Scheduler.Shape.{checked_sum, finalize_batch}
use glmaxx.Scheduler.{
  SamplingCollective, greedy, Request, RequestState, is_waiting, is_decoding, BatchKind, BatchRow,
  ScheduledBatch, Scheduler, SchedulerError, uncaptured_shape, no_runnable, inflight_error, Outcome,
}

-- The rows that one prefill entry takes from the eligible requests, in order, within the tokens left.
unfoldable pub prefill_rows : ℕ → List Request → List BatchRow
prefill_rows available [] = []
prefill_rows available (r ∷ rs) =
    let tokens = min (r.spec.prompt_tokens - r.prompt_done) available in
    let rest = prefill_rows (available - tokens) rs in
    if available == 0
    then []
    else if tokens == 0
    then rest
    else (record { request_id = r.spec.id; prompt_tokens = tokens }) ∷ rest

unfoldable pub entry_rows : Scheduler → List Request → GraphEntry → List BatchRow
entry_rows s eligible e =
    prefill_rows
      (min (min s.config.maximum_prefill_tokens e.maximum_prompt_tokens) e.maximum_query_rows)
      (take (min s.config.maximum_batch_sequences e.maximum_active_sequences) eligible)

-- More tokens than the best so far, or as many in more rows.
unfoldable pub improves : ℕ → List BatchRow → Option (ℕ × List BatchRow) → Bool
improves query_rows rows none = true
improves query_rows rows (some (best_query_rows, best_rows)) =
    ltb best_query_rows query_rows
    || (best_query_rows == query_rows && ltb (length best_rows) (length rows))

unfoldable pub best_prefill :
    Scheduler
    → List Request
    → Option (ℕ × List BatchRow)
    → List GraphEntry
    → Result SchedulerError (Option (ℕ × List BatchRow))
best_prefill s eligible best [] = ok best
best_prefill s eligible best (e ∷ es) =
    if is_prefill_entry e
    then (do
      query_rows ← checked_sum 0 (entry_rows s eligible e)
      best_prefill s eligible
          (if not (query_rows == 0) && improves query_rows (entry_rows s eligible e) best
            then some (query_rows, entry_rows s eligible e)
            else best)
          es)
    else best_prefill s eligible best es

unfoldable pub build_prefill_batch : Scheduler → Outcome ScheduledBatch
build_prefill_batch s =
    elim (best_prefill s (ordered_requests s is_waiting none) none s.profile.entries) [
      | err e ↦ (s, err e)
      | ok none ↦ (s, err uncaptured_shape)
      | ok (some (_, rows)) ↦ finalize_batch s BatchKind.prefill greedy rows
    ]

abbrev pub decode_row : Request → BatchRow
decode_row r = record { request_id = r.spec.id; prompt_tokens = 0 }

-- The loop of `build_decode_batch`: the first `n` of the eligible requests, then one fewer.
unfoldable pub shrink_batch :
    Scheduler → BatchKind → SamplingCollective → List Request → ℕ → Outcome ScheduledBatch
shrink_batch s kind sampling eligible zero = (s, err uncaptured_shape)
shrink_batch s kind sampling eligible (suc n) =
    let (s', result) = finalize_batch s kind sampling (map decode_row (take (suc n) eligible)) in
    elim result [ ok batch ↦ (s', ok batch) | err e ↦ shrink_batch s kind sampling eligible n ]

abbrev pub decode_kind : ℕ → BatchKind
decode_kind depth = if depth == 0 then BatchKind.decode else BatchKind.verify depth

-- The batch of the first request's class.
unfoldable pub build_class_batch : Scheduler → Request → Outcome ScheduledBatch
build_class_batch s first = elim (effective_decode_depth s.profile first) [
  | err e ↦ (s, err e)
  | ok depth ↦
      let eligible =
        take s.config.maximum_batch_sequences
          (ordered_requests s is_decoding (some (depth, first.spec.sampling))) in
      shrink_batch s (decode_kind depth) first.spec.sampling eligible (length eligible)
]

unfoldable pub build_decode_batch : Scheduler → Outcome ScheduledBatch
build_decode_batch s = elim (ordered_requests s is_decoding none) [
  | [] ↦ (s, err no_runnable)
  | first ∷ _ ↦ build_class_batch s first
]

unfoldable pub has_state : Scheduler → (RequestState → Bool) → Bool
has_state s in_state = any (λ r. in_state r.state) (values s.requests)

unfoldable pub chooses_prefill : Scheduler → Bool
chooses_prefill s =
    has_state s is_waiting
    && (not (has_state s is_decoding) || leb s.config.maximum_decode_burst s.decode_burst)

unfoldable pub build_batch : Scheduler → Outcome ScheduledBatch
build_batch s = if chooses_prefill s then build_prefill_batch s else build_decode_batch s

-- The state and result of a build, with the batch put in flight.
unfoldable pub launch : Outcome ScheduledBatch → Outcome (Option ScheduledBatch)
launch (s, ok batch) = (record s { inflight = some batch }, ok (some batch))
launch (s, err e) = (s, err e)

-- The selection after cancellations were applied.
unfoldable pub select_batch : Scheduler → Outcome (Option ScheduledBatch)
select_batch s =
    if not (has_state s is_waiting) && not (has_state s is_decoding)
    then (s, ok none)
    else launch (build_batch s)

unfoldable pub next_batch : Scheduler → Outcome (Option ScheduledBatch)
next_batch s =
    if is_some s.inflight then (s, err inflight_error) else select_batch (apply_cancellations s)
