-- ===== src/Scheduler/Shape.antt =====
-- A batch and the captured graph that runs it: crates/glm-scheduler/src/lib.rs, `finalize_batch` and
-- `best_graph`.
pub mod Choice
pub mod Fitting
use glmaxx.Base.{
  ℕ, ◌+◌, Bool, ◌&&◌, ◌||◌, not, List, [], ◌∷◌, Option, none, some, ltb, leb, ◌==◌, if◌then◌else◌,
  keep, length, is_empty, Result, ok, err, or_fail, ◌>>=◌, checked_add, checked_mul, u16_max,
  u32_max, u64_max,
}
use glmaxx.Engine.Graph.{GraphProfile, GraphEntry, StepMode, mode_eq}
use glmaxx.Scheduler.{
  SamplingCollective, BatchKind, BatchRow, ScheduledBatch, Scheduler, SchedulerError,
  uncaptured_shape, no_runnable, overflow, Outcome,
}

unfoldable pub kind_mode : BatchKind → StepMode
kind_mode BatchKind.prefill = StepMode.prefill
kind_mode BatchKind.decode = StepMode.decode
kind_mode (BatchKind.verify depth) = StepMode.verify

unfoldable pub kind_depth : BatchKind → ℕ
kind_depth BatchKind.prefill = 0
kind_depth BatchKind.decode = 0
kind_depth (BatchKind.verify depth) = depth

-- An entry that holds the batch.
unfoldable pub fits : BatchKind → ℕ → ℕ → GraphEntry → Bool
fits kind active query_rows e =
    mode_eq e.key.mode (kind_mode kind)
    && e.key.mtp_depth == kind_depth kind
    && leb active e.maximum_active_sequences
    && leb query_rows e.maximum_query_rows
    && (not (mode_eq (kind_mode kind) StepMode.prefill) || leb query_rows e.maximum_prompt_tokens)

-- The key that `best_graph` minimises, compared part by part.
unfoldable pub smaller : GraphEntry → GraphEntry → Bool
smaller a b =
    ltb a.key.sequence_bucket b.key.sequence_bucket
    || (a.key.sequence_bucket == b.key.sequence_bucket
        && (ltb a.key.verifier_row_bucket b.key.verifier_row_bucket
            || (a.key.verifier_row_bucket == b.key.verifier_row_bucket
                && (ltb a.maximum_query_rows b.maximum_query_rows
                    || (a.maximum_query_rows == b.maximum_query_rows
                        && ltb a.graph_id b.graph_id)))))

-- The first entry with the least key.
unfoldable pub minimum : GraphEntry → List GraphEntry → GraphEntry
minimum best [] = best
minimum best (e ∷ es) = minimum (if smaller e best then e else best) es

unfoldable pub best_graph : GraphProfile → BatchKind → ℕ → ℕ → Option GraphEntry
best_graph profile kind active query_rows =
    elim (keep (fits kind active query_rows) profile.entries) [
      | [] ↦ none
      | e ∷ es ↦ some (minimum e es)
    ]

unfoldable pub checked_sum : ℕ → List BatchRow → Result SchedulerError ℕ
checked_sum acc [] = ok acc
checked_sum acc (row ∷ rows) = do
  acc' ← or_fail (checked_add u32_max acc row.prompt_tokens) overflow
  checked_sum acc' rows

unfoldable pub batch_query_rows : BatchKind → ℕ → List BatchRow → Result SchedulerError ℕ
batch_query_rows BatchKind.prefill active rows = checked_sum 0 rows
batch_query_rows BatchKind.decode active rows = ok active
batch_query_rows (BatchKind.verify depth) active rows =
    or_fail (checked_mul u32_max active (depth + 1)) overflow

-- The graph for a batch, and the batch with the identifier given.
unfoldable pub shape_batch :
    Scheduler
    → BatchKind
    → SamplingCollective
    → List BatchRow
    → Result SchedulerError ScheduledBatch
shape_batch s kind sampling rows =
    if is_empty rows
    then err no_runnable
    else if ltb u16_max (length rows)
    then err overflow
    else do
      query_rows ← batch_query_rows kind (length rows) rows
      graph ← or_fail (best_graph s.profile kind (length rows) query_rows) uncaptured_shape
      ok (record {
        step_id = s.next_step_id;
        kind = kind;
        graph_id = graph.graph_id;
        rows = rows;
        query_rows = query_rows;
        sampling = sampling;
      })

unfoldable pub finalize_batch :
    Scheduler → BatchKind → SamplingCollective → List BatchRow → Outcome ScheduledBatch
finalize_batch s kind sampling rows = elim (shape_batch s kind sampling rows) [
  | err e ↦ (s, err e)
  | ok batch ↦ elim (checked_add u64_max s.next_step_id 1) [
    | none ↦ (s, err overflow)
    | some next ↦ (record s { next_step_id = next }, ok batch)
  ]
]
