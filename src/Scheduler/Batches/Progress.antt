-- ===== src/Scheduler/Batches/Progress.antt =====
-- Work that can run is selected (crates/glm-scheduler/src/lib.rs, `next_batch`).
use glmaxx.Base.{
  ℕ, ◌≤◌, ◌<◌, ◌≡◌, refl, true, List, ◌∷◌, Option, none, some, arith, length, any, All, Memᴰ,
  All-mem, any-mem, mem-nonempty, ok, u16_max, u32_max, u64_max, sym, subst, ap,
}
use glmaxx.Base.Maps.{values}
use glmaxx.Engine.Graph.{GraphProfile, GraphEntry, prefill}
use glmaxx.Engine.Graph.Validity.{IsCaptured, mode_eq_refl}
use glmaxx.Scheduler.Admission.{is_prefill_entry, has_graph_for_request}
use glmaxx.Scheduler.Invariant.{IsValid, IsConfig}
use glmaxx.Scheduler.Order.{in_class, ordered_requests}
use glmaxx.Scheduler.Order.Eligible.{
  IsEligible, ordered_requests-IsEligible, ordered_requests-Distinct, eligible-mem,
}
use glmaxx.Scheduler.Shape.{fits, kind_mode, kind_depth, batch_query_rows, finalize_batch}
use glmaxx.Scheduler.Shape.Choice.{
  shaped, shape_batch_total, stepped, finalize_total, best_graph_total,
}
use glmaxx.Scheduler.Batches.Prefill.{sum_tokens, checked_sum_zero}
use glmaxx.Scheduler.Batches.Preserve.{sum_tokens-length}
use glmaxx.Scheduler.Batches.Best.{
  IsBest, IsPrefillRows, Choice, best_prefill-Choice, is_prefill_entry-mode, entry_rows_some,
  best_tokens,
}
use glmaxx.Scheduler.Batches.Equations.{build_prefill_some}
use glmaxx.Scheduler.Batches.{best_prefill, entry_rows, build_prefill_batch}
use glmaxx.Scheduler.{
  Request, BatchKind, BatchRow, ScheduledBatch, Scheduler, SamplingCollective, greedy, Outcome,
  is_waiting,
}

-- A build that returns a batch of the kind.
abbrev pub Succeeds : Outcome ScheduledBatch → Type 0
Succeeds o = (t : Scheduler) × (b : ScheduledBatch) × (o ≡ (t, ok b))

prefill_captured :
    (s : Scheduler) (r : Request)
    → has_graph_for_request s.profile r.spec ≡ true
    → any is_prefill_entry s.profile.entries ≡ true
unfolding has_graph_for_request
prefill_captured s r h = ground arith

pub in_class-none : (profile : GraphProfile) (r : Request) → in_class profile none r ≡ true
unfolding in_class
in_class-none profile r = refl

module _ (s : Scheduler) (room : s.next_step_id < u64_max) where
  -- Rows with a captured entry that holds them become a batch.
  pub finalize-Succeeds :
      (kind : BatchKind) (sampling : SamplingCollective) (rows : List BatchRow) (q : ℕ)
      (e : GraphEntry)
      → 0 < length rows
      → length rows ≤ u16_max
      → batch_query_rows kind (length rows) rows ≡ ok q
      → Memᴰ e s.profile.entries
      → fits kind (length rows) q e ≡ true
      → Succeeds (finalize_batch s kind sampling rows)
  finalize-Succeeds kind sampling rows q e some_rows word counted m holds =
      let (g, chosen) = best_graph_total s.profile kind (length rows) q e m holds in
      let b = shaped s kind sampling rows q g in
      (
        stepped s kind sampling rows,
        b,
        finalize_total s kind sampling rows b
            (shape_batch_total s kind sampling rows q g some_rows word counted chosen) room,
      )

  prefill-fits :
      (active q : ℕ) (e : GraphEntry)
      → IsCaptured e
      → is_prefill_entry e ≡ true
      → active ≤ e.maximum_active_sequences
      → q ≤ e.maximum_query_rows
      → q ≤ e.maximum_prompt_tokens
      → fits BatchKind.prefill active q e ≡ true
  unfolding fits kind_mode kind_depth
  prefill-fits active q e k mode a b c =
      let m = is_prefill_entry-mode e mode in ground (arith, k.prompt_depth m, mode_eq_refl prefill)

  prefill-query_rows :
      (rows : List BatchRow)
      → sum_tokens rows ≤ u32_max
      → batch_query_rows BatchKind.prefill (length rows) rows ≡ ok (sum_tokens rows)
  unfolding batch_query_rows
  prefill-query_rows rows h = checked_sum_zero rows h

  prefill-Succeeds :
      (rows : List BatchRow)
      → IsConfig s.config
      → All IsCaptured s.profile.entries
      → IsPrefillRows s rows
      → Succeeds (finalize_batch s BatchKind.prefill greedy rows)
  prefill-Succeeds rows c k r =
      finalize-Succeeds BatchKind.prefill greedy rows (sum_tokens rows) r.entry
        (sum_tokens-length rows r.some_tokens) (omega (arith, r.within.sequences, c.sequence_limit))
        (prefill-query_rows rows (omega (arith, r.within.budget, c.prefill_word))) r.captured
        (prefill-fits (length rows) (sum_tokens rows) r.entry (All-mem IsCaptured r.captured k)
          r.mode r.within.active r.within.query r.within.prompt)

  pub build_prefill_batch-Succeeds :
      (r : Request)
      → IsValid s
      → Memᴰ r (values s.requests)
      → is_waiting r.state ≡ true
      → Succeeds (build_prefill_batch s)
  build_prefill_batch-Succeeds r v m state =
      from_choice choice.result choice.returned choice.legal positive
    where
      eligible : List Request
      eligible = ordered_requests s is_waiting none

      choice : Choice s eligible none s.profile.entries
      choice =
          best_prefill-Choice s v eligible (ordered_requests-IsEligible s v is_waiting none)
            (ordered_requests-Distinct s v is_waiting none) s.profile.entries none (λ e m. m) tt

      some_entry :
          (x : Request) (ys : List Request)
          → eligible ≡ x ∷ ys
          → All (IsEligible s is_waiting none) (x ∷ ys)
          → 0 < best_tokens choice.result
      some_entry x ys e w =
          let (g, captured, mode) =
            any-mem is_prefill_entry s.profile.entries (prefill_captured s x w.0.valid.captured) in
          let taken =
            entry_rows_some s x ys g v.config (All-mem IsCaptured captured v.entries) mode w.0 in
          let most = choice.most g captured mode in
          omega (arith, ap (λ rs. sum_tokens (entry_rows s rs g)) e)

      positive : 0 < best_tokens choice.result
      positive =
          let (x, ys, e) =
            mem-nonempty (eligible-mem s v is_waiting none r m state (in_class-none s.profile r)) in
          some_entry x ys e (
            subst (All (IsEligible s is_waiting none)) e
              (ordered_requests-IsEligible s v is_waiting none))

      from_choice :
          (best : Option (ℕ × List BatchRow))
          → best_prefill s eligible none s.profile.entries ≡ ok best
          → IsBest s best
          → 0 < best_tokens best
          → Succeeds (build_prefill_batch s)
      from_choice none e legal p = absurd (omega arith)
      from_choice (some (q, rows)) e legal p =
          subst Succeeds (sym (build_prefill_some s q rows e))
            (prefill-Succeeds rows v.config v.entries legal.1)
