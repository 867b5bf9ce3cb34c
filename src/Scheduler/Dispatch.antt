-- ===== src/Scheduler/Dispatch.antt =====
-- From a selected batch to the graph and the plan that run it (crates/glm-scheduler/src/lib.rs and
-- compile.rs, crates/glm-engine/src/graph.rs).
use glmaxx.Base.{
  ℕ, zero, suc, ◌≡◌, refl, inl, inr, none, some, List, [], ◌∷◌, ok, err, Result-cases, Option-cases,
  Bool-cases, Memᴰ, length, map, take, ◌==◌, find_first, sym, subst, ◌∙◌, arith,
}
use glmaxx.Engine.Admit.{admit_plan}
use glmaxx.Engine.Graph.{GraphEntry, GraphProfile, verify_profile}
use glmaxx.Engine.Graph.Validity.{
  verify_profile-valid, validate_entries-distinct, find_first-distinct,
}
use glmaxx.Engine.Step.{verify_plan}
use glmaxx.Scheduler.Admission.{apply_cancellations}
use glmaxx.Scheduler.Batches.{
  best_prefill, build_prefill_batch, decode_row, shrink_batch, build_class_batch,
  build_decode_batch, build_batch, launch, select_batch, next_batch, chooses_prefill,
}
use glmaxx.Scheduler.Batches.Equations.{
  build_prefill_none, build_prefill_err, build_prefill_some, shrink_done, shrink_again,
  build_class_ok, build_class_err, build_decode_nil, build_decode_cons, next_busy, next_idle,
}
use glmaxx.Scheduler.Compile.{StepPlanCompiler, CompiledStep, compile}
use glmaxx.Scheduler.Compile.Admitted.{admit_plan-compile}
use glmaxx.Scheduler.Order.{ordered_requests, effective_decode_depth}
use glmaxx.Scheduler.Readers.{graph_entry}
use glmaxx.Scheduler.Shape.{finalize_batch}
use glmaxx.Scheduler.Shape.Fitting.{
  HoldsBatch, HoldsBatch→fits, needed_rows, batch_query_rows-needed,
}
use glmaxx.Scheduler.Shape.Choice.{
  IsShaped, shape_batch-IsShaped, finalize_cases, best_graph-IsChoice,
}
use glmaxx.Scheduler.{
  BatchKind, BatchRow, Request, ScheduledBatch, Scheduler, SchedulerError, SamplingCollective,
  Outcome, is_waiting, is_decoding,
}

-- The batch's identifier is that of a captured graph which holds the batch, and its query rows are
-- those that its rows need.
pub record IsHeld (profile : GraphProfile) (b : ScheduledBatch) : Type 0 where
  pub graph : GraphEntry
  pub captured : Memᴰ graph profile.entries
  pub named : b.graph_id ≡ graph.graph_id
  pub holds : HoldsBatch b.kind (length b.rows) b.query_rows graph
  pub counted : b.query_rows ≡ needed_rows b.kind b.rows

-- A batch that the outcome returns is held.
abbrev Holds : GraphProfile → Outcome ScheduledBatch → Type 0
Holds profile o = (t : Scheduler) (b : ScheduledBatch) → o ≡ (t, ok b) → IsHeld profile b

Holds-err :
    (profile : GraphProfile) (s : Scheduler) (x : SchedulerError) (o : Outcome ScheduledBatch)
    → o ≡ (s, err x)
    → Holds profile o
Holds-err profile s x o e t b h = let clash = sym e ∙ h in cc

module _ (s : Scheduler) where
  shaped-IsHeld :
      (kind : BatchKind) (sampling : SamplingCollective) (rows : List BatchRow) (b : ScheduledBatch)
      → IsShaped s kind sampling rows b
      → IsHeld s.profile b
  shaped-IsHeld kind sampling rows b h =
      let choice = best_graph-IsChoice s.profile kind (length rows) h.query_rows h.graph h.chosen in
      subst (IsHeld s.profile) (sym h.whole) (record {
        graph = h.graph;
        captured = choice.captured;
        named = refl;
        holds = choice.holds;
        counted = batch_query_rows-needed kind rows h.query_rows h.counted;
      })

  finalize-Holds :
      (kind : BatchKind) (sampling : SamplingCollective) (rows : List BatchRow)
      → Holds s.profile (finalize_batch s kind sampling rows)
  finalize-Holds kind sampling rows t b h = elim (finalize_cases s kind sampling rows) [
    | inl (x, e) ↦ Holds-err s.profile s x _ e t b h
    | inr (b', shape, e) ↦
        let same : b' ≡ b = let both = sym e ∙ h in cc in
        subst (IsHeld s.profile) same
          (shaped-IsHeld kind sampling rows b' (shape_batch-IsShaped s kind sampling rows b' shape))
  ]

  build_prefill-Holds : Holds s.profile (build_prefill_batch s)
  build_prefill-Holds =
      elim (Result-cases
        (best_prefill s (ordered_requests s is_waiting none) none s.profile.entries)) [
          | inr (x, e) ↦ Holds-err s.profile s x _ (build_prefill_err s x e)
          | inl (none, e) ↦ Holds-err s.profile s _ _ (build_prefill_none s e)
          | inl (some (q, rows), e) ↦
              subst (Holds s.profile) (sym (build_prefill_some s q rows e))
                (finalize-Holds _ _ rows)
        ]

  shrink-Holds :
      (kind : BatchKind) (sampling : SamplingCollective) (eligible : List Request) (n : ℕ)
      → Holds s.profile (shrink_batch s kind sampling eligible n)
  shrink-Holds kind sampling eligible zero = unfold shrink_batch in Holds-err s.profile s _ _ refl
  shrink-Holds kind sampling eligible (suc n) =
      elim (finalize_cases s kind sampling (map decode_row (take (suc n) eligible))) [
        | inl (x, e) ↦
            subst (Holds s.profile) (sym (shrink_again s kind sampling eligible n s x e))
              (shrink-Holds kind sampling eligible n)
        | inr (b, shape, e) ↦
            subst (Holds s.profile) (e ∙ sym (shrink_done s kind sampling eligible n _ b e))
              (finalize-Holds kind sampling (map decode_row (take (suc n) eligible)))
      ]

  class-Holds : (first : Request) → Holds s.profile (build_class_batch s first)
  class-Holds first = elim (Result-cases (effective_decode_depth s.profile first)) [
    | inr (x, e) ↦ Holds-err s.profile s x _ (build_class_err s first x e)
    | inl (depth, e) ↦
        subst (Holds s.profile) (sym (build_class_ok s first depth e)) (shrink-Holds _ _ _ _)
  ]

  decode-Holds :
      (rs : List Request)
      → ordered_requests s is_decoding none ≡ rs
      → Holds s.profile (build_decode_batch s)
  decode-Holds [] e = Holds-err s.profile s _ _ (build_decode_nil s e)
  decode-Holds (first ∷ rs) e =
      subst (Holds s.profile) (sym (build_decode_cons s first rs e)) (class-Holds first)

  build_batch-Holds : Holds s.profile (build_batch s)
  unfolding build_batch
  build_batch-Holds = elim (Bool-cases (chooses_prefill s)) [
    | inl prefilled ↦ rw prefilled build_prefill-Holds
    | inr decoded ↦ rw decoded (decode-Holds _ refl)
  ]

launched-IsHeld :
    (profile : GraphProfile) (o : Outcome ScheduledBatch) (t : Scheduler) (b : ScheduledBatch)
    → Holds profile o
    → launch o ≡ (t, ok (some b))
    → IsHeld profile b
unfolding launch
launched-IsHeld profile (t', ok b') t b f h =
    let same : b' ≡ b = cc in subst (IsHeld profile) same (f t' b' refl)
launched-IsHeld profile (t', err x) t b f h = cc

selected-IsHeld :
    (s t : Scheduler) (b : ScheduledBatch) → select_batch s ≡ (t, ok (some b)) → IsHeld s.profile b
unfolding select_batch
selected-IsHeld s t b h =
    launched-IsHeld s.profile (build_batch s) t b (build_batch-Holds s) (ground arith)

-- The graph that is found under the identifier of a held batch is the one that holds it.
entry-holds :
    (s : Scheduler) (b : ScheduledBatch) (g : GraphEntry) (sha256 : List ℕ → List ℕ)
    → verify_profile sha256 s.profile ≡ ok tt
    → IsHeld s.profile b
    → graph_entry s b.graph_id ≡ some g
    → Memᴰ g s.profile.entries × HoldsBatch b.kind (length b.rows) b.query_rows g
unfolding graph_entry
entry-holds s b g sha256 verified k h =
    let distinct =
      validate_entries-distinct s.profile.entries
        (verify_profile-valid sha256 s.profile verified) in
    let found = find_first-distinct s.profile.entries k.graph distinct k.captured in
    let named =
      subst (λ id. find_first (λ e. e.graph_id == id) s.profile.entries ≡ some g) k.named h in
    let same : k.graph ≡ g = let both = sym found ∙ named in cc in
    (
      subst (λ e. Memᴰ e s.profile.entries) same k.captured,
      subst (HoldsBatch b.kind (length b.rows) b.query_rows) same k.holds,
    )

-- A batch that `next_batch` returns names a captured graph which holds it: one of its mode and draft
-- depth, for at least its sequences, its rows, and, for a prefill, its prompt tokens.
pub next_batch-IsHeld :
    (s t : Scheduler) (b : ScheduledBatch) → next_batch s ≡ (t, ok (some b)) → IsHeld s.profile b
unfolding apply_cancellations
next_batch-IsHeld s t b h = elim (Option-cases s.inflight) [
  | inl idle ↦ selected-IsHeld (apply_cancellations s) t b (sym (next_idle s idle) ∙ h)
  | inr (x, busy) ↦ let clash = sym (next_busy s x busy) ∙ h in cc
]

-- With a verified profile, when `next_batch` returns a batch, `graph_entry` finds a captured graph under
-- its identifier. That graph is captured for the batch's mode and draft depth, takes at least as many
-- sequences as the batch has rows, and takes the query rows that these need: for a prefill the sum of
-- their prompt tokens, which is also within the prompt tokens that the graph takes, for a decode one for
-- each row, and for a verify one more than the draft depth for each row. The batch's count of query rows
-- is that number.
pub next_batch-graph_entry :
    (sha256 : List ℕ → List ℕ) (s t : Scheduler) (b : ScheduledBatch)
    → verify_profile sha256 s.profile ≡ ok tt
    → next_batch s ≡ (t, ok (some b))
    → (g : GraphEntry) × (graph_entry s b.graph_id ≡ some g)
      × Memᴰ g s.profile.entries
      × HoldsBatch b.kind (length b.rows) (needed_rows b.kind b.rows) g
      × (b.query_rows ≡ needed_rows b.kind b.rows)
unfolding graph_entry
next_batch-graph_entry sha256 s t b verified h =
    let k = next_batch-IsHeld s t b h in
    let distinct =
      validate_entries-distinct s.profile.entries
        (verify_profile-valid sha256 s.profile verified) in
    let found = find_first-distinct s.profile.entries k.graph distinct k.captured in
    (
      k.graph,
      subst (λ id. find_first (λ e. e.graph_id == id) s.profile.entries ≡ some k.graph)
          (sym k.named) found,
      k.captured,
      subst (λ n. HoldsBatch b.kind (length b.rows) n k.graph) k.counted k.holds,
      k.counted,
    )

-- With a verified profile, when a batch that `next_batch` returned compiles against the graph that
-- `graph_entry` finds under its identifier, the plan verifies against its schedule, and the profile
-- admits the plan, to that same graph.
pub next_batch-compile :
    (sha256 : List ℕ → List ℕ) (s t : Scheduler) (b : ScheduledBatch) (g : GraphEntry)
    (c : StepPlanCompiler) (generation : ℕ) (step : CompiledStep)
    → verify_profile sha256 s.profile ≡ ok tt
    → next_batch s ≡ (t, ok (some b))
    → graph_entry s b.graph_id ≡ some g
    → compile sha256 c b g generation ≡ ok step
    → (verify_plan sha256 step.plan step.schedule ≡ ok tt)
      × (admit_plan sha256 s.profile step.plan ≡ ok g)
next_batch-compile sha256 s t b g c generation step verified h found compiled =
    let (captured, holds) = entry-holds s b g sha256 verified (next_batch-IsHeld s t b h) found in
    admit_plan-compile sha256 c b g generation step s.profile verified captured
      (HoldsBatch→fits b.kind (length b.rows) b.query_rows g holds) compiled
