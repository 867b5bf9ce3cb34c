-- ===== src/Scheduler/Shape/Choice.antt =====
-- The choice of a captured graph (crates/glm-scheduler/src/lib.rs, `best_graph`, `finalize_batch`).
use glmaxx.Base.{
  ℕ, ◌+◌, ◌≤◌, ◌<◌, ◌≡◌, refl, inl, inr, true, false, List, [], ◌∷◌, Option, none, some, arith, leb,
  keep, length, All, Memᴰ, All-mem, mem-keep, mem-of_keep, ◌⊎◌, ok, err, Bool-cases, Option-cases,
  Result-cases, u16_max, u64_max, sym, subst, ap,
}
use glmaxx.Engine.Graph.{GraphProfile, GraphEntry}
use glmaxx.Scheduler.Shape.Fitting.{
  HoldsBatch, fits→HoldsBatch, HoldsBatch→fits, InOrder, preference, InOrder-preference,
}
use glmaxx.Scheduler.Shape.{
  fits, smaller, minimum, best_graph, batch_query_rows, shape_batch, finalize_batch,
}
use glmaxx.Scheduler.{
  SamplingCollective, BatchKind, BatchRow, ScheduledBatch, Scheduler, SchedulerError, overflow,
}

-- No entry has a smaller key than the least one.
abbrev Least : GraphEntry → GraphEntry → Type 0
Least m e = smaller e m ≡ false

smaller_trans :
    (a b c : GraphEntry) → smaller a b ≡ true → smaller c b ≡ false → smaller c a ≡ false
unfolding smaller
smaller_trans a b c h k = ground arith

smaller_irrefl : (a : GraphEntry) → smaller a a ≡ false
unfolding smaller
smaller_irrefl a = ground arith

not_smaller_trans :
    (a b c : GraphEntry) → smaller a b ≡ false → smaller b c ≡ false → smaller a c ≡ false
unfolding smaller
not_smaller_trans a b c h k = ground arith

smaller-asym : (a b : GraphEntry) → smaller a b ≡ true → smaller b a ≡ false
unfolding smaller
smaller-asym a b h = ground arith

minimum-mem : (best : GraphEntry) (es : List GraphEntry) → Memᴰ (minimum best es) (best ∷ es)
unfolding minimum
minimum-mem best [] = Memᴰ.head refl
minimum-mem best (e ∷ es) = elim (Bool-cases (smaller e best)) [
  | inl less ↦ rw less (Memᴰ.tail (minimum-mem e es))
  | inr more ↦ rw more (behind (minimum-mem best es))
]
  where
    behind : {x : GraphEntry} → Memᴰ x (best ∷ es) → Memᴰ x (best ∷ e ∷ es)
    behind (Memᴰ.head p) = Memᴰ.head p
    behind (Memᴰ.tail m) = Memᴰ.tail (Memᴰ.tail m)

minimum-Least :
    (best : GraphEntry) (es : List GraphEntry) → All (Least (minimum best es)) (best ∷ es)
unfolding minimum
minimum-Least best [] = (smaller_irrefl best, tt)
minimum-Least best (e ∷ es) = elim (Bool-cases (smaller e best)) [
  | inl less ↦
      let (least, others) = minimum-Least e es in
      subst (λ m. All (Least m) (best ∷ e ∷ es)) (ap (λ x. minimum x es) (sym (rw less)))
        (not_smaller_trans best e (minimum e es) (smaller-asym e best less) least, (least, others))
  | inr more ↦
      let (least, others) = minimum-Least best es in
      subst (λ m. All (Least m) (best ∷ e ∷ es)) (ap (λ x. minimum x es) (sym (rw more)))
        (least, (not_smaller_trans e best (minimum best es) more least, others))
]

-- The graph that was chosen is captured and holds the batch, and no captured graph that holds it is
-- preferred to it.
pub record IsChoice (profile : GraphProfile) (kind : BatchKind) (active query_rows : ℕ)
    (g : GraphEntry) : Type 0 where
  pub captured : Memᴰ g profile.entries
  pub holds : HoldsBatch kind active query_rows g
  pub preferred :
      (e : GraphEntry)
      → Memᴰ e profile.entries
      → HoldsBatch kind active query_rows e
      → InOrder (preference g) (preference e)

-- What a choice says of the profile: without one, no captured graph holds the batch.
abbrev pub Chosen : GraphProfile → BatchKind → ℕ → ℕ → Option GraphEntry → Type 0
Chosen profile kind active query_rows (some g) = IsChoice profile kind active query_rows g
Chosen profile kind active query_rows none =
    (e : GraphEntry) → Memᴰ e profile.entries → ¬ HoldsBatch kind active query_rows e

module _ (profile : GraphProfile) (kind : BatchKind) (active query_rows : ℕ) where
  kept :
      {e : GraphEntry} {l : List GraphEntry}
      → keep (fits kind active query_rows) profile.entries ≡ l
      → Memᴰ e profile.entries
      → HoldsBatch kind active query_rows e
      → Memᴰ e l
  kept {e} h m holds = subst (Memᴰ e) h (
      mem-keep (fits kind active query_rows) profile.entries m
        (HoldsBatch→fits kind active query_rows e holds))

  choice :
      (e : GraphEntry) (es : List GraphEntry)
      → keep (fits kind active query_rows) profile.entries ≡ e ∷ es
      → IsChoice profile kind active query_rows (minimum e es)
  choice e es h =
      let (captured, fit) =
        mem-of_keep (fits kind active query_rows) profile.entries
          (subst (Memᴰ (minimum e es)) (sym h) (minimum-mem e es)) in
      record {
        captured = captured;
        holds = fits→HoldsBatch kind active query_rows (minimum e es) fit;
        preferred = λ x m holds.
            InOrder-preference (minimum e es) x
              (All-mem (Least (minimum e es)) (kept h m holds) (minimum-Least e es));
      }

  kept-Chosen :
      (l : List GraphEntry)
      → keep (fits kind active query_rows) profile.entries ≡ l
      → Chosen profile kind active query_rows (best_graph profile kind active query_rows)
  unfolding best_graph
  kept-Chosen [] h = rw (h, Chosen) (λ e m holds. elim (kept h m holds) [ ])
  kept-Chosen (x ∷ xs) h = rw (h, Chosen) (choice x xs h)

  -- The entry that `best_graph` chooses is captured, for the mode and the draft depth of the batch, and
  -- takes its sequences, its query rows and, for a prefill, as many prompt tokens. Among the captured
  -- entries of which that is true it has the least sequence bucket, then the least bucket of verifier
  -- rows, then the least maximum of query rows, then the least identifier. Where `best_graph` chooses
  -- none, no captured entry is one of those.
  pub best_graph-Chosen :
      Chosen profile kind active query_rows (best_graph profile kind active query_rows)
  best_graph-Chosen = kept-Chosen _ refl

  pub best_graph-IsChoice :
      (g : GraphEntry)
      → best_graph profile kind active query_rows ≡ some g
      → IsChoice profile kind active query_rows g
  best_graph-IsChoice g h = subst (Chosen profile kind active query_rows) h best_graph-Chosen

  kept_some :
      (l : List GraphEntry) {e : GraphEntry}
      → keep (fits kind active query_rows) profile.entries ≡ l
      → Memᴰ e l
      → (g : GraphEntry) × (best_graph profile kind active query_rows ≡ some g)
  unfolding best_graph
  kept_some [] h m = elim m [ ]
  kept_some (x ∷ xs) h m = (minimum x xs, ground arith)

  -- A captured graph that holds the batch is enough for a choice.
  pub best_graph_total :
      (e : GraphEntry)
      → Memᴰ e profile.entries
      → fits kind active query_rows e ≡ true
      → (g : GraphEntry) × (best_graph profile kind active query_rows ≡ some g)
  best_graph_total e m holds =
      kept_some _ refl (mem-keep (fits kind active query_rows) profile.entries m holds)

-- The batch that `shape_batch` makes of its parts.
abbrev pub shaped :
    Scheduler → BatchKind → SamplingCollective → List BatchRow → ℕ → GraphEntry → ScheduledBatch
shaped s kind sampling rows query_rows g = record {
  step_id = s.next_step_id;
  kind = kind;
  graph_id = g.graph_id;
  rows = rows;
  query_rows = query_rows;
  sampling = sampling;
}

-- What a batch that was shaped went through.
pub record IsShaped (s : Scheduler) (kind : BatchKind) (sampling : SamplingCollective)
    (rows : List BatchRow) (b : ScheduledBatch) : Type 0 where
  pub some_rows : 0 < length rows
  pub query_rows : ℕ
  pub counted : batch_query_rows kind (length rows) rows ≡ ok query_rows
  pub graph : GraphEntry
  pub chosen : best_graph s.profile kind (length rows) query_rows ≡ some graph
  pub whole : b ≡ shaped s kind sampling rows query_rows graph

module _ (s : Scheduler) (kind : BatchKind) (sampling : SamplingCollective)
    (rows : List BatchRow) where
  pub shape_batch-IsShaped :
      (b : ScheduledBatch)
      → shape_batch s kind sampling rows ≡ ok b
      → IsShaped s kind sampling rows b
  unfolding shape_batch
  shape_batch-IsShaped b h = elim (Result-cases (batch_query_rows kind (length rows) rows)) [
    | inr (e, refused) ↦ ground arith
    | inl (q, counted) ↦ elim (Option-cases (best_graph s.profile kind (length rows) q)) [
      | inl missing ↦ ground arith
      | inr (g, chosen) ↦ record {
        some_rows = ground arith;
        query_rows = q;
        counted = counted;
        graph = g;
        chosen = chosen;
        whole = ground arith;
      }
    ]
  ]

  pub shape_batch_total :
      (q : ℕ) (g : GraphEntry)
      → 0 < length rows
      → length rows ≤ u16_max
      → batch_query_rows kind (length rows) rows ≡ ok q
      → best_graph s.profile kind (length rows) q ≡ some g
      → shape_batch s kind sampling rows ≡ ok (shaped s kind sampling rows q g)
  unfolding shape_batch
  shape_batch_total q g some_rows word counted chosen = ground arith

  abbrev pub stepped : Scheduler
  stepped = record s { next_step_id = s.next_step_id + 1 }

  -- Finalizing refuses and changes nothing, or takes a step identifier for the shaped batch.
  pub finalize_cases :
      ((e : SchedulerError) × (finalize_batch s kind sampling rows ≡ (s, err e)))
      ⊎ ((b : ScheduledBatch) × (shape_batch s kind sampling rows ≡ ok b)
          × (finalize_batch s kind sampling rows ≡ (stepped, ok b)))
  unfolding finalize_batch
  finalize_cases = elim (Result-cases (shape_batch s kind sampling rows)) [
    | inr (e, refused) ↦ inl (e, ground arith)
    | inl (b, shape) ↦ elim (Bool-cases (leb (s.next_step_id + 1) u64_max)) [
      | inl room ↦ inr (b, shape, ground arith)
      | inr full ↦ inl (overflow, ground arith)
    ]
  ]

  pub finalize_total :
      (b : ScheduledBatch)
      → shape_batch s kind sampling rows ≡ ok b
      → s.next_step_id < u64_max
      → finalize_batch s kind sampling rows ≡ (stepped, ok b)
  unfolding finalize_batch
  finalize_total b shape room = ground arith
