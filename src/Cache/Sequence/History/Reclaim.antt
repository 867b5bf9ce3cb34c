-- ===== src/Cache/Sequence/History/Reclaim.antt =====
-- A whole quarantine, from its binding to its acknowledgement: crates/glm-cache/src/sequence.rs.
use native.Mathlib.Decide.{dec_lt}
use glmaxx.Base.{
  ℕ, zero, suc, ◌+◌, ◌<◌, ◌≡◌, refl, ap, sym, subst, ◌∙◌, true, false, ◌||◌, not, List, [], ◌∷◌,
  all, length, none, some, ◌==◌, ==-refl, is_some, Result, ok, arith,
}
use glmaxx.Cache.Sequence.{SequencePageError, SequencePageTable}
use glmaxx.Cache.Sequence.Quarantine.{
  bind_reuse_quarantine, reuse_retired, bound_to, acknowledge_reuse_quarantine,
  PageReuseQuarantineStats, ranks, reuse_quarantine_stats, stats_empty,
}
use glmaxx.Cache.Sequence.Account.Maps.{occurrences, occurrences-set_append}
use glmaxx.Cache.Sequence.History.{TableCall, perform, run}
use glmaxx.Cache.Sequence.History.Reuse.{acknowledges, run_bound}

-- What an acknowledgement that succeeds on `s` leaves: for every rank the retired pages are free beside
-- those that were, targets and drafts alike, none is left retired, no generation is bound, and all else
-- is as it was. It returns how many pages of each rank were retired.
pub record Reclaims (s : SequencePageTable) (generation : ℕ)
    (r : SequencePageTable × Result SequencePageError PageReuseQuarantineStats) : Type 0 where
  pub free_target :
      (rank id : ℕ)
      → occurrences id (r.0.free_target rank)
        ≡ occurrences id (s.free_target rank) + occurrences id (s.quarantined_target rank)
  pub free_draft :
      (rank id : ℕ)
      → occurrences id (r.0.free_draft rank)
        ≡ occurrences id (s.free_draft rank) + occurrences id (s.quarantined_draft rank)
  pub no_target : (rank : ℕ) → r.0.quarantined_target rank ≡ []
  pub no_draft : (rank : ℕ) → r.0.quarantined_draft rank ≡ []
  pub unbound : r.0.quarantine_generation ≡ none
  pub config : r.0.config ≡ s.config
  pub physical : r.0.physical ≡ s.physical
  pub prefixes : r.0.prefixes ≡ s.prefixes
  pub sequences : r.0.sequences ≡ s.sequences
  pub returned :
      r.1
      ≡ ok (record {
        target_pages = λ rank. length (s.quarantined_target rank);
        draft_pages = λ rank. length (s.quarantined_draft rank);
        bound_generation = some generation;
      })

length-occurrences : (id : ℕ) (ids : List ℕ) → 0 < occurrences id ids → (length ids == 0) ≡ false
unfolding occurrences
length-occurrences id [] h = absurd (omega (arith, h))
length-occurrences id (x ∷ xs) h = ground arith

all_empty :
    (pages : ℕ → List ℕ) (rank id : ℕ)
    → rank < 4
    → 0 < occurrences id (pages rank)
    → all (λ r. length (pages r) == 0) ranks ≡ false
all_empty pages zero id h k = ground (arith, length-occurrences id (pages 0) k)
all_empty pages (suc zero) id h k = ground (arith, length-occurrences id (pages 1) k)
all_empty pages (suc (suc zero)) id h k = ground (arith, length-occurrences id (pages 2) k)
all_empty pages (suc (suc (suc zero))) id h k = ground (arith, length-occurrences id (pages 3) k)
all_empty pages (suc (suc (suc (suc rank)))) id h k = absurd (omega (arith, h))

-- A retired page, target or draft, of one of the four ranks shows in the counts.
stats_empty-retired :
    (s : SequencePageTable) (rank id : ℕ)
    → rank < 4
    → 0 < occurrences id (s.quarantined_target rank) + occurrences id (s.quarantined_draft rank)
    → stats_empty (reuse_quarantine_stats s) ≡ false
unfolding stats_empty reuse_quarantine_stats
stats_empty-retired s rank id h k = elim (dec_lt 0 (occurrences id (s.quarantined_target rank))) [
  | yes target ↦ ground (arith, all_empty s.quarantined_target rank id h target)
  | no none_here ↦
      let draft : 0 < occurrences id (s.quarantined_draft rank) = omega (arith, k, none_here) in
      ground (arith, all_empty s.quarantined_draft rank id h draft)
]

acknowledge-Reclaims :
    (s : SequencePageTable) (generation : ℕ)
    → Reclaims s generation (
        acknowledge_reuse_quarantine
          (record s { quarantine_generation = some generation })
          generation)
unfolding acknowledge_reuse_quarantine reuse_retired bound_to reuse_quarantine_stats
acknowledge-Reclaims s generation = rw (==-refl generation) (record {
  free_target = λ rank id.
      omega (arith, occurrences-set_append id (s.quarantined_target rank) (s.free_target rank));
  free_draft = λ rank id.
      omega (arith, occurrences-set_append id (s.quarantined_draft rank) (s.free_draft rank));
  no_target = λ rank. refl;
  no_draft = λ rank. refl;
  unbound = refl;
  config = refl;
  physical = refl;
  prefixes = refl;
  sequences = refl;
  returned = refl;
})

bind-binds :
    (s : SequencePageTable) (generation : ℕ)
    → 0 < generation
    → s.quarantine_generation ≡ none
    → stats_empty (reuse_quarantine_stats s) ≡ false
    → (bind_reuse_quarantine s generation).0 ≡ record s { quarantine_generation = some generation }
unfolding bind_reuse_quarantine
bind-binds s generation h unbound retired =
    let test : (generation == 0 || is_some s.quarantine_generation) ≡ false =
      ground (arith, unbound) in
    rw (test, retired) refl

-- When no generation is bound and some target or draft page of a rank is retired, the binding of a
-- generation above zero, then any calls that do not acknowledge it, then its acknowledgement make every
-- retired target and draft page of every rank free, keep the free ones, leave no page retired and no
-- generation bound, change neither the pages in use nor the prefixes nor the sequences, and return how
-- many target and draft pages of each rank were retired.
pub acknowledge-frees :
    (s : SequencePageTable) (calls : List TableCall) (generation rank id : ℕ)
    → 0 < generation
    → s.quarantine_generation ≡ none
    → rank < 4
    → 0 < occurrences id (s.quarantined_target rank) + occurrences id (s.quarantined_draft rank)
    → all (λ call. not (acknowledges generation call)) calls ≡ true
    → Reclaims s generation
        (acknowledge_reuse_quarantine (run s (TableCall.bind generation ∷ calls)) generation)
unfolding run perform
acknowledge-frees s calls generation rank id h unbound within retired others =
    let bound = bind-binds s generation h unbound (stats_empty-retired s rank id within retired) in
    let same =
      ap (λ (t : SequencePageTable). run t calls) bound
      ∙ run_bound (record s { quarantine_generation = some generation }) calls generation refl
          others in
    subst
      (λ (t : SequencePageTable). Reclaims s generation (acknowledge_reuse_quarantine t generation))
      (sym same) (acknowledge-Reclaims s generation)
