-- ===== src/Cache/Sequence/Quarantine.antt =====
-- The empty table, and the quarantine of retired pages: crates/glm-cache/src/sequence.rs.
use glmaxx.Base.{
  ℕ, zero, suc, Bool, true, false, ◌&&◌, ◌||◌, not, List, [], ◌∷◌, all, length, Option, none, some,
  ltb, ◌==◌, if◌then◌else◌, is_some, Result, ok, err,
}
use glmaxx.Cache.Sequence.{
  PageTableConfig, SequencePageError, config_error, transaction_error, Ranks, SequencePageTable,
  Outcome, maximum_physical_pages_per_rank,
}
use glmaxx.Cache.Sequence.Store.{set_insert}

-- What a method leaves behind with its result: where it fails, the table as it was.
unfoldable pub transact :
    SequencePageTable
    → Outcome SequencePageTable
    → SequencePageTable × Result SequencePageError (Unit {0})
transact s (ok t) = (t, ok tt)
transact s (err e) = (s, err e)

-- The numbers below `n`, from `first`.
unfoldable pub range : ℕ → ℕ → List ℕ
range first zero = []
range first (suc n) = first ∷ range (suc first) n

unfoldable pub table_config_valid : PageTableConfig → Bool
table_config_valid c = not (
    c.target_pages_per_rank == 0
    || ltb maximum_physical_pages_per_rank c.target_pages_per_rank
    || ltb c.target_pages_per_rank c.draft_pages_per_rank)

-- The table with every page free and no sequence.
unfoldable pub empty_table : PageTableConfig → SequencePageTable
empty_table c = record {
  config = c;
  free_target = λ rank. range 0 c.target_pages_per_rank;
  free_draft = λ rank. range 0 c.draft_pages_per_rank;
  quarantined_target = λ rank. [];
  quarantined_draft = λ rank. [];
  quarantine_generation = none;
  physical = λ rank. [];
  prefixes = [];
  sequences = [];
}

-- `SequencePageTable::new`.
unfoldable pub new_table : PageTableConfig → Outcome SequencePageTable
new_table c = if not (table_config_valid c) then err config_error else ok (empty_table c)

abbrev pub ranks : List ℕ
ranks = 0 ∷ 1 ∷ 2 ∷ 3 ∷ []

pub record PageReuseQuarantineStats : Type 0 where
  pub target_pages : Ranks ℕ
  pub draft_pages : Ranks ℕ
  pub bound_generation : Option ℕ

unfoldable pub reuse_quarantine_stats : SequencePageTable → PageReuseQuarantineStats
reuse_quarantine_stats s = record {
  target_pages = λ rank. length (s.quarantined_target rank);
  draft_pages = λ rank. length (s.quarantined_draft rank);
  bound_generation = s.quarantine_generation;
}

unfoldable pub stats_empty : PageReuseQuarantineStats → Bool
stats_empty q =
    all (λ rank. q.target_pages rank == 0) ranks && all (λ rank. q.draft_pages rank == 0) ranks

-- `bind_reuse_quarantine`, with whether a generation was bound.
unfoldable pub bind_reuse_quarantine :
    SequencePageTable → ℕ → SequencePageTable × Result SequencePageError Bool
bind_reuse_quarantine s generation =
    if generation == 0 || is_some s.quarantine_generation
    then (s, err transaction_error)
    else if stats_empty (reuse_quarantine_stats s)
    then (s, ok false)
    else (record s { quarantine_generation = some generation }, ok true)

-- `BTreeSet::append` of a set that has no element in common.
unfoldable pub set_append : List ℕ → List ℕ → List ℕ
set_append [] js = js
set_append (k ∷ ks) js = set_insert k (set_append ks js)

-- The pages of every rank become free again.
unfoldable pub reuse_retired : SequencePageTable → SequencePageTable
reuse_retired s = record s {
  free_target = λ rank. set_append (s.quarantined_target rank) (s.free_target rank);
  free_draft = λ rank. set_append (s.quarantined_draft rank) (s.free_draft rank);
  quarantined_target = λ rank. [];
  quarantined_draft = λ rank. [];
  quarantine_generation = none;
}

unfoldable pub bound_to : Option ℕ → ℕ → Bool
bound_to none generation = false
bound_to (some bound) generation = bound == generation

-- `acknowledge_reuse_quarantine`, with what it made free.
unfoldable pub acknowledge_reuse_quarantine :
    SequencePageTable → ℕ → SequencePageTable × Result SequencePageError PageReuseQuarantineStats
acknowledge_reuse_quarantine s generation =
    if bound_to s.quarantine_generation generation
    then (reuse_retired s, ok (reuse_quarantine_stats s))
    else (s, err transaction_error)

-- `require_unbound_quarantine` in front of a method.
unfoldable pub when_unbound :
    SequencePageTable → Outcome SequencePageTable → Outcome SequencePageTable
when_unbound s r = if is_some s.quarantine_generation then err transaction_error else r
