-- ===== src/Cache/Sequence/History/Sound.antt =====
-- The invariant of the page table: crates/glm-cache/src/sequence.rs.
use glmaxx.Base.{
  ℕ, ◌≤◌, ◌≡◌, refl, ap, sym, ◌∙◌, inl, inr, false, ◌||◌, not, List, [], ◌∷◌, Option, some, ltb,
  ◌==◌, if◌then◌else◌, is_some, ok, Bool-cases, arith,
}
use glmaxx.Base.Ensures.{Ensures, guard-Ensures, Ensures-eq_ok}
use glmaxx.Base.Maps.{find, Ascending}
use glmaxx.Cache.Sequence.{PhysicalPageId, PageTableConfig, SequencePageTable, config_error}
use glmaxx.Cache.Sequence.Store.{lookup_page}
use glmaxx.Cache.Sequence.Quarantine.{
  empty_table, new_table, table_config_valid, bind_reuse_quarantine, reuse_retired, bound_to,
  acknowledge_reuse_quarantine, reuse_quarantine_stats, stats_empty,
}
use glmaxx.Cache.Sequence.Account.Maps.{
  occurrences, occurrences-range, occurrences-set_append, present, summed,
}
use glmaxx.Cache.Sequence.Account.Step.{recorded, mentions, held}
use glmaxx.Cache.Sequence.Account.Grown.{Keeps}
use glmaxx.Cache.Sequence.History.{TableCall, perform, run, is_quarantine_call, perform-Keeps}

-- Each target identifier of a rank is free, retired or in use, in one place; a page's references are the
-- places in which sequences list it; a page that no sequence lists is not there.
pub record IsSound (s : SequencePageTable) : Type 0 where
  pub partitioned :
      (rank id : ℕ) → held s rank id ≡ (if ltb id s.config.target_pages_per_rank then 1 else 0)
  pub counted : (p : PhysicalPageId) → recorded s p ≡ mentions s p
  pub live : (p : PhysicalPageId) → present (lookup_page s p) ≤ recorded s p
  pub ordered : Ascending 0 s.sequences

Keeps-IsSound : (s t : SequencePageTable) → Keeps s t → IsSound s → IsSound t
Keeps-IsSound s t step sound = record {
  partitioned = λ rank id.
      step.conserved rank id
      ∙ sound.partitioned rank id
      ∙ ap (λ (c : PageTableConfig). if ltb id c.target_pages_per_rank then 1 else 0)
          (sym step.same_config);
  counted = λ p. omega (arith, step.balance p, sound.counted p);
  live = step.live sound.live;
  ordered = step.ordered sound.ordered;
}

held-reuse_retired :
    (s : SequencePageTable) (rank id : ℕ) → held (reuse_retired s) rank id ≡ held s rank id
unfolding reuse_retired held occurrences
held-reuse_retired s rank id =
    let e = occurrences-set_append id (s.quarantined_target rank) (s.free_target rank) in
    omega arith

reuse_retired-IsSound : (s : SequencePageTable) → IsSound s → IsSound (reuse_retired s)
unfolding reuse_retired
reuse_retired-IsSound s sound = record {
  partitioned = λ rank id. held-reuse_retired s rank id ∙ sound.partitioned rank id;
  counted = λ p. unfold recorded lookup_page mentions in sound.counted p;
  live = λ p. unfold recorded lookup_page in sound.live p;
  ordered = sound.ordered;
}

held-empty_table :
    (c : PageTableConfig) (rank id : ℕ)
    → held (empty_table c) rank id ≡ (if ltb id c.target_pages_per_rank then 1 else 0)
unfolding empty_table held occurrences find
held-empty_table c rank id = ground (arith, occurrences-range id 0 c.target_pages_per_rank)

empty_table-IsSound : (c : PageTableConfig) → IsSound (empty_table c)
unfolding empty_table
empty_table-IsSound c = record {
  partitioned = held-empty_table c;
  counted = λ p. unfold recorded mentions lookup_page find summed in refl;
  live = λ p. unfold recorded lookup_page find in omega arith;
  ordered = tt;
}

quarantine_generation-IsSound :
    (s : SequencePageTable) (generation : Option ℕ)
    → IsSound s
    → IsSound (record s { quarantine_generation = generation })
quarantine_generation-IsSound s generation sound = record {
  partitioned = λ rank id. unfold held in sound.partitioned rank id;
  counted = λ p. unfold recorded lookup_page mentions in sound.counted p;
  live = λ p. unfold recorded lookup_page in sound.live p;
  ordered = sound.ordered;
}

bind-IsSound :
    (s : SequencePageTable) (generation : ℕ)
    → IsSound s
    → IsSound (bind_reuse_quarantine s generation).0
unfolding bind_reuse_quarantine
bind-IsSound s generation sound =
    elim (Bool-cases (generation == 0 || is_some s.quarantine_generation)) [
      | inl refused ↦ rw refused sound
      | inr free ↦ rw free (elim (Bool-cases (stats_empty (reuse_quarantine_stats s))) [
        | inl empty ↦ rw empty sound
        | inr retired ↦ rw retired (quarantine_generation-IsSound s (some generation) sound)
      ])
    ]

acknowledge-IsSound :
    (s : SequencePageTable) (generation : ℕ)
    → IsSound s
    → IsSound (acknowledge_reuse_quarantine s generation).0
unfolding acknowledge_reuse_quarantine
acknowledge-IsSound s generation sound =
    elim (Bool-cases (bound_to s.quarantine_generation generation)) [
      | inl bound ↦ rw bound (reuse_retired-IsSound s sound)
      | inr other ↦ rw other sound
    ]

new_table-IsSound : (c : PageTableConfig) → Ensures IsSound (new_table c)
unfolding new_table
new_table-IsSound c =
    guard-Ensures (not (table_config_valid c)) config_error
      (λ h. Ensures.returned (empty_table-IsSound c))

kept :
    (s : SequencePageTable) (call : TableCall)
    → is_quarantine_call call ≡ false
    → IsSound s
    → IsSound (perform s call)
kept s call other sound =
    Keeps-IsSound s (perform s call) (perform-Keeps s call sound.ordered other) sound

pub perform-IsSound :
    (s : SequencePageTable) (call : TableCall) → IsSound s → IsSound (perform s call)
unfolding perform
perform-IsSound s (TableCall.bind generation) sound = bind-IsSound s generation sound
perform-IsSound s (TableCall.acknowledge generation) sound = acknowledge-IsSound s generation sound
perform-IsSound s (TableCall.enter id mtp attachments) sound =
    kept s (TableCall.enter id mtp attachments) refl sound
perform-IsSound s (TableCall.fork source destination) sound =
    kept s (TableCall.fork source destination) refl sound
perform-IsSound s (TableCall.append id tokens) sound =
    kept s (TableCall.append id tokens) refl sound
perform-IsSound s (TableCall.reserve id tokens) sound =
    kept s (TableCall.reserve id tokens) refl sound
perform-IsSound s (TableCall.commit id tokens) sound =
    kept s (TableCall.commit id tokens) refl sound
perform-IsSound s (TableCall.rollback id) sound = kept s (TableCall.rollback id) refl sound
perform-IsSound s (TableCall.remove id) sound = kept s (TableCall.remove id) refl sound

pub run_calls-IsSound :
    (s : SequencePageTable) (calls : List TableCall) → IsSound s → IsSound (run s calls)
unfolding run
run_calls-IsSound s [] sound = sound
run_calls-IsSound s (call ∷ calls) sound =
    run_calls-IsSound (perform s call) calls (perform-IsSound s call sound)

-- After any calls on a new table, each target identifier below the configured count is in one of the
-- free pages, the retired pages and the pages in use of each rank, once, and no other identifier is in
-- any; every page records as many references as the sequences' lists name it, at least one.
pub run-IsSound :
    (c : PageTableConfig) (s : SequencePageTable) (calls : List TableCall)
    → new_table c ≡ ok s
    → IsSound (run s calls)
run-IsSound c s calls made = run_calls-IsSound s calls (Ensures-eq_ok (new_table-IsSound c) made)
