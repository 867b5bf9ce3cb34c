-- ===== src/Cache/Sequence/History.antt =====
-- Histories of the page table: crates/glm-cache/src/sequence.rs. A history is a list of calls of the
-- public methods that change the table; a call that fails leaves the table as it was.
pub mod Sound
pub mod Pages
pub mod Reuse
pub mod Reclaim
use glmaxx.Base.{
  ℕ, zero, suc, ◌+◌, ◌≤◌, ◌≡◌, refl, ap, sym, ◌∙◌, subst, inl, inr, Bool, true, false, ◌||◌, List,
  [], ◌∷◌, length, Memᴰ, Option, none, some, ltb, ◌==◌, if◌then◌else◌, is_some, ok, err, or_fail,
  Bool-cases, All, arith,
}
use glmaxx.Base.Ensures.{
  Ensures, bind-Ensures, or_fail-Ensures, if-Ensures, guard-Ensures, Ensures-mono, any-Ensures,
}
use glmaxx.Base.Maps.{find, Ascending}
use glmaxx.Cache.Sequence.{
  PhysicalPageId, PhysicalPage, PageTableConfig, PrefixPageAttachment, SequencePage, Sequence,
  SequencePageTable, SequencePageError, sequence_error, transaction_error, Outcome, maximum_pages,
}
use glmaxx.Cache.Sequence.Store.{lookup_page}
use glmaxx.Cache.Sequence.Quarantine.{
  transact, when_unbound, new_table, table_config_valid, bind_reuse_quarantine, reuse_retired,
  bound_to, acknowledge_reuse_quarantine, range, reuse_quarantine_stats, stats_empty,
}
use glmaxx.Cache.Sequence.Attach.{
  admit_with_prefix, admit_inner, fork_sequence, fork_from, fork_inner, attach_pages, fork_pages,
  enter_sequence,
}
use glmaxx.Cache.Sequence.Append.{append_committed, append_inner}
use glmaxx.Cache.Sequence.Tentative.{
  begin_tentative, begin_inner, commit_tentative, commit_inner, rollback_tentative, rollback_inner,
  remove_sequence, remove_inner,
}
use glmaxx.Cache.Sequence.Account.Maps.{
  occurrences, occurrences-range, occurrences-set_append, present, summed, le-summed,
}
use glmaxx.Cache.Sequence.Account.Step.{
  recorded, mark, listed, mentions, held, Step, Step-trans, Step-refl, nothing,
}
use glmaxx.Cache.Sequence.Account.Allocate.{missing}
use glmaxx.Cache.Sequence.Account.Listed.{enter-Step}
use glmaxx.Cache.Sequence.Account.Attached.{attach_pages-Step, fork_pages-Step}
use glmaxx.Cache.Sequence.Account.Grown.{Keeps, append_inner-Keeps, begin_inner-Keeps}
use glmaxx.Cache.Sequence.Account.Settled.{
  rollback_inner-Keeps, commit_inner-Keeps, remove_inner-Keeps,
}

pub data TableCall : Type 0 where
  enter : ℕ → Bool → List PrefixPageAttachment → TableCall
  fork : ℕ → ℕ → TableCall
  append : ℕ → ℕ → TableCall
  reserve : ℕ → ℕ → TableCall
  commit : ℕ → ℕ → TableCall
  rollback : ℕ → TableCall
  remove : ℕ → TableCall
  bind : ℕ → TableCall
  acknowledge : ℕ → TableCall

-- The table that a call leaves.
unfoldable pub perform : SequencePageTable → TableCall → SequencePageTable
perform s (TableCall.enter id mtp attachments) = (admit_with_prefix s id mtp attachments).0
perform s (TableCall.fork source destination) = (fork_sequence s source destination).0
perform s (TableCall.append id tokens) = (append_committed s id tokens).0
perform s (TableCall.reserve id tokens) = (begin_tentative s id tokens).0
perform s (TableCall.commit id tokens) = (commit_tentative s id tokens).0
perform s (TableCall.rollback id) = (rollback_tentative s id).0
perform s (TableCall.remove id) = (remove_sequence s id).0
perform s (TableCall.bind generation) = (bind_reuse_quarantine s generation).0
perform s (TableCall.acknowledge generation) = (acknowledge_reuse_quarantine s generation).0

unfoldable pub run : SequencePageTable → List TableCall → SequencePageTable
run s [] = s
run s (call ∷ calls) = run (perform s call) calls

module _ (s : SequencePageTable) where
  transact-Keeps : {r : Outcome SequencePageTable} → Ensures (Keeps s) r → Keeps s (transact s r).0
  unfolding transact
  transact-Keeps (Ensures.returned step) = step
  transact-Keeps Ensures.failed = Step-refl s

  when_unbound-Keeps :
      {r : Outcome SequencePageTable}
      → Ensures (Keeps s) r
      → Keeps s (transact s (when_unbound s r)).0
  unfolding when_unbound
  when_unbound-Keeps h =
      transact-Keeps (guard-Ensures (is_some s.quarantine_generation) transaction_error (λ k. h))

  pub admit_with_prefix-Keeps :
      (id : ℕ) (mtp : Bool) (attachments : List PrefixPageAttachment)
      → Keeps s (admit_with_prefix s id mtp attachments).0
  unfolding admit_with_prefix admit_inner
  admit_with_prefix-Keeps id mtp attachments = when_unbound-Keeps (
      guard-Ensures
        (id == 0 || is_some (find id s.sequences) || ltb maximum_pages (length attachments))
        sequence_error
        (λ guards.
          bind-Ensures (attach_pages-Step s mtp 0 [] attachments) (λ (t, pages) (step, sequences).
            Ensures.returned (
              Step-trans step
                (enter-Step t id _
                  (ap (find id) sequences ∙ missing (find id s.sequences) (ground arith)))
                (λ p. omega arith)))))

  fork_from-Keeps :
      (source : Option Sequence) (id : ℕ)
      → find id s.sequences ≡ none
      → Ensures (Keeps s) (fork_from s source id)
  unfolding fork_from fork_inner
  fork_from-Keeps none id new = Ensures.failed
  fork_from-Keeps (some source) id new =
      guard-Ensures (is_some source.tentative) transaction_error (λ idle.
        bind-Ensures (fork_pages-Step s source.mtp source.pages) (λ (t, pages) (step, sequences).
          Ensures.returned (
            Step-trans step (enter-Step t id _ (ap (find id) sequences ∙ new)) (λ p. omega arith))))

  fork_sequence-Keeps : (source destination : ℕ) → Keeps s (fork_sequence s source destination).0
  unfolding fork_sequence
  fork_sequence-Keeps source destination = when_unbound-Keeps (
      guard-Ensures (destination == 0 || is_some (find destination s.sequences)) sequence_error
        (λ guards.
          fork_from-Keeps (find source s.sequences) destination
            (missing (find destination s.sequences) (ground arith))))

  append_committed-Keeps : (id tokens : ℕ) → Keeps s (append_committed s id tokens).0
  unfolding append_committed
  append_committed-Keeps id tokens = when_unbound-Keeps (
      if-Ensures (tokens == 0) (λ h. Ensures.returned (Step-refl s))
        (λ h. append_inner-Keeps s id tokens))

  begin_tentative-Keeps : (id tokens : ℕ) → Keeps s (begin_tentative s id tokens).0
  unfolding begin_tentative
  begin_tentative-Keeps id tokens = when_unbound-Keeps (
      guard-Ensures (tokens == 0 || ltb 7 tokens) transaction_error (λ h.
        bind-Ensures (any-Ensures (or_fail (find id s.sequences) sequence_error))
          (λ q k. begin_inner-Keeps s id tokens q)))

  commit_tentative-Keeps : (id tokens : ℕ) → Keeps s (commit_tentative s id tokens).0
  unfolding commit_tentative
  commit_tentative-Keeps id tokens = when_unbound-Keeps (
      bind-Ensures (any-Ensures (or_fail (find id s.sequences) transaction_error)) (λ q h.
        bind-Ensures (any-Ensures (or_fail q.tentative transaction_error))
          (λ tail k. commit_inner-Keeps s id q tail tokens)))

  rollback_tentative-Keeps : (id : ℕ) → Keeps s (rollback_tentative s id).0
  unfolding rollback_tentative
  rollback_tentative-Keeps id = when_unbound-Keeps (rollback_inner-Keeps s id)

  remove_sequence-Keeps : (id : ℕ) → Ascending 0 s.sequences → Keeps s (remove_sequence s id).0
  unfolding remove_sequence
  remove_sequence-Keeps id order = when_unbound-Keeps (remove_inner-Keeps s id order)

-- The calls that neither bind nor acknowledge a generation.
abbrev pub is_quarantine_call : TableCall → Bool
is_quarantine_call (TableCall.bind generation) = true
is_quarantine_call (TableCall.acknowledge generation) = true
is_quarantine_call (TableCall.enter id mtp attachments) = false
is_quarantine_call (TableCall.fork source destination) = false
is_quarantine_call (TableCall.append id tokens) = false
is_quarantine_call (TableCall.reserve id tokens) = false
is_quarantine_call (TableCall.commit id tokens) = false
is_quarantine_call (TableCall.rollback id) = false
is_quarantine_call (TableCall.remove id) = false

-- Every other call keeps the balance of the table.
pub perform-Keeps :
    (s : SequencePageTable) (call : TableCall)
    → Ascending 0 s.sequences
    → is_quarantine_call call ≡ false
    → Keeps s (perform s call)
unfolding perform
perform-Keeps s (TableCall.enter id mtp attachments) order h =
    admit_with_prefix-Keeps s id mtp attachments
perform-Keeps s (TableCall.fork source destination) order h =
    fork_sequence-Keeps s source destination
perform-Keeps s (TableCall.append id tokens) order h = append_committed-Keeps s id tokens
perform-Keeps s (TableCall.reserve id tokens) order h = begin_tentative-Keeps s id tokens
perform-Keeps s (TableCall.commit id tokens) order h = commit_tentative-Keeps s id tokens
perform-Keeps s (TableCall.rollback id) order h = rollback_tentative-Keeps s id
perform-Keeps s (TableCall.remove id) order h = remove_sequence-Keeps s id order
perform-Keeps s (TableCall.bind generation) order h = cc
perform-Keeps s (TableCall.acknowledge generation) order h = cc
