-- ===== src/Cache/Sequence/Account/Settled.antt =====
-- The balance when a tentative tail is settled and when a sequence is removed:
-- crates/glm-cache/src/sequence.rs, `commit_tentative`, `rollback_tentative` and `remove_sequence`.
use glmaxx.Base.{
  ℕ, zero, suc, ◌+◌, ◌-◌, ◌/◌, refl, ◌&&◌, ◌||◌, List, [], ◌∷◌, length, none, ltb, ◌==◌,
  if◌then◌else◌, is_some, ok, err, or_fail, checked_sub, arith,
}
use glmaxx.Base.Ensures.{
  Ensures, bind-Ensures, or_fail-Ensures, if-Ensures, guard-Ensures, Ensures-mono, any-Ensures,
}
use glmaxx.Base.Maps.{find, Ascending}
use glmaxx.Cache.Budget.{page_tokens}
use glmaxx.Cache.Page.{hbm_mutable, hbm_tentative}
use glmaxx.Cache.Sequence.{
  PhysicalPage, SequencePage, TentativeTail, Sequence, SequencePageTable, sequence_error,
  transaction_error, invariant_error,
}
use glmaxx.Cache.Sequence.Store.{erase, lookup_page, put_page}
use glmaxx.Cache.Sequence.Attach.{state_eq, is_full}
use glmaxx.Cache.Sequence.Append.{get_last?, set_sequence, with_tokens, grown_tokens}
use glmaxx.Cache.Sequence.Tentative.{
  with_tentative, drop_last, pop_page, pop_pages, restore_page_tokens, restore_tail, rollback_tail,
  rollback_inner, expected_valid, expected_state, settle_page, settle_pages, commit_pages,
  commit_inner, release_pages, remove_inner,
}
use glmaxx.Cache.Sequence.Account.Step.{
  listed, Step, Step-trans, Step-refl, after_quiet, before_quiet, nothing,
}
use glmaxx.Cache.Sequence.Account.Pages.{keep-Step}
use glmaxx.Cache.Sequence.Account.Allocate.{move_page-references}
use glmaxx.Cache.Sequence.Account.Release.{release_page-Step}
use glmaxx.Cache.Sequence.Account.Listed.{
  listed-drop_last, set_sequence-Step, same_pages-Step, erase-Step,
}
use glmaxx.Cache.Sequence.Account.Grown.{Keeps, SameReferences}

pop_page-Keeps : (s : SequencePageTable) (id : ℕ) → Ensures (Keeps s) (pop_page s id)
unfolding pop_page
pop_page-Keeps s id =
    bind-Ensures (or_fail-Ensures (find id s.sequences) sequence_error) (λ q found.
      bind-Ensures (or_fail-Ensures (get_last? q.pages) invariant_error) (λ e last.
        let popped = set_sequence id (λ r. record r { pages = drop_last r.pages }) s in
        Ensures-mono (release_page-Step popped e.physical) (λ t (step, sequences).
          Step-trans (set_sequence-Step s id (λ r. record r { pages = drop_last r.pages }) q found)
            step (λ p. let dropped = listed-drop_last p q.pages last in omega arith))))

pop_pages-Keeps : (s : SequencePageTable) (id n : ℕ) → Ensures (Keeps s) (pop_pages s id n)
unfolding pop_pages
pop_pages-Keeps s id zero = Ensures.returned (Step-refl s)
pop_pages-Keeps s id (suc n) =
    bind-Ensures (pop_page-Keeps s id) (λ popped step.
      Ensures-mono (pop_pages-Keeps popped id n) (λ t steps. after_quiet step steps))

restore_page_tokens-references :
    (page : PhysicalPage) (tokens : ℕ)
    → Ensures (SameReferences page) (restore_page_tokens page tokens)
unfolding restore_page_tokens
restore_page_tokens-references page tokens =
    if-Ensures (state_eq page.state hbm_tentative)
      (λ h.
        bind-Ensures (move_page-references page hbm_mutable) (λ moved same. Ensures.returned same))
      (λ h. if-Ensures (is_full page) (λ k. Ensures.returned refl) (λ k. Ensures.failed))

restore_tail-Keeps :
    (s : SequencePageTable) (id : ℕ) (tail : TentativeTail)
    → Ensures (Keeps s) (restore_tail s id tail)
unfolding restore_tail
restore_tail-Keeps s id tail =
    if-Ensures (tail.original_page_count == 0) (λ h. Ensures.returned (Step-refl s))
      (λ h. bind-Ensures (any-Ensures (or_fail (find id s.sequences) sequence_error)) (λ q k.
        bind-Ensures (any-Ensures (or_fail (get_last? q.pages) invariant_error)) (λ e l.
          bind-Ensures (or_fail-Ensures (lookup_page s e.physical) invariant_error) (λ page found.
            bind-Ensures (restore_page_tokens-references page tail.original_tail_tokens)
              (λ restored same.
                Ensures.returned (keep-Step s e.physical page restored found same))))))

-- The end of the transaction: the tail is gone and the tokens are set.
closed-Keeps :
    {s t : SequencePageTable} (id tokens : ℕ)
    → Keeps (set_sequence id (with_tentative none) s) t
    → Keeps s (set_sequence id (with_tokens tokens) t)
closed-Keeps {s} {t} id tokens step =
    before_quiet (after_quiet (same_pages-Step s id (with_tentative none) (λ q. refl)) step)
      (same_pages-Step t id (with_tokens tokens) (λ q. refl))

pub rollback_inner-Keeps :
    (s : SequencePageTable) (id : ℕ) → Ensures (Keeps s) (rollback_inner s id)
unfolding rollback_inner rollback_tail
rollback_inner-Keeps s id =
    bind-Ensures (any-Ensures (or_fail (find id s.sequences) transaction_error)) (λ q h.
      bind-Ensures (any-Ensures (or_fail q.tentative transaction_error)) (λ tail k.
        bind-Ensures
          (any-Ensures
            (or_fail (checked_sub (length q.pages) tail.original_page_count) invariant_error))
          (λ extra l.
            bind-Ensures (pop_pages-Keeps (set_sequence id (with_tentative none) s) id extra)
              (λ popped step. bind-Ensures (restore_tail-Keeps popped id tail) (λ restored last.
                Ensures.returned
                  (closed-Keeps id tail.original_committed_tokens (after_quiet step last)))))))

settle_page-references :
    (page : PhysicalPage) (valid : ℕ) → Ensures (SameReferences page) (settle_page page valid)
unfolding settle_page
settle_page-references page valid =
    if-Ensures (state_eq page.state hbm_tentative)
      (λ h.
        bind-Ensures (move_page-references page (expected_state valid))
          (λ moved same. Ensures.returned same))
      (λ h.
        if-Ensures (state_eq page.state (expected_state valid) && page.valid_tokens == valid)
          (λ k. Ensures.returned refl) (λ k. Ensures.failed))

settle_pages-Keeps :
    (s : SequencePageTable) (tokens desired ordinal : ℕ) (es : List SequencePage)
    → Ensures (Keeps s) (settle_pages s tokens desired ordinal es)
unfolding settle_pages
settle_pages-Keeps s tokens desired ordinal [] = Ensures.returned (Step-refl s)
settle_pages-Keeps s tokens desired ordinal (e ∷ es) =
    bind-Ensures (or_fail-Ensures (lookup_page s e.physical) invariant_error) (λ page found.
      bind-Ensures (settle_page-references page (expected_valid tokens desired ordinal))
        (λ settled same.
          Ensures-mono
            (settle_pages-Keeps (put_page e.physical settled s) tokens desired (ordinal + 1) es)
            (λ t steps. after_quiet (keep-Step s e.physical page settled found same) steps)))

pub commit_inner-Keeps :
    (s : SequencePageTable) (id : ℕ) (q : Sequence) (tail : TentativeTail) (committed : ℕ)
    → Ensures (Keeps s) (commit_inner s id q tail committed)
unfolding commit_inner commit_pages
commit_inner-Keeps s id q tail committed =
    guard-Ensures (committed == 0 || ltb tail.reserved_tokens committed) transaction_error (λ h.
      bind-Ensures (any-Ensures (grown_tokens tail.original_committed_tokens committed))
        (λ tokens k.
          guard-Ensures (ltb (length q.pages) ((tokens + 63) / page_tokens)) invariant_error (λ l.
            bind-Ensures
              (pop_pages-Keeps (set_sequence id (with_tentative none) s) id
                (length q.pages - (tokens + 63) / page_tokens))
              (λ popped step.
                bind-Ensures (any-Ensures (or_fail (find id popped.sequences) sequence_error))
                  (λ r m.
                    bind-Ensures
                      (settle_pages-Keeps popped tokens ((tokens + 63) / page_tokens) 0 r.pages)
                      (λ settled steps.
                        Ensures.returned (closed-Keeps id tokens (after_quiet step steps))))))))

release_pages-Step :
    (s : SequencePageTable) (es : List SequencePage)
    → Ensures (Step nothing (λ p. listed p es) s) (release_pages s es)
unfolding release_pages listed
release_pages-Step s [] = Ensures.returned (Step-refl s)
release_pages-Step s (e ∷ es) = bind-Ensures (release_pages-Step s es) (λ released steps.
    Ensures-mono (release_page-Step released e.physical)
      (λ t (step, sequences). Step-trans steps step (λ p. omega arith)))

pub remove_inner-Keeps :
    (s : SequencePageTable) (id : ℕ)
    → Ascending 0 s.sequences
    → Ensures (Keeps s) (remove_inner s id)
unfolding remove_inner
remove_inner-Keeps s id order =
    bind-Ensures (or_fail-Ensures (find id s.sequences) sequence_error) (λ q found.
      bind-Ensures
        (any-Ensures (if is_some q.tentative then err transaction_error else ok (tt {0})))
        (λ idle h.
          Ensures-mono (release_pages-Step (record s { sequences = erase id s.sequences }) q.pages)
            (λ t steps. Step-trans (erase-Step s id q order found) steps (λ p. omega arith))))
