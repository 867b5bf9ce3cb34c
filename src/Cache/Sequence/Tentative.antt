-- ===== src/Cache/Sequence/Tentative.antt =====
-- Tentative tails, and the removal of sequences: crates/glm-cache/src/sequence.rs, `begin_tentative`,
-- `commit_tentative`, `rollback_tentative` and `remove_sequence`.
use glmaxx.Base.{
  ℕ, zero, suc, ◌+◌, ◌-◌, ◌/◌, ◌%◌, Bool, true, false, ◌&&◌, ◌||◌, not, List, [], ◌∷◌, length,
  Option, none, some, ltb, ◌==◌, if◌then◌else◌, is_some, Result, ok, err, or_fail, ◌>>=◌,
  checked_add, checked_sub, u8_max,
}
use glmaxx.Base.Maps.{find}
use glmaxx.Cache.Budget.{page_tokens}
use glmaxx.Cache.Page.{PageState, hbm_mutable, hbm_tentative, hbm_sealed}
use glmaxx.Cache.Sequence.{
  PhysicalPage, SequencePage, TentativeTail, Sequence, SequencePageError, state_error,
  transaction_error, invariant_error, sequence_error, overflow, SequencePageTable, Outcome,
  maximum_context_tokens,
}
use glmaxx.Cache.Sequence.Append.{get_last?, set_sequence, push_page, with_tokens, grown_tokens}
use glmaxx.Cache.Sequence.Attach.{state_eq, is_full}
use glmaxx.Cache.Sequence.Quarantine.{transact, when_unbound}
use glmaxx.Cache.Sequence.Store.{
  erase, lookup_page, put_page, move_page, allocate_page, release_page,
}

abbrev pub with_tentative : Option TentativeTail → Sequence → Sequence
with_tentative tail q = record q { tentative = tail }

-- Whether the last page is full, or there is none.
unfoldable pub needs_page : SequencePageTable → Option SequencePage → Outcome Bool
needs_page s none = ok true
needs_page s (some e) = do
  page ← or_fail (lookup_page s e.physical) invariant_error
  ok (page.valid_tokens == page_tokens)

-- A new page at the end of the sequence, where one is needed.
unfoldable pub ensure_page : SequencePageTable → ℕ → Sequence → Bool → Outcome SequencePageTable
ensure_page s id q false = ok s
ensure_page s id q true = do
  (allocated, p) ← allocate_page s (length q.pages) q.mtp
  ok (set_sequence id (push_page (record { ordinal = length q.pages; physical = p })) allocated)

unfoldable pub make_tentative : PhysicalPage → Outcome PhysicalPage
make_tentative page =
    if not (page.references == 1)
      || not (state_eq page.state hbm_mutable || state_eq page.state hbm_tentative)
    then err state_error
    else if state_eq page.state hbm_mutable
    then move_page page hbm_tentative
    else ok page

-- One more token in the last page.
unfoldable pub reserve_in : SequencePageTable → SequencePage → Outcome SequencePageTable
reserve_in s e = do
  page ← or_fail (lookup_page s e.physical) invariant_error
  tentative ← make_tentative page
  tokens ← or_fail (checked_add u8_max tentative.valid_tokens 1) overflow
  ok (put_page e.physical (record tentative { valid_tokens = tokens }) s)

unfoldable pub reserve_token : SequencePageTable → ℕ → Outcome SequencePageTable
reserve_token s id = do
  q ← or_fail (find id s.sequences) sequence_error
  needed ← needs_page s (get_last? q.pages)
  ensured ← ensure_page s id q needed
  q' ← or_fail (find id ensured.sequences) sequence_error
  e ← or_fail (get_last? q'.pages) invariant_error
  reserve_in ensured e

-- `reserve_tentative`.
unfoldable pub reserve_tentative : SequencePageTable → ℕ → ℕ → Outcome SequencePageTable
reserve_tentative s id zero = ok s
reserve_tentative s id (suc n) = do reserved ← reserve_token s id; reserve_tentative reserved id n

-- The tokens of the last page, none where there is no page.
unfoldable pub tail_tokens : SequencePageTable → Option SequencePage → ℕ
tail_tokens s none = 0
tail_tokens s (some e) = elim (lookup_page s e.physical) [
  | none ↦ 0
  | some page ↦ page.valid_tokens
]

unfoldable pub begin_inner : SequencePageTable → ℕ → ℕ → Sequence → Outcome SequencePageTable
begin_inner s id requested q =
    if is_some q.tentative || ltb maximum_context_tokens (q.committed_tokens + requested)
    then err transaction_error
    else (reserve_tentative s id requested >>= λ reserved. ok (
        set_sequence id
          (with_tentative (
            some (record {
              original_committed_tokens = q.committed_tokens;
              original_page_count = length q.pages;
              original_tail_tokens = tail_tokens s (get_last? q.pages);
              reserved_tokens = requested;
            })))
          reserved))

-- `begin_tentative`.
unfoldable pub begin_tentative :
    SequencePageTable → ℕ → ℕ → SequencePageTable × Result SequencePageError (Unit {0})
begin_tentative s id requested = transact s (
    when_unbound s (
      if requested == 0 || ltb 7 requested
      then err transaction_error
      else (or_fail (find id s.sequences) sequence_error >>= begin_inner s id requested)))

abbrev pub drop_last : List SequencePage → List SequencePage
drop_last [] = []
drop_last (e ∷ []) = []
drop_last (e ∷ f ∷ es) = e ∷ drop_last (f ∷ es)

-- Pops the last page of a sequence and releases it.
unfoldable pub pop_page : SequencePageTable → ℕ → Outcome SequencePageTable
pop_page s id = do
  q ← or_fail (find id s.sequences) sequence_error
  e ← or_fail (get_last? q.pages) invariant_error
  release_page (set_sequence id (λ r. record r { pages = drop_last r.pages }) s) e.physical

unfoldable pub pop_pages : SequencePageTable → ℕ → ℕ → Outcome SequencePageTable
pop_pages s id zero = ok s
pop_pages s id (suc n) = do popped ← pop_page s id; pop_pages popped id n

-- The tail page as it was before the tentative tokens.
unfoldable pub restore_page_tokens : PhysicalPage → ℕ → Outcome PhysicalPage
restore_page_tokens page tokens =
    if state_eq page.state hbm_tentative
    then (move_page page hbm_mutable >>= λ moved. ok (record moved { valid_tokens = tokens }))
    else if is_full page
    then ok page
    else err state_error

unfoldable pub restore_tail : SequencePageTable → ℕ → TentativeTail → Outcome SequencePageTable
restore_tail s id tail =
    if tail.original_page_count == 0
    then ok s
    else (or_fail (find id s.sequences) sequence_error >>= λ q.
        or_fail (get_last? q.pages) invariant_error >>= λ e.
        or_fail (lookup_page s e.physical) invariant_error >>= λ page.
        restore_page_tokens page tail.original_tail_tokens >>= λ restored.
        ok (put_page e.physical restored s))

unfoldable pub rollback_tail :
    SequencePageTable → ℕ → Sequence → TentativeTail → Outcome SequencePageTable
rollback_tail s id q tail = do
  extra ← or_fail (checked_sub (length q.pages) tail.original_page_count) invariant_error
  popped ← pop_pages (set_sequence id (with_tentative none) s) id extra
  restored ← restore_tail popped id tail
  ok (set_sequence id (with_tokens tail.original_committed_tokens) restored)

-- `rollback_tentative_inner`.
unfoldable pub rollback_inner : SequencePageTable → ℕ → Outcome SequencePageTable
rollback_inner s id = do
  q ← or_fail (find id s.sequences) transaction_error
  tail ← or_fail q.tentative transaction_error
  rollback_tail s id q tail

-- `rollback_tentative`.
unfoldable pub rollback_tentative :
    SequencePageTable → ℕ → SequencePageTable × Result SequencePageError (Unit {0})
rollback_tentative s id = transact s (when_unbound s (rollback_inner s id))

-- The tokens of the page at an ordinal, of so many pages, once so many tokens are committed.
unfoldable pub expected_valid : ℕ → ℕ → ℕ → ℕ
expected_valid tokens desired ordinal =
    if ordinal + 1 == desired && not (tokens % page_tokens == 0)
    then tokens % page_tokens
    else page_tokens

unfoldable pub expected_state : ℕ → PageState
expected_state valid = if valid == page_tokens then hbm_sealed else hbm_mutable

unfoldable pub settle_page : PhysicalPage → ℕ → Outcome PhysicalPage
settle_page page valid =
    if state_eq page.state hbm_tentative
    then (move_page page (expected_state valid) >>= λ moved.
        ok (record moved { valid_tokens = valid }))
    else if state_eq page.state (expected_state valid) && page.valid_tokens == valid
    then ok page
    else err state_error

-- The loop over the pages that stay, from an ordinal.
unfoldable pub settle_pages :
    SequencePageTable → ℕ → ℕ → ℕ → List SequencePage → Outcome SequencePageTable
settle_pages s tokens desired ordinal [] = ok s
settle_pages s tokens desired ordinal (e ∷ es) = do
  page ← or_fail (lookup_page s e.physical) invariant_error
  settled ← settle_page page (expected_valid tokens desired ordinal)
  settle_pages (put_page e.physical settled s) tokens desired (ordinal + 1) es

unfoldable pub commit_pages : SequencePageTable → ℕ → Sequence → ℕ → ℕ → Outcome SequencePageTable
commit_pages s id q tokens desired =
    if ltb (length q.pages) desired
    then err invariant_error
    else (pop_pages (set_sequence id (with_tentative none) s) id (length q.pages - desired)
        >>= λ popped. or_fail (find id popped.sequences) sequence_error >>= λ r.
            settle_pages popped tokens desired 0 r.pages >>= λ settled.
            ok (set_sequence id (with_tokens tokens) settled))

-- `commit_tentative_inner`, for the transaction that the sequence still holds.
unfoldable pub commit_inner :
    SequencePageTable → ℕ → Sequence → TentativeTail → ℕ → Outcome SequencePageTable
commit_inner s id q tail committed =
    if committed == 0 || ltb tail.reserved_tokens committed
    then err transaction_error
    else (grown_tokens tail.original_committed_tokens committed >>= λ tokens.
        commit_pages s id q tokens ((tokens + 63) / page_tokens))

-- `commit_tentative`.
unfoldable pub commit_tentative :
    SequencePageTable → ℕ → ℕ → SequencePageTable × Result SequencePageError (Unit {0})
commit_tentative s id committed = transact s (
    when_unbound s (
      or_fail (find id s.sequences) transaction_error >>= λ q.
      or_fail q.tentative transaction_error >>= λ tail. commit_inner s id q tail committed))

-- Releases pages, the last one first.
unfoldable pub release_pages : SequencePageTable → List SequencePage → Outcome SequencePageTable
release_pages s [] = ok s
release_pages s (e ∷ es) = do released ← release_pages s es; release_page released e.physical

unfoldable pub remove_inner : SequencePageTable → ℕ → Outcome SequencePageTable
remove_inner s id = do
  q ← or_fail (find id s.sequences) sequence_error
  idle ← if is_some q.tentative then err transaction_error else ok (tt {0})
  release_pages (record s { sequences = erase id s.sequences }) q.pages

-- `remove_sequence`.
unfoldable pub remove_sequence :
    SequencePageTable → ℕ → SequencePageTable × Result SequencePageError (Unit {0})
remove_sequence s id = transact s (when_unbound s (remove_inner s id))
