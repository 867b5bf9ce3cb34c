-- ===== src/Cache/Sequence/Append.antt =====
-- Appending committed tokens to a sequence: crates/glm-cache/src/sequence.rs, `append_committed`.
use glmaxx.Base.{
  ℕ, zero, suc, ◌+◌, ◌-◌, min, ◌&&◌, not, List, [], ◌∷◌, ◌++◌, length, Option, none, some, ltb,
  ◌==◌, if◌then◌else◌, is_some, Result, ok, err, or_fail, ◌>>=◌,
}
use glmaxx.Base.Maps.{find, adjust}
use glmaxx.Cache.Budget.{page_tokens}
use glmaxx.Cache.Page.{hbm_mutable, hbm_sealed}
use glmaxx.Cache.Sequence.{
  PhysicalPageId, PhysicalPage, SequencePage, Sequence, SequencePageError, state_error,
  transaction_error, invariant_error, sequence_error, SequencePageTable, Outcome,
  maximum_context_tokens,
}
use glmaxx.Cache.Sequence.Attach.{state_eq, is_full}
use glmaxx.Cache.Sequence.Quarantine.{transact, when_unbound}
use glmaxx.Cache.Sequence.Store.{lookup_page, put_page, move_page, allocate_page}

abbrev pub get_last? : List SequencePage → Option SequencePage
get_last? [] = none
get_last? (e ∷ []) = some e
get_last? (e ∷ f ∷ es) = get_last? (f ∷ es)

-- A change of a sequence through a reference.
unfoldable pub set_sequence : ℕ → (Sequence → Sequence) → SequencePageTable → SequencePageTable
set_sequence id f s = record s { sequences = adjust id f s.sequences }

abbrev pub push_page : SequencePage → Sequence → Sequence
push_page e q = record q { pages = q.pages ++ (e ∷ []) }

abbrev pub with_tokens : ℕ → Sequence → Sequence
with_tokens n q = record q { committed_tokens = n }

-- A sequence's tokens after more are added, within the context.
unfoldable pub grown_tokens : ℕ → ℕ → Outcome ℕ
grown_tokens committed more =
    if ltb maximum_context_tokens (committed + more)
    then err transaction_error
    else ok (committed + more)

-- A page that is sealed once it is full.
unfoldable pub seal_if_full : PhysicalPage → Outcome PhysicalPage
seal_if_full page = if page.valid_tokens == page_tokens then move_page page hbm_sealed else ok page

-- The tokens that fit in the tail page, written into it; what remains.
unfoldable pub fill_page :
    SequencePageTable → PhysicalPageId → PhysicalPage → ℕ → Outcome (SequencePageTable × ℕ)
fill_page s p page remaining =
    if state_eq page.state hbm_mutable && page.references == 1 && ltb page.valid_tokens page_tokens
    then (let appended = min remaining (page_tokens - page.valid_tokens) in
        seal_if_full (record page { valid_tokens = page.valid_tokens + appended }) >>= λ sealed.
        ok (put_page p sealed s, remaining - appended))
    else if not (is_full page)
    then err state_error
    else ok (s, remaining)

unfoldable pub fill_tail :
    SequencePageTable → Option SequencePage → ℕ → Outcome (SequencePageTable × ℕ)
fill_tail s none remaining = ok (s, remaining)
fill_tail s (some e) remaining = do
  page ← or_fail (lookup_page s e.physical) invariant_error
  fill_page s e.physical page remaining

-- A new page at the end of a sequence, for as many of the tokens as it holds.
unfoldable pub grow_page : SequencePageTable → ℕ → Sequence → ℕ → Outcome SequencePageTable
grow_page s id q remaining = do
  (allocated, p) ← allocate_page s (length q.pages) q.mtp
  page ← or_fail (lookup_page allocated p) invariant_error
  sealed ← seal_if_full (record page { valid_tokens = min remaining page_tokens })
  ok (
      set_sequence id (push_page (record { ordinal = length q.pages; physical = p }))
        (put_page p sealed allocated))

-- The loop while tokens remain, each round at least one; the fuel is the number that remained at first.
unfoldable pub append_pages : ℕ → SequencePageTable → ℕ → ℕ → Outcome SequencePageTable
append_pages fuel s id zero = ok s
append_pages zero s id (suc n) = err invariant_error
append_pages (suc fuel) s id (suc n) = do
  q ← or_fail (find id s.sequences) sequence_error
  grown ← grow_page s id q (suc n)
  append_pages fuel grown id (suc n - min (suc n) page_tokens)

unfoldable pub append_to : SequencePageTable → ℕ → Sequence → ℕ → Outcome SequencePageTable
append_to s id q token_count = do
  tokens ← grown_tokens q.committed_tokens token_count
  idle ← if is_some q.tentative then err transaction_error else ok (tt {0})
  (filled, remaining) ← fill_tail s (get_last? q.pages) token_count
  appended ← append_pages remaining filled id remaining
  ok (set_sequence id (with_tokens tokens) appended)

-- `append_committed_inner`.
unfoldable pub append_inner : SequencePageTable → ℕ → ℕ → Outcome SequencePageTable
append_inner s id token_count = do
  q ← or_fail (find id s.sequences) sequence_error
  append_to s id q token_count

-- `append_committed`.
unfoldable pub append_committed :
    SequencePageTable → ℕ → ℕ → SequencePageTable × Result SequencePageError (Unit {0})
append_committed s id token_count =
    transact s (when_unbound s (if token_count == 0 then ok s else append_inner s id token_count))
