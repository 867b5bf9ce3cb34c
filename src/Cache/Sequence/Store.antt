-- ===== src/Cache/Sequence/Store.antt =====
-- Allocating and releasing physical pages: crates/glm-cache/src/sequence.rs, `allocate_page` and
-- `release_page`. The physical pages, keyed by rank and local identifier, are a map for each rank.
use glmaxx.Base.{
  ℕ, Bool, true, false, ◌||◌, List, [], ◌∷◌, any, Option, none, some, ltb, ◌==◌, if◌then◌else◌,
  is_some, Result, ok, err, or_fail, ◌>>=◌, checked_add, checked_sub, u32_max,
}
use glmaxx.Base.Maps.{Map, find, insert, adjust}
use glmaxx.Cache.Page.{PageState, PageTransitionError, free, hbm_mutable, transition, owner_rank}
use glmaxx.Cache.Sequence.{
  PhysicalPageId, page_eq, PhysicalPage, PrefixPageAttachment, capacity_error, invariant_error,
  transition_error, overflow, set_rank, SequencePageTable, Outcome,
}

-- Removes a key; the keys of a map are distinct.
unfoldable pub erase : {V : Type 0} → ℕ → Map V → Map V
erase k [] = []
erase k ((j, v) ∷ m) = let rest = erase k m in if k == j then rest else (j, v) ∷ rest

-- `BTreeSet::insert` for an element that is not there.
unfoldable pub set_insert : ℕ → List ℕ → List ℕ
set_insert k [] = k ∷ []
set_insert k (j ∷ js) = if ltb k j then k ∷ j ∷ js else j ∷ set_insert k js

unfoldable pub set_has : List ℕ → ℕ → Bool
set_has js k = any (λ j. j == k) js

unfoldable pub lookup_page : SequencePageTable → PhysicalPageId → Option PhysicalPage
lookup_page s p = find p.target_local_page_id (s.physical p.owner_rank)

-- A write through a reference to a page that is there.
unfoldable pub put_page : PhysicalPageId → PhysicalPage → SequencePageTable → SequencePageTable
put_page p page s = record s {
  physical =
      set_rank p.owner_rank (adjust p.target_local_page_id (λ _. page) (s.physical p.owner_rank))
        s.physical;
}

unfoldable pub insert_page : PhysicalPageId → PhysicalPage → SequencePageTable → SequencePageTable
insert_page p page s = record s {
  physical =
      set_rank p.owner_rank (insert p.target_local_page_id page (s.physical p.owner_rank))
        s.physical;
}

unfoldable pub remove_page : PhysicalPageId → SequencePageTable → SequencePageTable
remove_page p s = record s {
  physical =
      set_rank p.owner_rank (erase p.target_local_page_id (s.physical p.owner_rank)) s.physical;
}

abbrev pub from_transition : {A : Type 0} → Result PageTransitionError A → Outcome A
from_transition (ok a) = ok a
from_transition (err e) = err (transition_error e)

-- `PageState::transition` on a page.
unfoldable pub move_page : PhysicalPage → PageState → Outcome PhysicalPage
move_page page next = do
  state ← from_transition (transition page.state next)
  ok (record page { state = state })

-- `BTreeSet::pop_first` on the free pages, of which there must be one.
unfoldable pub first_free : List ℕ → Outcome (ℕ × List ℕ)
first_free [] = err capacity_error
first_free (id ∷ rest) = ok (id, rest)

-- The draft page that an MTP sequence takes with a target page, and the table without it.
unfoldable pub take_draft : SequencePageTable → ℕ → Bool → Outcome (SequencePageTable × Option ℕ)
take_draft s rank false = ok (s, none)
take_draft s rank true = do
  (draft, rest) ← first_free (s.free_draft rank)
  ok (record s { free_draft = set_rank rank rest s.free_draft }, some draft)

abbrev pub fresh_page : Option ℕ → PhysicalPage
fresh_page draft = record {
  draft_local_page_id = draft;
  state = free;
  valid_tokens = 0;
  references = 1;
  prefix = none;
}

-- The new page is put where there was none.
unfoldable pub occupy :
    SequencePageTable → PhysicalPageId → PhysicalPage → Outcome (SequencePageTable × PhysicalPageId)
occupy s p page =
    if is_some (lookup_page s p) then err invariant_error else ok (insert_page p page s, p)

unfoldable pub allocate_at :
    SequencePageTable → ℕ → ℕ → Bool → Outcome (SequencePageTable × PhysicalPageId)
allocate_at s rank target mtp = do
  (drafted, draft) ← take_draft s rank mtp
  page ← move_page (fresh_page draft) hbm_mutable
  occupy drafted (record { owner_rank = rank; target_local_page_id = target }) page

-- `allocate_page`: the first free target page of the rank that owns the ordinal, and a draft page.
unfoldable pub allocate_page :
    SequencePageTable → ℕ → Bool → Outcome (SequencePageTable × PhysicalPageId)
allocate_page s ordinal mtp = do
  (target, rest) ← first_free (s.free_target (owner_rank ordinal))
  allocate_at (record s { free_target = set_rank (owner_rank ordinal) rest s.free_target })
      (owner_rank ordinal) target mtp

-- Drops the prefix of a page that is released, which must be entered under that page.
unfoldable pub forget_prefix :
    SequencePageTable
    → PhysicalPageId
    → Option (PrefixPageAttachment × ℕ)
    → Outcome SequencePageTable
forget_prefix s p none = ok s
forget_prefix s p (some (attachment, ordinal)) = do
  q ← or_fail (find attachment.key s.prefixes) invariant_error
  if page_eq q p
      then ok (record s { prefixes = erase attachment.key s.prefixes })
      else err invariant_error

unfoldable pub quarantine_target : SequencePageTable → PhysicalPageId → Outcome SequencePageTable
quarantine_target s p =
    if set_has (s.free_target p.owner_rank) p.target_local_page_id
      || set_has (s.quarantined_target p.owner_rank) p.target_local_page_id
    then err invariant_error
    else ok (record s {
      quarantined_target =
          set_rank p.owner_rank
            (set_insert p.target_local_page_id (s.quarantined_target p.owner_rank))
            s.quarantined_target;
    })

unfoldable pub quarantine_draft : SequencePageTable → ℕ → Option ℕ → Outcome SequencePageTable
quarantine_draft s rank none = ok s
quarantine_draft s rank (some draft) =
    if set_has (s.free_draft rank) draft || set_has (s.quarantined_draft rank) draft
    then err invariant_error
    else ok (record s {
      quarantined_draft =
          set_rank rank (set_insert draft (s.quarantined_draft rank)) s.quarantined_draft;
    })

-- The end of `release_page`, when no reference is left.
unfoldable pub retire_page :
    SequencePageTable → PhysicalPageId → PhysicalPage → Outcome SequencePageTable
retire_page s p page = do
  forgotten ← forget_prefix (remove_page p s) p page.prefix
  retired ← quarantine_target forgotten p
  quarantine_draft retired p.owner_rank page.draft_local_page_id

unfoldable pub release_reference :
    SequencePageTable → PhysicalPageId → PhysicalPage → Outcome SequencePageTable
release_reference s p page = do
  references ← or_fail (checked_sub page.references 1) invariant_error
  if references == 0
      then retire_page s p page
      else ok (put_page p (record page { references = references }) s)

-- `release_page`.
unfoldable pub release_page : SequencePageTable → PhysicalPageId → Outcome SequencePageTable
release_page s p = do page ← or_fail (lookup_page s p) invariant_error; release_reference s p page

-- Another reference to a page.
unfoldable pub retain_page : SequencePageTable → PhysicalPageId → Outcome SequencePageTable
retain_page s p = do
  page ← or_fail (lookup_page s p) invariant_error
  references ← or_fail (checked_add u32_max page.references 1) overflow
  ok (put_page p (record page { references = references }) s)
