-- ===== src/Cache/Sequence/Attach.antt =====
-- Admitting a sequence with its prefix, and forking one: crates/glm-cache/src/sequence.rs,
-- `admit_with_prefix` and `fork_sequence`.
use glmaxx.Base.{
  ℕ, ◌+◌, ◌*◌, Bool, false, ◌&&◌, ◌||◌, not, List, [], ◌∷◌, any, length, Option, none, some, ltb,
  ◌==◌, if◌then◌else◌, is_some, Result, ok, err, or_fail, ◌>>=◌, is_ok,
}
use glmaxx.Base.Maps.{find, insert}
use glmaxx.Cache.Budget.{page_tokens}
use glmaxx.Cache.Page.{PageState, hbm_mutable, hbm_sealed, owner_rank}
use glmaxx.Cache.Sequence.{
  PhysicalPageId, PhysicalPage, PrefixPageAttachment, has_draft, relation_to, AttachmentRelation,
  exact, retain_draft, draft_upgrade, SequencePage, Sequence, SequencePageError, prefix_error,
  missing_draft, sequence_error, transaction_error, state_error, invariant_error, set_rank,
  SequencePageTable, Outcome, maximum_pages,
}
use glmaxx.Cache.Sequence.Quarantine.{transact, when_unbound}
use glmaxx.Cache.Sequence.Store.{
  lookup_page, put_page, move_page, first_free, allocate_page, retain_page,
}

unfoldable pub state_code : PageState → ℕ
state_code PageState.free = 0
state_code PageState.hbm_mutable = 1
state_code PageState.hbm_tentative = 2
state_code PageState.hbm_sealed = 3
state_code PageState.dram_writing = 4
state_code PageState.dram_resident = 5
state_code PageState.nvme_writing = 6
state_code PageState.nvme_resident = 7
state_code PageState.restoring = 8
state_code PageState.invalid = 9

-- `==` of page states.
unfoldable pub state_eq : PageState → PageState → Bool
unfolding state_code
state_eq a b = state_code a == state_code b

-- The page holds the attachment's prefix at the ordinal.
unfoldable pub prefix_at : Option (PrefixPageAttachment × ℕ) → ℕ → PrefixPageAttachment → Bool
prefix_at none ordinal attachment = false
prefix_at (some (current, current_ordinal)) ordinal attachment =
    current_ordinal == ordinal && is_ok (relation_to current attachment)

-- A page is full and sealed.
unfoldable pub is_full : PhysicalPage → Bool
is_full page = state_eq page.state hbm_sealed && page.valid_tokens == page_tokens

unfoldable pub shareable : PhysicalPageId → PhysicalPage → ℕ → PrefixPageAttachment → Bool
shareable p page ordinal attachment =
    is_full page && p.owner_rank == owner_rank ordinal && prefix_at page.prefix ordinal attachment

unfoldable pub current_relation :
    Option (PrefixPageAttachment × ℕ) → PrefixPageAttachment → Outcome AttachmentRelation
current_relation none attachment = err invariant_error
current_relation (some (current, ordinal)) attachment = relation_to current attachment

-- The page's prefix after the relation to the attachment.
unfoldable pub upgraded :
    AttachmentRelation → PhysicalPage → PrefixPageAttachment → ℕ → PhysicalPage
upgraded draft_upgrade page attachment ordinal = record page { prefix = some (attachment, ordinal) }
upgraded exact page attachment ordinal = page
upgraded retain_draft page attachment ordinal = page

-- A draft page for a shared page that has none, when the sequence wants one.
unfoldable pub ensure_draft :
    SequencePageTable → ℕ → Bool → PhysicalPage → Outcome (SequencePageTable × PhysicalPage)
ensure_draft s rank mtp page =
    if mtp && not (is_some page.draft_local_page_id)
    then (first_free (s.free_draft rank) >>= λ (draft, rest). ok (
      record s { free_draft = set_rank rank rest s.free_draft },
      record page { draft_local_page_id = some draft },
    ))
    else ok (s, page)

unfoldable pub share_checked :
    SequencePageTable
    → Bool
    → ℕ
    → PrefixPageAttachment
    → PhysicalPageId
    → PhysicalPage
    → Outcome SequencePageTable
share_checked s mtp ordinal attachment p page = do
  relation ← current_relation page.prefix attachment
  (drafted, page') ← ensure_draft s p.owner_rank mtp (upgraded relation page attachment ordinal)
  retain_page (put_page p page' drafted) p

-- The branch of an attachment whose prefix is in the table already.
unfoldable pub share_page :
    SequencePageTable → Bool → ℕ → PrefixPageAttachment → PhysicalPageId → Outcome SequencePageTable
share_page s mtp ordinal attachment p = do
  page ← or_fail (lookup_page s p) prefix_error
  if shareable p page ordinal attachment
      then share_checked s mtp ordinal attachment p page
      else err prefix_error

-- The branch of an attachment that is restored into a new page.
unfoldable pub restore_page :
    SequencePageTable
    → Bool
    → ℕ
    → PrefixPageAttachment
    → Outcome (SequencePageTable × PhysicalPageId)
restore_page s mtp ordinal attachment = do
  (allocated, p) ← allocate_page s ordinal mtp
  page ← or_fail (lookup_page allocated p) invariant_error
  sealed ← move_page (record page { valid_tokens = page_tokens }) hbm_sealed
  let full = put_page p (record sealed { prefix = some (attachment, ordinal) }) allocated
  ok (record full { prefixes = insert attachment.key p full.prefixes }, p)

-- The two branches, on the page that the table has under the attachment's key.
unfoldable pub attach_at :
    SequencePageTable
    → Bool
    → ℕ
    → PrefixPageAttachment
    → Option PhysicalPageId
    → Outcome (SequencePageTable × PhysicalPageId)
attach_at s mtp ordinal attachment none = restore_page s mtp ordinal attachment
attach_at s mtp ordinal attachment (some p) = do
  shared ← share_page s mtp ordinal attachment p
  ok (shared, p)

unfoldable pub attach_page :
    SequencePageTable
    → Bool
    → ℕ
    → PrefixPageAttachment
    → Outcome (SequencePageTable × PhysicalPageId)
attach_page s mtp ordinal attachment =
    attach_at s mtp ordinal attachment (find attachment.key s.prefixes)

-- The loop over the prefix pages from an ordinal, with the keys seen so far; the sequence's pages.
unfoldable pub attach_pages :
    SequencePageTable
    → Bool
    → ℕ
    → List ℕ
    → List PrefixPageAttachment
    → Outcome (SequencePageTable × List SequencePage)
attach_pages s mtp ordinal seen [] = ok (s, [])
attach_pages s mtp ordinal seen (attachment ∷ attachments) =
    if mtp && not (has_draft attachment)
    then err missing_draft
    else if any (λ key. key == attachment.key) seen
    then err prefix_error
    else (attach_page s mtp ordinal attachment >>= λ (attached, p).
        attach_pages attached mtp (ordinal + 1) (attachment.key ∷ seen) attachments
        >>= λ (all_attached, pages).
            ok (all_attached, (record { ordinal = ordinal; physical = p }) ∷ pages))

unfoldable pub enter_sequence : ℕ → Sequence → SequencePageTable → SequencePageTable
enter_sequence id sequence s = record s { sequences = insert id sequence s.sequences }

unfoldable pub admit_inner :
    SequencePageTable → ℕ → Bool → List PrefixPageAttachment → Outcome SequencePageTable
admit_inner s id mtp attachments = do
  (attached, pages) ← attach_pages s mtp 0 [] attachments
  ok (
      enter_sequence id
        (record {
          mtp = mtp;
          committed_tokens = length attachments * page_tokens;
          pages = pages;
          tentative = none;
        })
        attached)

-- `admit_with_prefix`.
unfoldable pub admit_with_prefix :
    SequencePageTable
    → ℕ
    → Bool
    → List PrefixPageAttachment
    → SequencePageTable × Result SequencePageError (Unit {0})
admit_with_prefix s id mtp attachments = transact s (
    when_unbound s (
      if id == 0 || is_some (find id s.sequences) || ltb maximum_pages (length attachments)
      then err sequence_error
      else admit_inner s id mtp attachments))

-- A private copy of a mutable tail.
unfoldable pub copy_tail :
    SequencePageTable
    → Bool
    → SequencePage
    → PhysicalPage
    → Outcome (SequencePageTable × SequencePage)
copy_tail s mtp source page = do
  (allocated, p) ← allocate_page s source.ordinal mtp
  copy ← or_fail (lookup_page allocated p) invariant_error
  ok (
    put_page p (record copy { valid_tokens = page.valid_tokens }) allocated,
    record { ordinal = source.ordinal; physical = p },
  )

unfoldable pub fork_found :
    SequencePageTable
    → Bool
    → SequencePage
    → PhysicalPage
    → Outcome (SequencePageTable × SequencePage)
fork_found s mtp source page =
    if is_full page
    then (retain_page s source.physical >>= λ t. ok (t, source))
    else if state_eq page.state hbm_mutable
        && ltb page.valid_tokens page_tokens
        && page.references == 1
    then copy_tail s mtp source page
    else err state_error

-- A full sealed page becomes shared; a mutable tail is copied.
unfoldable pub fork_page :
    SequencePageTable → Bool → SequencePage → Outcome (SequencePageTable × SequencePage)
fork_page s mtp source = do
  page ← or_fail (lookup_page s source.physical) invariant_error
  fork_found s mtp source page

unfoldable pub fork_pages :
    SequencePageTable → Bool → List SequencePage → Outcome (SequencePageTable × List SequencePage)
fork_pages s mtp [] = ok (s, [])
fork_pages s mtp (source ∷ sources) = do
  (forked, page) ← fork_page s mtp source
  (all_forked, pages) ← fork_pages forked mtp sources
  ok (all_forked, page ∷ pages)

unfoldable pub fork_inner : SequencePageTable → Sequence → ℕ → Outcome SequencePageTable
fork_inner s source destination_id = do
  (forked, pages) ← fork_pages s source.mtp source.pages
  ok (enter_sequence destination_id (record source { pages = pages; tentative = none }) forked)

-- The guards of `fork_sequence` on its source.
unfoldable pub fork_from : SequencePageTable → Option Sequence → ℕ → Outcome SequencePageTable
fork_from s none destination_id = err sequence_error
fork_from s (some source) destination_id =
    if is_some source.tentative then err transaction_error else fork_inner s source destination_id

-- `fork_sequence`.
unfoldable pub fork_sequence :
    SequencePageTable → ℕ → ℕ → SequencePageTable × Result SequencePageError (Unit {0})
fork_sequence s source_id destination_id = transact s (
    when_unbound s (
      if destination_id == 0 || is_some (find destination_id s.sequences)
      then err sequence_error
      else fork_from s (find source_id s.sequences) destination_id))
