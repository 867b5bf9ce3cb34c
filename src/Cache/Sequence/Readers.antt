-- ===== src/Cache/Sequence/Readers.antt =====
-- The methods of the page table that only read: crates/glm-cache/src/sequence.rs.
use glmaxx.Base.{
  ℕ, suc, ◌+◌, ◌≡◌, refl, ap, min, Bool, List, [], ◌∷◌, Memᴰ, length, Option, none, some, ltb,
  is_some, ok, err, or_fail, ◌>>=◌, checked_add, checked_mul, u64_max, if◌then◌else◌, u32_max,
}
use glmaxx.Base.Maps.{Map, find, values}
use glmaxx.Cache.Budget.{page_tokens}
use glmaxx.Cache.Page.{PageState}
use glmaxx.Cache.Sequence.{
  PhysicalPageId, PhysicalPage, PageTableConfig, SequencePage, TentativeTail, Sequence,
  SequencePageTable, sequence_error, invariant_error, overflow, Outcome, Ranks,
  maximum_context_tokens,
}
use glmaxx.Cache.Sequence.Store.{lookup_page}
use glmaxx.Cache.Sequence.Quarantine.{new_table}
use glmaxx.Cache.Sequence.History.{TableCall, run}
use glmaxx.Cache.Sequence.History.Pages.{listed-found}

pub record SequencePageView : Type 0 where
  pub ordinal : ℕ
  pub physical : PhysicalPageId
  pub draft_local_page_id : Option ℕ
  pub state : PageState
  pub valid_tokens : ℕ
  pub references : ℕ
  pub shared_prefix : Bool

pub record SequencePageSnapshot : Type 0 where
  pub sequence_id : ℕ
  pub mtp : Bool
  pub committed_tokens : ℕ
  pub tentative_tokens : ℕ
  pub pages : List SequencePageView

pub record PageTableStats : Type 0 where
  pub target_pages_used : Ranks ℕ
  pub draft_pages_used : Ranks ℕ
  pub active_sequences : ℕ
  pub active_positions : ℕ
  pub maximum_target_only_sequence_tokens : ℕ
  pub maximum_mtp_sequence_tokens : ℕ

abbrev pub tokens_of : Option Sequence → Option ℕ
tokens_of none = none
tokens_of (some q) = some q.committed_tokens

-- `committed_tokens`.
unfoldable pub sequence_tokens : SequencePageTable → ℕ → Option ℕ
sequence_tokens s id = tokens_of (find id s.sequences)

abbrev pub view : SequencePage → PhysicalPage → SequencePageView
view e page = record {
  ordinal = e.ordinal;
  physical = e.physical;
  draft_local_page_id = page.draft_local_page_id;
  state = page.state;
  valid_tokens = page.valid_tokens;
  references = page.references;
  shared_prefix = is_some page.prefix;
}

-- The views of a list of entries.
unfoldable pub views : SequencePageTable → List SequencePage → Outcome (List SequencePageView)
views s [] = ok []
views s (e ∷ es) = do
  page ← or_fail (lookup_page s e.physical) invariant_error
  rest ← views s es
  ok (view e page ∷ rest)

-- `pages`.
unfoldable pub sequence_pages : SequencePageTable → ℕ → Outcome (List SequencePageView)
sequence_pages s id = do q ← or_fail (find id s.sequences) sequence_error; views s q.pages

abbrev pub reserved_of : Option TentativeTail → ℕ
reserved_of none = 0
reserved_of (some tail) = tail.reserved_tokens

unfoldable pub snapshots_of : SequencePageTable → Map Sequence → Outcome (List SequencePageSnapshot)
snapshots_of s [] = ok []
snapshots_of s ((id, q) ∷ rest) = do
  pages ← sequence_pages s id
  others ← snapshots_of s rest
  ok (
      (record {
        sequence_id = id;
        mtp = q.mtp;
        committed_tokens = q.committed_tokens;
        tentative_tokens = reserved_of q.tentative;
        pages = pages;
      })
      ∷ others)

-- `snapshots`.
unfoldable pub snapshots : SequencePageTable → Outcome (List SequencePageSnapshot)
snapshots s = snapshots_of s s.sequences

abbrev pub drafts_used : List PhysicalPage → ℕ
drafts_used [] = 0
drafts_used (page ∷ pages) = (if is_some page.draft_local_page_id then 1 else 0) + drafts_used pages

-- The committed tokens of the sequences, added to a sum.
unfoldable pub positions : ℕ → List Sequence → Outcome ℕ
positions sum [] = ok sum
positions sum (q ∷ qs) = do
  next ← or_fail (checked_add u64_max sum q.committed_tokens) overflow
  positions next qs

unfoldable pub maximum_sequence_tokens : ℕ → Outcome ℕ
maximum_sequence_tokens pages_per_rank = do
  pages ← or_fail (checked_mul u64_max pages_per_rank 4) overflow
  tokens ← or_fail (checked_mul u64_max pages page_tokens) overflow
  ok (min tokens maximum_context_tokens)

abbrev pub fits_u32 : ℕ → Outcome ℕ
fits_u32 n = if ltb u32_max n then err overflow else ok n

-- `stats`.
unfoldable pub stats : SequencePageTable → Outcome PageTableStats
stats s = do
  active_positions ← positions 0 (values s.sequences)
  active ← fits_u32 (length s.sequences)
  target_only ← maximum_sequence_tokens s.config.target_pages_per_rank
  with_drafts ←
      maximum_sequence_tokens (min s.config.target_pages_per_rank s.config.draft_pages_per_rank)
  ok (record {
    target_pages_used = λ rank. length (s.physical rank);
    draft_pages_used = λ rank. drafts_used (values (s.physical rank));
    active_sequences = active;
    active_positions = active_positions;
    maximum_target_only_sequence_tokens = target_only;
    maximum_mtp_sequence_tokens = with_drafts;
  })

views-total :
    (s : SequencePageTable) (es : List SequencePage)
    → ((e : SequencePage)
        → Memᴰ e es
        → (page : PhysicalPage) × (lookup_page s e.physical ≡ some page))
    → (vs : List SequencePageView) × (views s es ≡ ok vs) × (length vs ≡ length es)
unfolding views
views-total s [] h = ([], refl, refl)
views-total s (e ∷ es) h =
    let (page, found) = h e (Memᴰ.head refl) in
    let (vs, rest, size) = views-total s es (λ d m. h d (Memᴰ.tail m)) in
    (view e page ∷ vs, rw (found, rest), ap suc size)

-- After any calls on a new table, the pages of a sequence that is there are read with success, one for
-- each entry of its list.
pub sequence_pages-total :
    (c : PageTableConfig) (s : SequencePageTable) (calls : List TableCall) (id : ℕ) (q : Sequence)
    → new_table c ≡ ok s
    → find id (run s calls).sequences ≡ some q
    → (vs : List SequencePageView) × (sequence_pages (run s calls) id ≡ ok vs)
      × (length vs ≡ length q.pages)
unfolding sequence_pages
sequence_pages-total c s calls id q made found =
    let (vs, read, size) = views-total (run s calls) q.pages (λ e m.
      let (page, there, references) = listed-found c s calls id q e made found m in
      (page, there)) in
    (vs, rw found read, size)
