-- ===== src/Cache/Sequence.antt =====
-- The data of the page table of active sequences: crates/glm-cache/src/sequence.rs. The code's arrays
-- over the four ranks are functions of the rank; its ordered sets are ascending lists.
pub mod Store
pub mod Quarantine
pub mod Attach
pub mod Append
pub mod Tentative
pub mod Account
pub mod Outcomes
pub mod Extends
pub mod Appended
pub mod Rollback
pub mod History
pub mod Readers
use glmaxx.Base.{
  ℕ, ◌+◌, ◌/◌, Bool, true, false, ◌&&◌, ◌||◌, not, List, [], ◌∷◌, Option, none, some, ltb, leb,
  ◌==◌, if◌then◌else◌, Result, ok, err, or_fail, ◌>>=◌,
}
use glmaxx.Base.Maps.{Map}
use glmaxx.Cache.Budget.{page_tokens}
use glmaxx.Cache.Page.{PageState, PageTransitionError}
use glmaxx.Cache.Tier.{
  Digest, Tier, TierPiece, target_kv, target_indexer, draft_sidecar, TierPieceRecord, TierRecord,
  TierError, validate_record, find_piece,
}

abbrev pub maximum_context_tokens : ℕ
maximum_context_tokens = 1_048_576

abbrev pub maximum_physical_pages_per_rank : ℕ
maximum_physical_pages_per_rank = 1_048_576

-- `maximum_pages()`.
abbrev pub maximum_pages : ℕ
maximum_pages = maximum_context_tokens / page_tokens

pub record PhysicalPageId : Type 0 where
  pub owner_rank : ℕ
  pub target_local_page_id : ℕ

unfoldable pub page_eq : PhysicalPageId → PhysicalPageId → Bool
page_eq p q = p.owner_rank == q.owner_rank && p.target_local_page_id == q.target_local_page_id

pub record PrefixPageAttachment : Type 0 where
  pub namespace : Digest
  pub key : Digest
  pub generation : ℕ
  pub target_kv_sha256 : Digest
  pub target_indexer_sha256 : Digest
  pub draft_sidecar_sha256 : Option Digest

pub data SequencePageError : Type 0 where
  config_error sequence_error prefix_error missing_draft capacity_error state_error :
      SequencePageError
  transaction_error invariant_error overflow : SequencePageError
  transition_error : PageTransitionError → SequencePageError
  tier_error : TierError → SequencePageError

pub data AttachmentRelation : Type 0 where
  exact retain_draft draft_upgrade : AttachmentRelation

abbrev pub hash_of : Option TierPieceRecord → Result SequencePageError Digest
hash_of none = err prefix_error
hash_of (some p) = ok p.sha256

unfoldable pub piece_hash : TierRecord → TierPiece → Result SequencePageError Digest
piece_hash r p = hash_of (find_piece r p)

-- The draft's hash, for a record that has a draft.
unfoldable pub draft_hash : Bool → TierRecord → Result SequencePageError (Option Digest)
unfolding piece_hash
draft_hash false r = ok none
draft_hash true r = piece_hash r draft_sidecar >>= λ h. ok (some h)

abbrev pub from_tier : {A : Type 0} → Result TierError A → Result SequencePageError A
from_tier (ok a) = ok a
from_tier (err e) = err (tier_error e)

-- `PrefixPageAttachment::from_tier_record`.
unfoldable pub from_tier_record : TierRecord → Result SequencePageError PrefixPageAttachment
from_tier_record r = do
  valid ← from_tier (validate_record r)
  kv ← piece_hash r target_kv
  indexer ← piece_hash r target_indexer
  draft ← draft_hash r.mtp r
  ok (record {
    namespace = r.namespace;
    key = r.page_key;
    generation = r.generation;
    target_kv_sha256 = kv;
    target_indexer_sha256 = indexer;
    draft_sidecar_sha256 = draft;
  })

abbrev pub has_draft : PrefixPageAttachment → Bool
has_draft a = elim a.draft_sidecar_sha256 [ none ↦ false | some h ↦ true ]

-- The `match` of `relation_to` on the two drafts, where `newer` says that the candidate's generation is.
unfoldable pub relate_drafts :
    Option Digest → Option Digest → Bool → Result SequencePageError AttachmentRelation
relate_drafts none none newer = ok exact
relate_drafts (some current) none newer = ok retain_draft
relate_drafts none (some next) newer = if newer then ok draft_upgrade else err prefix_error
relate_drafts (some current) (some next) newer =
    if current == next then ok exact else err prefix_error

-- `PrefixPageAttachment::relation_to`.
unfoldable pub relation_to :
    PrefixPageAttachment → PrefixPageAttachment → Result SequencePageError AttachmentRelation
relation_to a candidate =
    if not (a.namespace == candidate.namespace)
      || not (a.key == candidate.key)
      || not (a.target_kv_sha256 == candidate.target_kv_sha256)
      || not (a.target_indexer_sha256 == candidate.target_indexer_sha256)
    then err prefix_error
    else relate_drafts a.draft_sidecar_sha256 candidate.draft_sidecar_sha256
        (ltb a.generation candidate.generation)

pub record PageTableConfig : Type 0 where
  pub target_pages_per_rank : ℕ
  pub draft_pages_per_rank : ℕ

pub record PhysicalPage : Type 0 where
  pub draft_local_page_id : Option ℕ
  pub state : PageState
  pub valid_tokens : ℕ
  pub references : ℕ
  pub prefix : Option (PrefixPageAttachment × ℕ)

pub record SequencePage : Type 0 where
  pub ordinal : ℕ
  pub physical : PhysicalPageId

pub record TentativeTail : Type 0 where
  pub original_committed_tokens : ℕ
  pub original_page_count : ℕ
  pub original_tail_tokens : ℕ
  pub reserved_tokens : ℕ

pub record Sequence : Type 0 where
  pub mtp : Bool
  pub committed_tokens : ℕ
  pub pages : List SequencePage
  pub tentative : Option TentativeTail

-- `[A; 4]`, read and written at ranks below four.
abbrev pub Ranks : Type 0 → Type 0
Ranks A = ℕ → A

abbrev pub set_rank : {A : Type 0} → ℕ → A → Ranks A → Ranks A
set_rank rank a ranks r = if r == rank then a else ranks r

pub record SequencePageTable : Type 0 where
  pub config : PageTableConfig
  pub free_target : Ranks (List ℕ)
  pub free_draft : Ranks (List ℕ)
  pub quarantined_target : Ranks (List ℕ)
  pub quarantined_draft : Ranks (List ℕ)
  pub quarantine_generation : Option ℕ
  pub physical : Ranks (Map PhysicalPage)
  pub prefixes : Map PhysicalPageId
  pub sequences : Map Sequence

-- A step that may fail returns the new table; on an error the public methods restore the table as it was.
abbrev pub Outcome : Type 0 → Type 0
Outcome A = Result SequencePageError A
