-- ===== src/Cache/Tier.antt =====
-- Records of pages in the tiers below HBM: crates/glm-cache/src/tier.rs, `TierRecord`. A digest of 32
-- bytes is the number that the bytes spell, the first byte the highest.
pub mod Journal
pub mod Recovery
pub mod Tracks
pub mod Made
pub mod Sidecar
use glmaxx.Base.{
  ℕ, ◌+◌, ◌*◌, ◌%◌, Bool, true, false, ◌&&◌, ◌||◌, not, List, [], ◌∷◌, Option, none, some, ltb,
  ◌==◌, if◌then◌else◌, any, find_first, length, Result, ok, err, ◌>>=◌, u64_max,
}
use glmaxx.Cache.Budget.{
  target_layers, indexer_groups, kv_record_bytes, indexer_record_bytes, page_tokens,
}

abbrev pub Digest : Type 0
Digest = ℕ

abbrev pub target_kv_page_bytes : ℕ
target_kv_page_bytes = page_tokens * target_layers * kv_record_bytes

abbrev pub target_indexer_page_bytes : ℕ
target_indexer_page_bytes = page_tokens * indexer_groups * indexer_record_bytes

abbrev pub draft_kv_page_bytes : ℕ
draft_kv_page_bytes = page_tokens * kv_record_bytes

abbrev pub draft_indexer_page_bytes : ℕ
draft_indexer_page_bytes = page_tokens * indexer_record_bytes

abbrev pub draft_committed_record_bytes : ℕ
draft_committed_record_bytes = kv_record_bytes + indexer_record_bytes

abbrev pub draft_sidecar_page_bytes : ℕ
draft_sidecar_page_bytes = page_tokens * draft_committed_record_bytes

pub data Tier : Type 0 where
  dram nvme : Tier

pub data TierPiece : Type 0 where
  target_kv target_indexer draft_sidecar : TierPiece

unfoldable pub piece_code : TierPiece → ℕ
piece_code target_kv = 1
piece_code target_indexer = 2
piece_code draft_sidecar = 3

unfoldable pub piece_eq : TierPiece → TierPiece → Bool
unfolding piece_code
piece_eq a b = piece_code a == piece_code b

unfoldable pub expected_bytes : TierPiece → ℕ
expected_bytes target_kv = target_kv_page_bytes
expected_bytes target_indexer = target_indexer_page_bytes
expected_bytes draft_sidecar = draft_sidecar_page_bytes

pub record TierPieceRecord : Type 0 where
  pub piece : TierPiece
  pub byte_length : ℕ
  pub storage_offset : ℕ
  pub sha256 : Digest

pub record TierRecord : Type 0 where
  pub namespace : Digest
  pub page_key : Digest
  pub generation : ℕ
  pub tier : Tier
  pub mtp : Bool
  pub pieces : List TierPieceRecord

pub data TierRecordRelation : Type 0 where
  exact_dedup mtp_upgrade retain_mtp : TierRecordRelation

pub data TierError : Type 0 where
  identity_error pieces_error collision checksum not_durable already_published journal_error
        overflow :
      TierError

unfoldable pub required_pieces : Bool → List TierPiece
required_pieces true = target_kv ∷ target_indexer ∷ draft_sidecar ∷ []
required_pieces false = target_kv ∷ target_indexer ∷ []

unfoldable pub tier_alignment : Tier → ℕ
tier_alignment dram = 64
tier_alignment nvme = 4096

unfoldable pub has_piece : List TierPiece → TierPiece → Bool
has_piece pieces p = any (λ q. piece_eq q p) pieces

-- The guards on one piece, whose kind must be required and new, apart from its range.
unfoldable pub piece_valid : Bool → ℕ → List TierPiece → TierPieceRecord → Bool
piece_valid mtp alignment seen p =
    has_piece (required_pieces mtp) p.piece
    && not (has_piece seen p.piece)
    && p.byte_length == expected_bytes p.piece
    && p.storage_offset % alignment == 0
    && not (p.sha256 == 0)

-- Some range of bytes so far meets the given one.
unfoldable pub overlaps : List (ℕ × ℕ) → ℕ → ℕ → Bool
overlaps ranges start end = any (λ range. ltb start range.1 && ltb range.0 end) ranges

-- The loop over the pieces, with the kinds and the ranges seen so far.
unfoldable pub check_pieces :
    Bool → ℕ → List TierPiece → List (ℕ × ℕ) → List TierPieceRecord → Result TierError (Unit {0})
check_pieces mtp alignment seen ranges [] = ok tt
check_pieces mtp alignment seen ranges (p ∷ ps) =
    let rest =
      check_pieces mtp alignment (p.piece ∷ seen)
        ((p.storage_offset, p.storage_offset + p.byte_length) ∷ ranges) ps in
    if not (piece_valid mtp alignment seen p)
    then err pieces_error
    else if ltb u64_max (p.storage_offset + p.byte_length)
    then err overflow
    else if overlaps ranges p.storage_offset (p.storage_offset + p.byte_length)
    then err pieces_error
    else rest

-- `TierRecord::validate`.
unfoldable pub validate_record : TierRecord → Result TierError (Unit {0})
validate_record r =
    if r.namespace == 0 || r.page_key == 0 || r.generation == 0
    then err identity_error
    else if not (length r.pieces == length (required_pieces r.mtp))
    then err pieces_error
    else check_pieces r.mtp (tier_alignment r.tier) [] [] r.pieces

abbrev pub find_piece : TierRecord → TierPiece → Option TierPieceRecord
find_piece r p = find_first (λ q. piece_eq q.piece p) r.pieces

abbrev pub identity_of : Option TierPieceRecord → Option (ℕ × Digest)
identity_of none = none
identity_of (some p) = some (p.byte_length, p.sha256)

unfoldable pub logical_piece_identity : TierRecord → TierPiece → Option (ℕ × Digest)
logical_piece_identity r p = identity_of (find_piece r p)

unfoldable pub identity_eq : Option (ℕ × Digest) → Option (ℕ × Digest) → Bool
identity_eq none none = true
identity_eq none (some b) = false
identity_eq (some a) none = false
identity_eq (some a) (some b) = a.0 == b.0 && a.1 == b.1

unfoldable pub same_piece : TierRecord → TierRecord → TierPiece → Bool
same_piece r s p = identity_eq (logical_piece_identity r p) (logical_piece_identity s p)

-- The records name the same page with the same target pieces.
unfoldable pub same_target : TierRecord → TierRecord → Bool
same_target r s =
    r.namespace == s.namespace
    && r.page_key == s.page_key
    && same_piece r s target_kv
    && same_piece r s target_indexer

-- The `match` of `relation_to` on whether the records have a draft.
unfoldable pub relate : Bool → Bool → Bool → Result TierError TierRecordRelation
relate false false same_draft = ok exact_dedup
relate true false same_draft = ok retain_mtp
relate false true same_draft = ok mtp_upgrade
relate true true same_draft = if same_draft then ok exact_dedup else err collision

-- `TierRecord::relation_to`.
unfoldable pub relation_to : TierRecord → TierRecord → Result TierError TierRecordRelation
relation_to r candidate = do
  valid ← validate_record r
  candidate_valid ← validate_record candidate
  if same_target r candidate
      then relate r.mtp candidate.mtp (same_piece r candidate draft_sidecar)
      else err collision
