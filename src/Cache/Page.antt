-- ===== src/Cache/Page.antt =====
-- The states of a cache page and its attachments: crates/glm-cache/src/page.rs.
pub mod Lifecycle
use glmaxx.Base.{
  ℕ, ◌+◌, ◌%◌, ◌<◌, ◌≡◌, ◌≢◌, ◌⊎◌, refl, inl, inr, Bool, true, false, ◌&&◌, not, Option, none, some,
  List, [], ◌∷◌, Memᴰ, Result, ok, err, ◌==◌, if◌then◌else◌, arith, ap, sym, ◌∙◌, ◌>>=◌,
}

pub data PageState : Type 0 where
  free hbm_mutable hbm_tentative hbm_sealed dram_writing dram_resident nvme_writing nvme_resident
        restoring invalid :
      PageState

pub record PageTransitionError : Type 0 where
  pub from : PageState
  pub to : PageState

-- The pairs that the `matches!` of `transition` lists.
unfoldable pub legal : PageState → PageState → Bool
legal free hbm_mutable = true
legal hbm_mutable hbm_tentative = true
legal hbm_mutable hbm_sealed = true
legal hbm_mutable invalid = true
legal hbm_tentative hbm_mutable = true
legal hbm_tentative hbm_sealed = true
legal hbm_tentative invalid = true
legal hbm_sealed dram_writing = true
legal hbm_sealed invalid = true
legal dram_writing dram_resident = true
legal dram_writing invalid = true
legal dram_resident nvme_writing = true
legal dram_resident restoring = true
legal dram_resident invalid = true
legal nvme_writing nvme_resident = true
legal nvme_writing invalid = true
legal nvme_resident restoring = true
legal nvme_resident invalid = true
legal restoring hbm_sealed = true
legal restoring invalid = true
legal invalid free = true
legal _ _ = false

unfoldable pub transition : PageState → PageState → Result PageTransitionError PageState
transition s next = if legal s next then ok next else err (record { from = s; to = next })

-- `owner_rank`, four ranks.
unfoldable pub owner_rank : ℕ → ℕ
owner_rank page_ordinal = page_ordinal % 4

pub record PageAttachments : Type 0 where
  pub target_generation : ℕ
  pub target_indexer_generation : ℕ
  pub draft_kv_generation : Option ℕ
  pub draft_indexer_generation : Option ℕ

pub data AttachmentError : Type 0 where
  generation missing_draft : AttachmentError

unfoldable pub validate_draft : Bool → ℕ → Option ℕ → Option ℕ → Result AttachmentError (Unit {0})
validate_draft mtp target (some kv) (some indexer) =
    if kv == indexer && kv == target then ok tt else err generation
validate_draft true target none none = err missing_draft
validate_draft false target none none = ok tt
validate_draft mtp target (some kv) none = err generation
validate_draft mtp target none (some indexer) = err generation

unfoldable pub validate_attachments : PageAttachments → Bool → Result AttachmentError (Unit {0})
validate_attachments a mtp =
    if not (a.target_generation == a.target_indexer_generation)
    then err generation
    else validate_draft mtp a.target_generation a.draft_kv_generation a.draft_indexer_generation

-- A page taken through the states of a list, in order.
unfoldable pub run_transitions : PageState → List PageState → Result PageTransitionError PageState
unfolding transition
run_transitions s [] = ok s
run_transitions s (next ∷ rest) = transition s next >>= λ t. run_transitions t rest

-- The states of a page whose bytes have left HBM, or are on their way out or back.
unfoldable pub is_tiered : PageState → Bool
is_tiered dram_writing = true
is_tiered dram_resident = true
is_tiered nvme_writing = true
is_tiered nvme_resident = true
is_tiered restoring = true
is_tiered _ = false
