-- ===== src/Cache/Prefix/Maximal.antt =====
-- That a match of the prefix index misses no page: crates/glm-cache/src/prefix.rs,
-- `longest_match_with_capability`.
use glmaxx.Base.{
  ℕ, zero, suc, ◌*◌, ◌≤◌, ◌<◌, ◌≡◌, refl, ap, sym, ◌∙◌, Bool, true, false, ◌&&◌, not, List, [], ◌∷◌,
  length, take, Option, none, some, arith,
}
use glmaxx.Base.Maps.{find}
use glmaxx.Cache.Budget.{page_tokens}
use glmaxx.Cache.Tier.{Digest, TierRecord}
use glmaxx.Cache.Prefix.{
  PrefixPage, PrefixMatch, PrefixIndex, chunks, parent_eq, derive, derive_keys, usable, collect,
  matching, terminal_record, match_of, longest_match_with_capability,
}
use glmaxx.Cache.Prefix.Insert.{length-chunks_after}
use glmaxx.Cache.Prefix.Match.{parent_eq_refl}

-- The index has a page under each key, with the key before it as its parent, and with a draft where one
-- is asked for.
abbrev pub Chain : PrefixIndex → Bool → Option Digest → List Digest → Type 0
Chain index require_draft parent [] = Unit {0}
Chain index require_draft parent (key ∷ keys) =
    ((page : PrefixPage) × (find key index.pages ≡ some page)
      × (page.parent ≡ parent)
      × ((require_draft && not page.record_of.mtp) ≡ false))
    × Chain index require_draft (some key) keys

usable_lem :
    (require_draft : Bool) (parent : Option Digest) (page : PrefixPage)
    → page.parent ≡ parent
    → (require_draft && not page.record_of.mtp) ≡ false
    → usable require_draft parent (some page) ≡ some page
unfolding usable
usable_lem require_draft parent page same draft =
    let linked : parent_eq page.parent parent ≡ true =
      ap (parent_eq page.parent) (sym same) ∙ parent_eq_refl page.parent in
    rw (linked, draft) refl

module _ (sha256 : List ℕ → List ℕ) (index : PrefixIndex) (require_draft : Bool) where
  collects :
      (parent : Option Digest) (key : Digest) (page : PrefixPage)
      (rest : List (Digest × PrefixPage))
      → find key index.pages ≡ some page
      → page.parent ≡ parent
      → (require_draft && not page.record_of.mtp) ≡ false
      → length (collect key (usable require_draft parent (find key index.pages)) rest)
        ≡ suc (length rest)
  unfolding collect
  collects parent key page rest found same draft =
      rw (found, usable_lem require_draft parent page same draft) refl

  length-matching :
      (parent : Option Digest) (pieces : List (List ℕ)) (n : ℕ)
      → n ≤ length pieces
      → Chain index require_draft parent (take n (derive_keys sha256 index.namespace parent pieces))
      → n ≤ length (matching sha256 index require_draft parent pieces)
  unfolding matching derive_keys
  length-matching parent pieces zero h chain = omega arith
  length-matching parent [] (suc n) h chain = absurd (omega (arith, h))
  length-matching parent (tokens ∷ pieces) (suc n) h ((page, found, same, draft), chain) =
      let key = derive sha256 index.namespace parent tokens in
      let rest = length-matching (some key) pieces n (omega (arith, h)) chain in
      let one =
        collects parent key page (matching sha256 index require_draft (some key) pieces) found same
          draft in
      omega (arith, rest, one)

match_of-some :
    (matched : List (Digest × PrefixPage)) (last : Option TierRecord)
    → (t : TierRecord) × (last ≡ some t)
    → (r : PrefixMatch) × (match_of matched last ≡ some r)
      × (r.matched_tokens ≡ length matched * page_tokens)
unfolding match_of
match_of-some matched none (t, h) = cc
match_of-some matched (some t') (t, h) = (_, refl, refl)

terminal_some :
    (matched : List (Digest × PrefixPage))
    → 0 < length matched
    → (t : TierRecord) × (terminal_record matched ≡ some t)
terminal_some [] h = absurd (omega (arith, h))
terminal_some ((key, page) ∷ []) h = (page.record_of, refl)
terminal_some ((key, page) ∷ p ∷ ps) h = terminal_some (p ∷ ps) (omega arith)

-- When the tokens hold some pages, at least one, and the index has each of these under its derived key,
-- with the page before it as its parent and with a draft where one is asked for, then a match is found,
-- and it counts at least the tokens of those pages.
pub longest_match_most :
    (sha256 : List ℕ → List ℕ) (index : PrefixIndex) (tokens : List ℕ) (require_draft : Bool)
    (n : ℕ)
    → 0 < n
    → n * page_tokens ≤ length tokens
    → Chain index require_draft none
        (take n (derive_keys sha256 index.namespace none (chunks tokens)))
    → (r : PrefixMatch) × (longest_match_with_capability sha256 index tokens require_draft ≡ some r)
      × (n * page_tokens ≤ r.matched_tokens)
unfolding longest_match_with_capability
longest_match_most sha256 index tokens require_draft n positive room chain =
    let pieces = length-chunks_after [] tokens (omega arith) in
    let most =
      length-matching sha256 index require_draft none (chunks tokens) n
        (omega (arith, pieces, room)) chain in
    let matched = matching sha256 index require_draft none (chunks tokens) in
    let last = terminal_some matched (omega (arith, most, positive)) in
    let (r, found, count) = match_of-some matched (terminal_record matched) last in
    (r, found, omega (arith, count, most))
