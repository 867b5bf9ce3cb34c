-- ===== src/Cache/Prefix/Longest.antt =====
-- What a match of the prefix index says of its pages: crates/glm-cache/src/prefix.rs,
-- `longest_match_with_capability`.
use glmaxx.Base.{
  ℕ, suc, ◌*◌, ◌≤◌, ◌≡◌, refl, ap, sym, ◌∙◌, inl, inr, Bool, false, ◌&&◌, ◌||◌, not, List, [], ◌∷◌,
  length, take, All, Option, none, some, Bool-cases, arith,
}
use glmaxx.Base.Maps.{find}
use glmaxx.Cache.Budget.{page_tokens}
use glmaxx.Cache.Tier.{Digest, TierRecord}
use glmaxx.Cache.Prefix.{
  PrefixPage, PrefixMatch, PrefixIndex, chunks, parent_eq, derive, derive_keys, usable, collect,
  matching, terminal_record, first_of, match_of, longest_match_with_capability,
}
use glmaxx.Cache.Prefix.Insert.{length-chunks_after}

pub length-first_of : (ps : List (Digest × PrefixPage)) → length (first_of ps) ≡ length ps
length-first_of [] = refl
length-first_of (p ∷ ps) = ap suc (length-first_of ps)

pub length-derive_keys :
    (sha256 : List ℕ → List ℕ) (namespace : Digest) (parent : Option Digest)
    (pieces : List (List ℕ))
    → length (derive_keys sha256 namespace parent pieces) ≡ length pieces
unfolding derive_keys
length-derive_keys sha256 namespace parent [] = refl
length-derive_keys sha256 namespace parent (tokens ∷ rest) =
    ap suc (length-derive_keys sha256 namespace (some (derive sha256 namespace parent tokens)) rest)

-- The page is in the index under its key, and has a draft where one is asked for.
abbrev pub Held : PrefixIndex → Bool → Digest × PrefixPage → Type 0
Held index require_draft (key, page) =
    (find key index.pages ≡ some page) × ((require_draft && not page.record_of.mtp) ≡ false)

-- What the loop collects from chunks whose keys are given.
record Collected (index : PrefixIndex) (require_draft : Bool) (keys : List Digest)
    (matched : List (Digest × PrefixPage)) : Type 0 where
  prefix : first_of matched ≡ take (length matched) keys
  short : length matched ≤ length keys
  held : All (Held index require_draft) matched

module _ (index : PrefixIndex) (require_draft : Bool) where
  Collected-collect :
      (parent : Option Digest) (key : Digest) (there : Option PrefixPage) (keys : List Digest)
      (rest : List (Digest × PrefixPage))
      → find key index.pages ≡ there
      → Collected index require_draft keys rest
      → Collected index require_draft
          (key ∷ keys)
          (collect key (usable require_draft parent there) rest)
  unfolding usable collect
  Collected-collect parent key none keys rest found c = record {
    prefix = refl;
    short = omega arith;
    held = tt;
  }
  Collected-collect parent key (some page) keys rest found c =
      elim (Bool-cases
        (not (parent_eq page.parent parent) || (require_draft && not page.record_of.mtp))) [
          | inl stop ↦ rw stop (record { prefix = refl; short = omega arith; held = tt })
          | inr on ↦ rw on (record {
            prefix = ap (λ (ks : List Digest). key ∷ ks) c.prefix;
            short = omega (arith, c.short);
            held = ((found, ground (arith, on)), c.held);
          })
        ]

  matching-Collected :
      (sha256 : List ℕ → List ℕ) (parent : Option Digest) (pieces : List (List ℕ))
      → Collected index require_draft
          (derive_keys sha256 index.namespace parent pieces)
          (matching sha256 index require_draft parent pieces)
  unfolding matching derive_keys
  matching-Collected sha256 parent [] = record { prefix = refl; short = omega arith; held = tt }
  matching-Collected sha256 parent (tokens ∷ pieces) =
      Collected-collect parent (derive sha256 index.namespace parent tokens) _ _ _ refl
        (matching-Collected sha256 (some (derive sha256 index.namespace parent tokens)) pieces)

match_of-inversion :
    (matched : List (Digest × PrefixPage)) (last : Option TierRecord) (r : PrefixMatch)
    → match_of matched last ≡ some r
    → (r.page_keys ≡ first_of matched) × (r.matched_tokens ≡ length matched * page_tokens)
unfolding match_of
match_of-inversion matched none r h = cc
match_of-inversion matched (some t) r h = (cc, cc)

-- A match of the index: its keys are the first of those that are derived from the tokens, it counts 64
-- tokens for each and no more than there are, and each key has a page in the index, with a draft where
-- one was asked for.
pub longest_match-Held :
    (sha256 : List ℕ → List ℕ) (index : PrefixIndex) (tokens : List ℕ) (require_draft : Bool)
    (r : PrefixMatch)
    → longest_match_with_capability sha256 index tokens require_draft ≡ some r
    → (r.page_keys
        ≡ take (length r.page_keys) (derive_keys sha256 index.namespace none (chunks tokens)))
      × (r.matched_tokens ≡ length r.page_keys * page_tokens)
      × (r.matched_tokens ≤ length tokens)
      × (matched : List (Digest × PrefixPage)) × (r.page_keys ≡ first_of matched)
      × All (Held index require_draft) matched
unfolding longest_match_with_capability
longest_match-Held sha256 index tokens require_draft r h =
    let matched = matching sha256 index require_draft none (chunks tokens) in
    let (keys, count) = match_of-inversion matched (terminal_record matched) r h in
    let c = matching-Collected index require_draft sha256 none (chunks tokens) in
    let size : length r.page_keys ≡ length matched = ap length keys ∙ length-first_of matched in
    let all_keys = length-derive_keys sha256 index.namespace none (chunks tokens) in
    let pieces = length-chunks_after [] tokens (omega arith) in
    (
      keys
          ∙ c.prefix
          ∙ ap (λ (n : ℕ). take n (derive_keys sha256 index.namespace none (chunks tokens)))
              (sym size),
      omega (arith, count, size),
      omega (arith, count, c.short, all_keys, pieces),
      matched,
      keys,
      c.held,
    )
