-- ===== src/Cache/Prefix.antt =====
-- The index of sealed prefix pages: crates/glm-cache/src/prefix.rs. A digest is the number that its 32
-- bytes spell; SHA-256 is a function from bytes to bytes.
pub mod Insert
pub mod Match
pub mod Longest
pub mod Maximal
pub mod Inserted
use glmaxx.Base.{
  ℕ, zero, suc, ◌+◌, ◌*◌, ◌/◌, ◌%◌, ◌≤◌, Bool, true, false, ◌&&◌, ◌||◌, not, List, [], ◌∷◌, ◌++◌,
  any, length, Option, none, some, ltb, leb, ◌==◌, if◌then◌else◌, Result, ok, err, or_fail, ◌>>=◌,
  is_ok, checked_add, u64_max,
}
use glmaxx.Base.Maps.{Map, find, insert, adjust}
use glmaxx.Cache.Budget.{page_tokens}
use glmaxx.Cache.Tier.{
  Digest, Tier, TierRecord, TierRecordRelation, exact_dedup, mtp_upgrade, retain_mtp, TierError,
  validate_record, relation_to,
}
use glmaxx.Engine.Graph.{to_le_bytes, codes}

unfoldable pub to_be_bytes : ℕ → ℕ → List ℕ
to_be_bytes zero n = []
to_be_bytes (suc width) n = to_be_bytes width (n / 256) ++ ((n % 256) ∷ [])

-- The number that bytes spell after a number for those before them.
unfoldable pub from_be_bytes : ℕ → List ℕ → ℕ
from_be_bytes n [] = n
from_be_bytes n (b ∷ bs) = from_be_bytes (n * 256 + b) bs

pub record NamespaceInputs : Type 0 where
  pub model_revision_sha256 : Digest
  pub tokenizer_sha256 : Digest
  pub chat_template_sha256 : Digest
  pub weight_policy_hash : Digest
  pub target_kv_abi_sha256 : Digest
  pub draft_kv_abi_sha256 : Digest
  pub rope_parameters_sha256 : Digest

pub data PrefixError : Type 0 where
  namespace_error partial_page record_count record_error page_key_error : PrefixError
  collision_error overflow_error : PrefixError

unfoldable pub namespace_digests : NamespaceInputs → List Digest
namespace_digests inputs =
    inputs.model_revision_sha256 ∷ inputs.tokenizer_sha256 ∷ inputs.chat_template_sha256
    ∷ inputs.weight_policy_hash ∷ inputs.target_kv_abi_sha256 ∷ inputs.draft_kv_abi_sha256
    ∷ inputs.rope_parameters_sha256 ∷ []

unfoldable pub digests_bytes : List Digest → List ℕ
unfolding to_be_bytes
digests_bytes [] = []
digests_bytes (d ∷ ds) = to_be_bytes 32 d ++ digests_bytes ds

unfoldable pub tokens_bytes : List ℕ → List ℕ
tokens_bytes [] = []
tokens_bytes (t ∷ ts) = to_le_bytes 4 t ++ tokens_bytes ts

pub record PrefixPage : Type 0 where
  pub parent : Option Digest
  pub record_of : TierRecord
  pub references : ℕ

pub record PrefixMatch : Type 0 where
  pub page_keys : List Digest
  pub matched_tokens : ℕ
  pub terminal_tier : Tier
  pub terminal_generation : ℕ

pub record PrefixIndex : Type 0 where
  pub namespace : Digest
  pub pages : Map PrefixPage

-- `tokens.chunks_exact(64)`, after the tokens of a chunk that has begun.
unfoldable pub chunks_after : List ℕ → List ℕ → List (List ℕ)
chunks_after current [] = []
chunks_after current (t ∷ ts) =
    let next = current ++ (t ∷ []) in
    let full = length next == page_tokens in
    let rest = chunks_after (if full then [] else next) ts in if full then next ∷ rest else rest

abbrev pub chunks : List ℕ → List (List ℕ)
chunks tokens = chunks_after [] tokens

-- `==` of the keys of two parents.
unfoldable pub parent_eq : Option Digest → Option Digest → Bool
parent_eq none none = true
parent_eq (some a) (some b) = a == b
parent_eq none (some b) = false
parent_eq (some a) none = false

abbrev pub parent_digest : Option Digest → Digest
parent_digest none = 0
parent_digest (some key) = key

-- A page that an insertion will enter.
pub record PendingPage : Type 0 where
  pub key : Digest
  pub parent : Option Digest
  pub record_of : TierRecord
  pub replace : Bool

-- Whether an existing page takes the new record, for their relation.
unfoldable pub upgrade : TierRecordRelation → TierRecord → TierRecord → Result PrefixError Bool
upgrade mtp_upgrade existing candidate =
    if leb candidate.generation existing.generation then err collision_error else ok true
upgrade exact_dedup existing candidate = ok false
upgrade retain_mtp existing candidate = ok false

abbrev pub or_collision : {A : Type 0} → Result TierError A → Result PrefixError A
or_collision (ok a) = ok a
or_collision (err e) = err collision_error

-- The checks against the page that is there under the key.
unfoldable pub replaces : Option PrefixPage → Option Digest → TierRecord → Result PrefixError Bool
replaces none parent candidate = ok false
replaces (some existing) parent candidate =
    if not (parent_eq existing.parent parent)
    then err collision_error
    else (or_collision (relation_to existing.record_of candidate) >>= λ relation.
        upgrade relation existing.record_of candidate >>= λ replace.
        or_fail (checked_add u64_max existing.references 1) overflow_error >>= λ more. ok replace)

-- An insertion enters a pending page.
unfoldable pub enter_page : PendingPage → Option PrefixPage → Map PrefixPage → Map PrefixPage
enter_page p none pages =
    insert p.key (record { parent = p.parent; record_of = p.record_of; references = 1 }) pages
enter_page p (some existing) pages =
    adjust p.key
      (λ page. record page {
        record_of = if p.replace then p.record_of else page.record_of;
        references = page.references + 1;
      })
      pages

unfoldable pub enter_pages : List PendingPage → Map PrefixPage → Map PrefixPage
enter_pages [] pages = pages
enter_pages (p ∷ ps) pages = enter_pages ps (enter_page p (find p.key pages) pages)

abbrev pub keys_of : List PendingPage → List Digest
keys_of [] = []
keys_of (p ∷ ps) = p.key ∷ keys_of ps

-- The page that the loop of `longest_match_with_capability` goes on with.
unfoldable pub usable : Bool → Option Digest → Option PrefixPage → Option PrefixPage
usable require_draft parent none = none
usable require_draft parent (some page) =
    if not (parent_eq page.parent parent) || (require_draft && not page.record_of.mtp)
    then none
    else some page

-- The loop goes on with a page, and ends without one.
unfoldable pub collect :
    Digest → Option PrefixPage → List (Digest × PrefixPage) → List (Digest × PrefixPage)
collect key none rest = []
collect key (some page) rest = (key, page) ∷ rest

-- The record of the last page.
abbrev pub terminal_record : List (Digest × PrefixPage) → Option TierRecord
terminal_record [] = none
terminal_record ((key, page) ∷ []) = some page.record_of
terminal_record ((key, page) ∷ p ∷ ps) = terminal_record (p ∷ ps)

abbrev pub first_of : List (Digest × PrefixPage) → List Digest
first_of [] = []
first_of (p ∷ ps) = p.0 ∷ first_of ps

unfoldable pub match_of : List (Digest × PrefixPage) → Option TierRecord → Option PrefixMatch
match_of matched none = none
match_of matched (some r) = some (record {
  page_keys = first_of matched;
  matched_tokens = length matched * page_tokens;
  terminal_tier = r.tier;
  terminal_generation = r.generation;
})

module _ (sha256 : List ℕ → List ℕ) where
  -- `PrefixNamespace::new`.
  unfoldable pub new_namespace : NamespaceInputs → Result PrefixError Digest
  new_namespace inputs =
      if any (λ d. d == 0) (namespace_digests inputs)
      then err namespace_error
      else ok (
          from_be_bytes 0 (
            sha256 (
              codes "glmaxx.prefix-namespace.v1"
              ++ ((0 ∷ []) ++ digests_bytes (namespace_digests inputs)))))

  -- `PrefixPageKey::derive`.
  unfoldable pub derive : Digest → Option Digest → List ℕ → Digest
  derive namespace parent tokens = from_be_bytes 0 (
      sha256 (
        codes "glmaxx.prefix-page.v1"
        ++ ((0 ∷ [])
            ++ (to_be_bytes 32 namespace
                ++ (to_be_bytes 32 (parent_digest parent)
                    ++ (to_le_bytes 2 (length tokens) ++ tokens_bytes tokens))))))

  -- The checks on one page, under its key.
  unfoldable pub plan_page :
      PrefixIndex
      → Option Digest
      → List Digest
      → Digest
      → TierRecord
      → Result PrefixError PendingPage
  plan_page index parent seen key candidate =
      if not (is_ok (validate_record candidate))
      then err record_error
      else if not (candidate.namespace == index.namespace)
      then err namespace_error
      else if not (candidate.page_key == key)
      then err page_key_error
      else if any (λ k. k == key) seen
      then err collision_error
      else (replaces (find key index.pages) parent candidate >>= λ replace.
          ok (record { key = key; parent = parent; record_of = candidate; replace = replace }))

  -- The first loop of `insert`, after a parent and the keys so far.
  unfoldable pub plan_pages :
      PrefixIndex
      → Option Digest
      → List Digest
      → List (List ℕ)
      → List TierRecord
      → Result PrefixError (List PendingPage)
  plan_pages index parent seen [] candidates = ok []
  plan_pages index parent seen (tokens ∷ chunks) [] = ok []
  plan_pages index parent seen (tokens ∷ chunks) (candidate ∷ candidates) = do
    p ← plan_page index parent seen (derive index.namespace parent tokens) candidate
    ps ← plan_pages index (some p.key) (p.key ∷ seen) chunks candidates
    ok (p ∷ ps)

  -- `PrefixIndex::insert`, with the index that it leaves.
  unfoldable pub insert_pages :
      PrefixIndex → List ℕ → List TierRecord → Result PrefixError (PrefixIndex × List Digest)
  insert_pages index tokens candidates =
      if length tokens == 0 || not (length tokens % page_tokens == 0)
      then err partial_page
      else if not (length candidates == length tokens / page_tokens)
      then err record_count
      else (plan_pages index none [] (chunks tokens) candidates >>= λ pending.
          ok (record index { pages = enter_pages pending index.pages }, keys_of pending))

  -- `derive_keys`, over the chunks after a parent.
  unfoldable pub derive_keys : Digest → Option Digest → List (List ℕ) → List Digest
  derive_keys namespace parent [] = []
  derive_keys namespace parent (tokens ∷ chunks) =
      let key = derive namespace parent tokens in key ∷ derive_keys namespace (some key) chunks

  -- The keys and the pages that the loop collects.
  unfoldable pub matching :
      PrefixIndex → Bool → Option Digest → List (List ℕ) → List (Digest × PrefixPage)
  matching index require_draft parent [] = []
  matching index require_draft parent (tokens ∷ chunks) =
      let key = derive index.namespace parent tokens in
      let rest = matching index require_draft (some key) chunks in
      collect key (usable require_draft parent (find key index.pages)) rest

  -- `longest_match_with_capability`.
  unfoldable pub longest_match_with_capability : PrefixIndex → List ℕ → Bool → Option PrefixMatch
  longest_match_with_capability index tokens require_draft =
      let matched = matching index require_draft none (chunks tokens) in
      match_of matched (terminal_record matched)

  -- `longest_match`.
  unfoldable pub longest_match : PrefixIndex → List ℕ → Option PrefixMatch
  longest_match index tokens = longest_match_with_capability index tokens false

abbrev pub references_under : Option PrefixPage → Option ℕ
references_under none = none
references_under (some page) = some page.references

-- `references`.
unfoldable pub page_references : PrefixIndex → Digest → Option ℕ
page_references index key = references_under (find key index.pages)

abbrev pub or_zero : Option ℕ → ℕ
or_zero none = 0
or_zero (some n) = n
