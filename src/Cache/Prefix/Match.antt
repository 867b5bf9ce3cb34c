-- ===== src/Cache/Prefix/Match.antt =====
-- The longest match finds what an insertion entered: crates/glm-cache/src/prefix.rs.
use glmaxx.Base.{
  ℕ, ◌*◌, ◌/◌, ◌%◌, ◌≤◌, ◌≡◌, ◌≢◌, refl, ap, sym, ◌∙◌, subst, inl, inr, Bool, true, false, ◌||◌,
  not, List, [], ◌∷◌, any, length, All, All-mem, All-of_mem, Distinct, Option, none, some, ◌==◌,
  ==-refl, or_fail, is_ok, checked_add, u64_max, Bool-cases, arith,
}
use glmaxx.Base.Ensures.{Ensures, bind-Ensures, guard-Ensures, any-Ensures}
use glmaxx.Base.Maps.{Map, find}
use glmaxx.Cache.Budget.{page_tokens}
use glmaxx.Cache.Tier.{Digest, TierRecord, validate_record, relation_to}
use glmaxx.Cache.Prefix.{
  namespace_error, partial_page, record_count, record_error, page_key_error, collision_error,
  overflow_error, PrefixPage, PrefixIndex, chunks, parent_eq, PendingPage, upgrade, or_collision,
  replaces, enter_pages, keys_of, derive, plan_page, plan_pages, insert_pages, derive_keys, usable,
  collect, matching, first_of,
}
use glmaxx.Cache.Prefix.Insert.{length-chunks_after, entered, enter_pages-mem}

-- Each page has the one before it as its parent.
abbrev pub Linked : Option Digest → List PendingPage → Type 0
Linked parent [] = Unit
Linked parent (p ∷ ps) = (p.parent ≡ parent) × Linked (some p.key) ps

abbrev pub parent_matches : Option PrefixPage → Option Digest → Bool
parent_matches none parent = true
parent_matches (some page) parent = parent_eq page.parent parent

-- A page that is there under the key has the same parent.
abbrev pub Agrees : Map PrefixPage → PendingPage → Type 0
Agrees pages p = parent_matches (find p.key pages) p.parent ≡ true

abbrev pub IsUnlisted : List Digest → PendingPage → Type 0
IsUnlisted seen p = any (λ k. k == p.key) seen ≡ false

replaces-parent :
    (there : Option PrefixPage) (parent : Option Digest) (candidate : TierRecord)
    → Ensures (λ b. parent_matches there parent ≡ true) (replaces there parent candidate)
unfolding replaces
replaces-parent none parent candidate = Ensures.returned refl
replaces-parent (some existing) parent candidate =
    guard-Ensures (not (parent_eq existing.parent parent)) collision_error (λ same.
      bind-Ensures (any-Ensures (or_collision (relation_to existing.record_of candidate)))
        (λ relation h.
          bind-Ensures (any-Ensures (upgrade relation existing.record_of candidate)) (λ replace k.
            bind-Ensures
              (any-Ensures (or_fail (checked_add u64_max existing.references 1) overflow_error))
              (λ more l. Ensures.returned (ground (arith, same))))))

pub apart_of : (a b : ℕ) (r : Bool) → (b == a || r) ≡ false → (a ≢ b) × (r ≡ false)
apart_of a b r h = elim (Bool-cases (b == a)) [
  | inl same ↦ let impossible : true ≡ false = rw same at h in cc
  | inr other ↦ (
    λ e.
        let same : (b == a) ≡ true = rw e (==-refl b) in
        let impossible : true ≡ false = sym same ∙ other in cc,
    rw other at h,
  )
]

pub parent_eq_refl : (parent : Option Digest) → parent_eq parent parent ≡ true
unfolding parent_eq
parent_eq_refl none = refl
parent_eq_refl (some key) = ==-refl key

usable-some :
    (parent : Option Digest) (page : PrefixPage)
    → parent_eq page.parent parent ≡ true
    → usable false parent (some page) ≡ some page
unfolding usable
usable-some parent page same = rw same

module _ (sha256 : List ℕ → List ℕ) (index : PrefixIndex) where
  abbrev pub Planned : Option Digest → List Digest → List (List ℕ) → List PendingPage → Type 0
  Planned parent seen chunks ps =
      (keys_of ps ≡ derive_keys sha256 index.namespace parent chunks)
      × Linked parent ps
      × Distinct (λ p. p.key) ps
      × All (IsUnlisted seen) ps
      × All (Agrees index.pages) ps

  plan_page-Agrees :
      (parent : Option Digest) (seen : List Digest) (key : Digest) (candidate : TierRecord)
      → Ensures
          (λ p. (p.key ≡ key) × (p.parent ≡ parent) × IsUnlisted seen p × Agrees index.pages p)
          (plan_page sha256 index parent seen key candidate)
  unfolding plan_page
  plan_page-Agrees parent seen key candidate =
      guard-Ensures (not (is_ok (validate_record candidate))) record_error (λ a.
        guard-Ensures (not (candidate.namespace == index.namespace)) namespace_error (λ b.
          guard-Ensures (not (candidate.page_key == key)) page_key_error (λ c.
            guard-Ensures (any (λ k. k == key) seen) collision_error (λ unlisted.
              bind-Ensures (replaces-parent (find key index.pages) parent candidate)
                (λ replace agrees. Ensures.returned (refl, refl, unlisted, agrees))))))

  listed_apart :
      (key : Digest) (seen : List Digest) (ps : List PendingPage)
      → All (IsUnlisted (key ∷ seen)) ps
      → All (λ p. p.key ≢ key) ps × All (IsUnlisted seen) ps
  listed_apart key seen [] h = (tt, tt)
  listed_apart key seen (p ∷ ps) h =
      let rest = listed_apart key seen ps h.1 in
      let (apart, unlisted) = apart_of p.key key _ h.0 in ((apart, rest.0), (unlisted, rest.1))

  plan_pages-Planned :
      (parent : Option Digest) (seen : List Digest) (chunks : List (List ℕ))
      (candidates : List TierRecord)
      → length candidates ≡ length chunks
      → Ensures (Planned parent seen chunks) (plan_pages sha256 index parent seen chunks candidates)
  unfolding plan_pages derive_keys
  plan_pages-Planned parent seen [] candidates h = Ensures.returned (refl, tt, tt, tt, tt)
  plan_pages-Planned parent seen (tokens ∷ chunks) [] h = absurd (omega (arith, h))
  plan_pages-Planned parent seen (tokens ∷ chunks) (candidate ∷ candidates) h =
      bind-Ensures
        (plan_page-Agrees parent seen (derive sha256 index.namespace parent tokens) candidate)
        (λ p (key, same, unlisted, agrees).
          bind-Ensures
            (plan_pages-Planned (some p.key) (p.key ∷ seen) chunks candidates (omega (arith, h)))
            (λ ps (keys, linked, distinct, others, agree).
              let (apart, unseen) = listed_apart p.key seen ps others in
              Ensures.returned
                ((cc), (same, linked), (apart, distinct), (unlisted, unseen), (agrees, agree))))

  -- Every pending page is in the index, under its key and with its parent.
  abbrev pub Stored : Map PrefixPage → PendingPage → Type 0
  Stored pages p =
      (page : PrefixPage) × (find p.key pages ≡ some page) × (parent_eq page.parent p.parent ≡ true)

  pub matching-keys :
      (pages : Map PrefixPage) (parent : Option Digest) (chunks : List (List ℕ))
      (ps : List PendingPage)
      → keys_of ps ≡ derive_keys sha256 index.namespace parent chunks
      → Linked parent ps
      → All (Stored pages) ps
      → first_of (matching sha256 (record index { pages = pages }) false parent chunks) ≡ keys_of ps
  unfolding matching derive_keys usable collect
  matching-keys pages parent [] [] keys linked stored = refl
  matching-keys pages parent [] (p ∷ ps) keys linked stored = cc
  matching-keys pages parent (tokens ∷ chunks) [] keys linked stored = cc
  matching-keys pages parent (tokens ∷ chunks) (p ∷ ps) keys linked stored =
      let head : p.key ≡ derive sha256 index.namespace parent tokens = cc in
      let tail : keys_of ps
          ≡ derive_keys sha256 index.namespace (some (derive sha256 index.namespace parent tokens))
              chunks =
        cc in
      let (page, found, same) = stored.0 in
      let there : find (derive sha256 index.namespace parent tokens) pages ≡ some page =
        ap (λ (k : ℕ). find k pages) (sym head) ∙ found in
      let here = usable-some parent page (ap (parent_eq page.parent) (sym linked.0) ∙ same) in
      let links = subst (λ k. Linked (some k) ps) head linked.1 in
      let rest =
        matching-keys pages (some (derive sha256 index.namespace parent tokens)) chunks ps tail
          links stored.1 in
      rw (there, here) (cc)

  -- The keys of an insertion that succeeds, and what the index holds then.
  abbrev pub Inserted : List ℕ → PrefixIndex × List Digest → Type 0
  Inserted tokens (after, keys) =
      (ps : List PendingPage) × (after ≡ record index { pages = enter_pages ps index.pages })
      × (keys ≡ keys_of ps)
      × (1 ≤ length tokens)
      × (length tokens ≡ length (chunks tokens) * page_tokens)
      × Planned none [] (chunks tokens) ps

  pub insert_pages-Inserted :
      (tokens : List ℕ) (candidates : List TierRecord)
      → Ensures (Inserted tokens) (insert_pages sha256 index tokens candidates)
  unfolding insert_pages
  insert_pages-Inserted tokens candidates =
      guard-Ensures (length tokens == 0 || not (length tokens % page_tokens == 0)) partial_page
        (λ whole.
          guard-Ensures (not (length candidates == length tokens / page_tokens)) record_count
            (λ count.
              let size = length-chunks_after [] tokens (omega arith) in
              let same : length candidates ≡ length (chunks tokens) = ground (arith, count, size) in
              bind-Ensures (plan_pages-Planned none [] (chunks tokens) candidates same)
                (λ ps planned.
                  Ensures.returned
                    (ps, refl, refl, ground (arith, whole), ground (arith, whole, size), planned))))

  agrees-entered :
      (p : PendingPage) (there : Option PrefixPage)
      → parent_matches there p.parent ≡ true
      → parent_eq (entered p there).parent p.parent ≡ true
  unfolding entered
  agrees-entered p none h = parent_eq_refl p.parent
  agrees-entered p (some page) h = h

  pub All-Stored :
      (ps : List PendingPage)
      → Distinct (λ p. p.key) ps
      → All (Agrees index.pages) ps
      → All (Stored (enter_pages ps index.pages)) ps
  All-Stored ps distinct agree = All-of_mem (Stored (enter_pages ps index.pages)) ps (λ p m. (
    entered p (find p.key index.pages),
    enter_pages-mem p ps index.pages distinct m,
    agrees-entered p (find p.key index.pages) (All-mem (Agrees index.pages) m agree),
  ))
