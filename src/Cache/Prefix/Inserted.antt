-- ===== src/Cache/Prefix/Inserted.antt =====
-- The index after an insertion: crates/glm-cache/src/prefix.rs, `insert`, `longest_match` and
-- `references`.
use glmaxx.Base.{
  ℕ, ◌+◌, ◌*◌, ◌≤◌, ◌≡◌, ◌≢◌, refl, ap, sym, ◌∙◌, subst, inl, inr, true, false, List, [], ◌∷◌, Memᴰ,
  any, length, All, Option, none, some, ◌==◌, if◌then◌else◌, ==→eq, ok, Bool-cases, arith,
}
use glmaxx.Base.Ensures.{Ensures-eq_ok}
use glmaxx.Base.Maps.{find}
use glmaxx.Cache.Budget.{page_tokens}
use glmaxx.Cache.Tier.{Digest, TierRecord}
use glmaxx.Cache.Prefix.{
  or_zero, PrefixPage, PrefixMatch, PrefixIndex, chunks, PendingPage, enter_pages, keys_of,
  insert_pages, derive_keys, page_references, references_under, matching, terminal_record, first_of,
  match_of, longest_match_with_capability, longest_match,
}
use glmaxx.Cache.Prefix.Longest.{length-first_of, length-derive_keys}
use glmaxx.Cache.Prefix.Insert.{entered, enter_pages-mem, enter_pages-other}
use glmaxx.Cache.Prefix.Match.{apart_of, insert_pages-Inserted, matching-keys, All-Stored}

terminal_record-some :
    (p : Digest × PrefixPage) (ps : List (Digest × PrefixPage))
    → (r : TierRecord) × (terminal_record (p ∷ ps) ≡ some r)
terminal_record-some (key, page) [] = (page.record_of, refl)
terminal_record-some (key, page) (q ∷ ps) = terminal_record-some q ps

match_of-some :
    (matched : List (Digest × PrefixPage))
    → 1 ≤ length matched
    → (r : PrefixMatch) × (match_of matched (terminal_record matched) ≡ some r)
      × (r.page_keys ≡ first_of matched)
      × (r.matched_tokens ≡ length matched * page_tokens)
unfolding match_of
match_of-some [] h = absurd (omega (arith, h))
match_of-some (p ∷ ps) h =
    let (last, found) = terminal_record-some p ps in (_, ap (match_of (p ∷ ps)) found, refl, refl)

-- After an insertion that succeeds, the longest match of the same tokens is the whole of them, under the
-- keys that the insertion returned, and these are the keys that are derived from the tokens.
pub longest_match-insert_pages :
    (sha256 : List ℕ → List ℕ) (index after : PrefixIndex) (tokens : List ℕ)
    (candidates : List TierRecord) (keys : List Digest)
    → insert_pages sha256 index tokens candidates ≡ ok (after, keys)
    → (r : PrefixMatch) × (longest_match sha256 after tokens ≡ some r)
      × (r.page_keys ≡ keys)
      × (r.matched_tokens ≡ length tokens)
      × (keys ≡ derive_keys sha256 index.namespace none (chunks tokens))
unfolding longest_match longest_match_with_capability
longest_match-insert_pages sha256 index after tokens candidates keys done =
    let (ps, is, all_keys, some_tokens, whole, (derived, linked, distinct, unlisted, agree)) =
      Ensures-eq_ok (insert_pages-Inserted sha256 index tokens candidates) done in
    let found =
      matching-keys sha256 index (enter_pages ps index.pages) none (chunks tokens) ps derived linked
        (All-Stored sha256 index ps distinct agree) in
    let matched =
      matching sha256 (record index { pages = enter_pages ps index.pages }) false none
        (chunks tokens) in
    let size : length matched ≡ length (chunks tokens) =
      sym (length-first_of matched)
      ∙ ap length (found ∙ derived)
      ∙ length-derive_keys sha256 index.namespace none (chunks tokens) in
    let (r, here, page_keys, count) =
      match_of-some matched (omega (arith, size, whole, some_tokens)) in
    (
      r,
      rw is here,
      page_keys ∙ found ∙ sym all_keys,
      omega (arith, count, size, whole),
      all_keys ∙ derived,
    )

references-entered :
    (p : PendingPage) (there : Option PrefixPage)
    → (entered p there).references ≡ or_zero (references_under there) + 1
unfolding entered
references-entered p none = refl
references-entered p (some page) = refl

listed-pending :
    (k : ℕ) (ps : List PendingPage)
    → any (λ j. j == k) (keys_of ps) ≡ true
    → (p : PendingPage) × Memᴰ p ps × (p.key ≡ k)
listed-pending k [] h = cc
listed-pending k (p ∷ ps) h = elim (Bool-cases (p.key == k)) [
  | inl same ↦ (p, Memᴰ.head refl, ==→eq p.key k same)
  | inr other ↦ let (q, m, e) = listed-pending k ps (rw other at h) in (q, Memᴰ.tail m, e)
]

unlisted-pending :
    (k : ℕ) (ps : List PendingPage)
    → any (λ j. j == k) (keys_of ps) ≡ false
    → All (λ p. p.key ≢ k) ps
unlisted-pending k [] h = tt
unlisted-pending k (p ∷ ps) h =
    let (apart, rest) = apart_of k p.key _ h in ((λ e. apart (sym e)), unlisted-pending k ps rest)

-- After an insertion that succeeds, each page that it returned has one reference more than before, a new
-- one its first, and every other page has the references that it had.
pub page_references-insert_pages :
    (sha256 : List ℕ → List ℕ) (index after : PrefixIndex) (tokens : List ℕ)
    (candidates : List TierRecord) (keys : List Digest) (key : Digest)
    → insert_pages sha256 index tokens candidates ≡ ok (after, keys)
    → page_references after key ≡ (
        if any (λ k. k == key) keys
        then some (or_zero (page_references index key) + 1)
        else page_references index key)
unfolding page_references
page_references-insert_pages sha256 index after tokens candidates keys key done =
    let (ps, is, all_keys, some_tokens, whole, (derived, linked, distinct, unlisted, agree)) =
      Ensures-eq_ok (insert_pages-Inserted sha256 index tokens candidates) done in
    elim (Bool-cases (any (λ k. k == key) (keys_of ps))) [
      | inl listed ↦
          let (p, m, e) = listed-pending key ps listed in
          let now = enter_pages-mem p ps index.pages distinct m in
          let at_key : find key (enter_pages ps index.pages)
              ≡ some (entered p (find key index.pages)) =
            subst (λ k. find k (enter_pages ps index.pages) ≡ some (entered p (find k index.pages)))
              e now in
          rw (is, all_keys, listed, at_key) (ap some (references-entered p (find key index.pages)))
      | inr other ↦
          rw (is, all_keys, other)
            (ap references_under
              (enter_pages-other key ps index.pages (unlisted-pending key ps other)))
    ]
