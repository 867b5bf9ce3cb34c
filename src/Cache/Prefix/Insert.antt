-- ===== src/Cache/Prefix/Insert.antt =====
-- What an insertion plans and what it enters: crates/glm-cache/src/prefix.rs, `PrefixIndex::insert`.
use glmaxx.Base.{
  ℕ, suc, ◌+◌, ◌/◌, ◌<◌, ◌≡◌, ◌≢◌, refl, ap, sym, ◌∙◌, subst, inl, inr, false, List, [], ◌∷◌, ◌++◌,
  Memᴰ, length, All, All-mem, Distinct, Option, none, some, ◌==◌, if◌then◌else◌, ==→eq, ==-refl,
  Bool-cases, arith,
}
use glmaxx.Base.Maps.{Map, find, find-insert, find-adjust}
use glmaxx.Cache.Budget.{page_tokens}
use glmaxx.Cache.Prefix.{PrefixPage, chunks_after, PendingPage, enter_page, enter_pages}

length-push : (xs : List ℕ) (x : ℕ) → length (xs ++ (x ∷ [])) ≡ suc (length xs)
length-push [] x = refl
length-push (y ∷ xs) x = ap suc (length-push xs x)

pub length-chunks_after :
    (current tokens : List ℕ)
    → length current < page_tokens
    → length (chunks_after current tokens) ≡ (length current + length tokens) / page_tokens
unfolding chunks_after
length-chunks_after current [] h = omega arith
length-chunks_after current (t ∷ ts) h =
    elim (Bool-cases (length (current ++ (t ∷ [])) == page_tokens)) [
      | inl full ↦
          let size = length-push current t in
          let count = ==→eq (length (current ++ (t ∷ []))) page_tokens full in
          let rest = length-chunks_after [] ts (omega arith) in rw full (omega arith)
      | inr more ↦
          let size = length-push current t in
          let less : length (current ++ (t ∷ [])) < page_tokens = ground (arith, more, size, h) in
          let rest = length-chunks_after (current ++ (t ∷ [])) ts less in rw more (omega arith)
    ]

-- The page that is under a pending page's key after it was entered.
unfoldable pub entered : PendingPage → Option PrefixPage → PrefixPage
entered p none = record { parent = p.parent; record_of = p.record_of; references = 1 }
entered p (some existing) = record existing {
  record_of = if p.replace then p.record_of else existing.record_of;
  references = existing.references + 1;
}

find-enter_page :
    (k : ℕ) (p : PendingPage) (pages : Map PrefixPage) (there : Option PrefixPage)
    → find p.key pages ≡ there
    → find k (enter_page p there pages)
      ≡ (if k == p.key then some (entered p there) else find k pages)
unfolding enter_page entered
find-enter_page k p pages none e = find-insert k p.key _ pages
find-enter_page k p pages (some existing) e = elim (Bool-cases (k == p.key)) [
  | inl same ↦ rw (find-adjust k p.key _ pages, same, ==→eq k p.key same, e)
  | inr other ↦ rw (find-adjust k p.key _ pages, other)
]

differ : (a b : ℕ) → a ≢ b → (b == a) ≡ false
differ a b h = elim (Bool-cases (b == a)) [
  | inl same ↦ absurd (h (sym (==→eq b a same)))
  | inr other ↦ other
]

find-enter_other :
    (k : ℕ) (p : PendingPage) (pages : Map PrefixPage)
    → p.key ≢ k
    → find k (enter_page p (find p.key pages) pages) ≡ find k pages
find-enter_other k p pages other =
    find-enter_page k p pages (find p.key pages) refl ∙ rw (differ p.key k other)

pub enter_pages-other :
    (k : ℕ) (ps : List PendingPage) (pages : Map PrefixPage)
    → All (λ p. p.key ≢ k) ps
    → find k (enter_pages ps pages) ≡ find k pages
unfolding enter_pages
enter_pages-other k [] pages h = refl
enter_pages-other k (p ∷ ps) pages h =
    enter_pages-other k ps (enter_page p (find p.key pages) pages) h.1
    ∙ find-enter_other k p pages h.0

-- With distinct keys, each pending page is entered once, over what was there.
pub enter_pages-mem :
    (p : PendingPage) (ps : List PendingPage) (pages : Map PrefixPage)
    → Distinct (λ e. e.key) ps
    → Memᴰ p ps
    → find p.key (enter_pages ps pages) ≡ some (entered p (find p.key pages))
unfolding enter_pages
enter_pages-mem p [] pages distinct m = elim m [ ]
enter_pages-mem p (e ∷ ps) pages distinct (Memᴰ.head h) =
    subst
      (λ x.
        find x.key (enter_pages ps (enter_page e (find e.key pages) pages))
        ≡ some (entered x (find x.key pages)))
      (sym h)
      (enter_pages-other e.key ps _ distinct.0
        ∙ find-enter_page e.key e pages (find e.key pages) refl
        ∙ rw (==-refl e.key))
enter_pages-mem p (e ∷ ps) pages distinct (Memᴰ.tail h) =
    let apart = All-mem (λ y. y.key ≢ e.key) h distinct.0 in
    let same = find-enter_other p.key e pages (λ q. apart (sym q)) in
    enter_pages-mem p ps (enter_page e (find e.key pages) pages) distinct.1 h
    ∙ ap (λ (o : Option PrefixPage). some (entered p o)) same
