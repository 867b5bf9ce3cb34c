-- ===== src/Cache/Sequence/Account/Maps.antt =====
-- Maps and sets of numbers under the page table's changes, and the measures taken of them.
use glmaxx.Base.{
  ℕ, zero, suc, ◌+◌, ◌≤◌, ◌<◌, ◌≡◌, refl, inl, inr, List, [], ◌∷◌, Option, none, some, ltb, ◌==◌,
  if◌then◌else◌, Bool-cases, arith,
}
use glmaxx.Base.Maps.{Map, find, insert, adjust, Ascending}
use glmaxx.Cache.Sequence.Store.{erase, set_insert}
use glmaxx.Cache.Sequence.Quarantine.{set_append, range}

-- How often a number is in a list.
unfoldable pub occurrences : ℕ → List ℕ → ℕ
occurrences k [] = 0
occurrences k (j ∷ js) = (if k == j then 1 else 0) + occurrences k js

-- One where there is something.
abbrev pub present {ℓ} : {A : Type ℓ} → Option A → ℕ
present none = 0
present (some a) = 1

pub occurrences-set_insert :
    (k j : ℕ) (js : List ℕ) → occurrences k (set_insert j js) ≡ occurrences k (j ∷ js)
unfolding occurrences set_insert
occurrences-set_insert k j [] = refl
occurrences-set_insert k j (i ∷ js) = ground (arith, occurrences-set_insert k j js)

pub occurrences-set_append :
    (k : ℕ) (is js : List ℕ)
    → occurrences k (set_append is js) ≡ occurrences k is + occurrences k js
unfolding occurrences set_append
occurrences-set_append k [] js = omega arith
occurrences-set_append k (i ∷ is) js =
    let first = occurrences-set_insert k i (set_append is js) in
    let rest = occurrences-set_append k is js in omega arith

pub occurrences-range :
    (k first n : ℕ)
    → occurrences k (range first n)
      ≡ (if ltb k first then 0 else if ltb k (first + n) then 1 else 0)
unfolding occurrences range
occurrences-range k first zero = ground arith
occurrences-range k first (suc n) = ground (arith, occurrences-range k (suc first) n)

module _ {V : Type 0} where
  pub find-erase : (j k : ℕ) (m : Map V) → find j (erase k m) ≡ (if j == k then none else find j m)
  unfolding find erase
  find-erase j k [] = ground arith
  find-erase j k ((i, w) ∷ m) = ground (arith, find-erase j k m)

  pub find-below : (k n : ℕ) (m : Map V) → k < n → Ascending n m → find k m ≡ none
  unfolding find
  find-below k n [] less a = refl
  find-below k n ((i, w) ∷ m) less a = ground (arith, find-below k (suc i) m (omega arith) a.1)

  erase-below : (k n : ℕ) (m : Map V) → k < n → Ascending n m → erase k m ≡ m
  unfolding erase
  erase-below k n [] less a = refl
  erase-below k n ((i, w) ∷ m) less a = ground (arith, erase-below k (suc i) m (omega arith) a.1)

  lower : (n i : ℕ) (m : Map V) → (n ≤ i) × Ascending (suc i) m → Ascending n m
  lower n i [] a = tt
  lower n i ((j, w) ∷ m) a = (omega (arith, a.0, a.1.0), a.1.1)

  pub erase-Ascending : (k n : ℕ) (m : Map V) → Ascending n m → Ascending n (erase k m)
  unfolding erase
  erase-Ascending k n [] a = tt
  erase-Ascending k n ((i, w) ∷ m) a = elim (Bool-cases (k == i)) [
    | inl same ↦ rw (same, erase-below k (suc i) m (ground arith) a.1) (lower n i m a)
    | inr other ↦ rw other (a.0, erase-Ascending k (suc i) m a.1)
  ]

  module _ (f : V → ℕ) where
    -- A measure of the values, summed.
    unfoldable pub summed : Map V → ℕ
    summed [] = 0
    summed ((k, v) ∷ m) = f v + summed m

    pub summed-insert :
        (k : ℕ) (v : V) (m : Map V) → find k m ≡ none → summed (insert k v m) ≡ f v + summed m
    unfolding find insert summed
    summed-insert k v [] h = refl
    summed-insert k v ((j, w) ∷ m) h = elim (Bool-cases (k == j)) [
      | inl same ↦ let impossible : some w ≡ none = rw same at h in cc
      | inr other ↦ let rest = summed-insert k v m (rw other at h) in rw other (ground arith)
    ]

    pub summed-adjust :
        (k : ℕ) (g : V → V) (m : Map V) {v : V}
        → find k m ≡ some v
        → summed (adjust k g m) + f v ≡ summed m + f (g v)
    unfolding find adjust summed
    summed-adjust k g [] h = cc
    summed-adjust k g ((j, w) ∷ m) {v} h = elim (Bool-cases (k == j)) [
      | inl same ↦
          let there : some w ≡ some v = rw same at h in
          let here : w ≡ v = cc in rw (same, here) (omega arith)
      | inr other ↦ let rest = summed-adjust k g m (rw other at h) in rw other (omega arith)
    ]

    pub summed-adjust_same :
        (k : ℕ) (g : V → V) (m : Map V)
        → ((v : V) → f (g v) ≡ f v)
        → summed (adjust k g m) ≡ summed m
    unfolding adjust summed
    summed-adjust_same k g [] h = refl
    summed-adjust_same k g ((j, w) ∷ m) h = ground (arith, summed-adjust_same k g m h, h w)

    pub summed-erase :
        (k n : ℕ) (m : Map V) {v : V}
        → Ascending n m
        → find k m ≡ some v
        → summed (erase k m) + f v ≡ summed m
    unfolding find erase summed
    summed-erase k n [] a h = cc
    summed-erase k n ((j, w) ∷ m) {v} a h = elim (Bool-cases (k == j)) [
      | inl same ↦
          let there : some w ≡ some v = rw same at h in
          let here : w ≡ v = cc in
          rw (same, here, erase-below k (suc j) m (ground arith) a.1) (omega arith)
      | inr other ↦
          let rest = summed-erase k (suc j) m a.1 (rw other at h) in rw other (omega arith)
    ]

    -- A found value is part of the summed.
    pub le-summed : (k : ℕ) (m : Map V) {v : V} → find k m ≡ some v → f v ≤ summed m
    unfolding find summed
    le-summed k [] h = cc
    le-summed k ((j, w) ∷ m) {v} h = elim (Bool-cases (k == j)) [
      | inl same ↦
          let there : some w ≡ some v = rw same at h in
          let here : w ≡ v = cc in rw here (omega arith)
      | inr other ↦ let rest = le-summed k m (rw other at h) in omega arith
    ]
