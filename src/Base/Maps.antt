-- ===== src/Base/Maps.antt =====
-- Ordered maps with number keys, as lists with ascending keys.
use Prim.Native.Nat.{ℕ, suc, suc, ◌≤◌}
use mathlib.Core.Path.{◌≡◌, refl, sym, ap, subst}
use mathlib.Core.Logic.{◌≢◌, inl, inr}
use mathlib.Core.List.{Memᴰ, List, [], ◌∷◌, map}
use mathlib.Core.Option
use mathlib.Core.Option.{Option, none, some}
use native.Mathlib.Omega.{arith}
use glmaxx.Base.Lists.{All, All-mono, Distinct}
use glmaxx.Base.Tests.{ltb, ltb→lt, ◌==◌, if◌then◌else◌, is_some, Bool-cases, ==→eq, ==-refl}

abbrev pub Map {ℓ} : Type ℓ → Type ℓ
Map V = List (ℕ × V)

module _ {ℓ} {V : Type ℓ} where
  unfoldable pub find : ℕ → Map V → Option V
  find k [] = none
  find k ((j, v) ∷ m) = if k == j then some v else find k m

  -- Replaces the value of a key that is there, and otherwise adds it in its place.
  unfoldable pub insert : ℕ → V → Map V → Map V
  insert k v [] = (k, v) ∷ []
  insert k v ((j, w) ∷ m) =
      if k == j then (k, v) ∷ m else if ltb k j then (k, v) ∷ (j, w) ∷ m else (j, w) ∷ insert k v m

  -- A change through a reference to the value of a key; nothing where the key is missing.
  unfoldable pub adjust : ℕ → (V → V) → Map V → Map V
  adjust k f [] = []
  adjust k f ((j, v) ∷ m) = if k == j then (j, f v) ∷ m else (j, v) ∷ adjust k f m

  abbrev pub values : Map V → List V
  values m = map (λ e. e.1) m

  abbrev pub Entries {κ} : (ℕ → V → Type κ) → Map V → Type κ
  Entries P [] = Unit
  Entries P ((k, v) ∷ m) = P k v × Entries P m

  -- Keys ascend from a bound on.
  abbrev pub Ascending : ℕ → Map V → Type 0
  Ascending n [] = Unit
  Ascending n ((k, v) ∷ m) = (n ≤ k) × Ascending (suc k) m

module _ {ℓ} {V : Type ℓ} where
  pub find-insert :
      (j k : ℕ) (v : V) (m : Map V) → find j (insert k v m) ≡ (if j == k then some v else find j m)
  unfolding find insert
  find-insert j k v [] = refl
  find-insert j k v ((i, w) ∷ m) = ground (arith, find-insert j k v m)

  pub find-adjust :
      (j k : ℕ) (f : V → V) (m : Map V)
      → find j (adjust k f m) ≡ (if j == k then Option.map f (find j m) else find j m)
  unfolding find adjust
  find-adjust j k f [] = ground arith
  find-adjust j k f ((i, w) ∷ m) = ground (arith, find-adjust j k f m)

  -- A change of values adds and drops no key.
  pub is_some-find-adjust :
      (j k : ℕ) (f : V → V) (m : Map V) → is_some (find j (adjust k f m)) ≡ is_some (find j m)
  unfolding find adjust
  is_some-find-adjust j k f [] = refl
  is_some-find-adjust j k f ((i, w) ∷ m) = ground (arith, is_some-find-adjust j k f m)

  module _ {κ} (P : ℕ → V → Type κ) where
    pub find-Entries : (k : ℕ) (m : Map V) {v : V} → Entries P m → find k m ≡ some v → P k v
    unfolding find
    find-Entries k [] h e = cc
    find-Entries k ((j, w) ∷ m) {v} h e = elim (Bool-cases (k == j)) [
      | inl same ↦
          let there : some w ≡ some v = rw same at e in
          let here : w ≡ v = cc in rw (==→eq k j same) (subst (P j) here h.0)
      | inr other ↦ find-Entries k m h.1 (rw other at e)
    ]

    pub insert-Entries :
        (k : ℕ) (v : V) (m : Map V) → P k v → Entries P m → Entries P (insert k v m)
    unfolding insert
    insert-Entries k v [] p h = (p, tt)
    insert-Entries k v ((j, w) ∷ m) p h = elim (Bool-cases (k == j)) [
      | inl same ↦ rw same (p, h.1)
      | inr other ↦ rw other (elim (Bool-cases (ltb k j)) [
        | inl less ↦ rw less (p, (h.0, h.1))
        | inr more ↦ rw more (h.0, insert-Entries k v m p h.1)
      ])
    ]

    pub adjust-Entries :
        (k : ℕ) (f : V → V) (m : Map V)
        → ((v : V) → find k m ≡ some v → P k v → P k (f v))
        → Entries P m
        → Entries P (adjust k f m)
    unfolding adjust find
    adjust-Entries k f [] g h = tt
    adjust-Entries k f ((j, w) ∷ m) g h = elim (Bool-cases (k == j)) [
      | inl same ↦
          let e = ==→eq k j same in
          rw same (subst (λ x. P x (f w)) e (g w (rw same) (subst (λ x. P x w) (sym e) h.0)), h.1)
      | inr other ↦ rw other (h.0, adjust-Entries k f m (λ v e. g v (rw other e)) h.1)
    ]

module _ {ℓ} {V : Type ℓ} where
  pub Entries-mono {κ ι} :
      {P : ℕ → V → Type κ} {Q : ℕ → V → Type ι} (f : (k : ℕ) (v : V) → P k v → Q k v) (m : Map V)
      → Entries P m
      → Entries Q m
  Entries-mono f [] h = tt
  Entries-mono f ((k, v) ∷ m) h = (f k v h.0, Entries-mono f m h.1)

  insert-Ascending :
      (n k : ℕ) (v : V) (m : Map V) → n ≤ k → Ascending n m → Ascending n (insert k v m)
  unfolding insert
  insert-Ascending n k v [] h a = (h, tt)
  insert-Ascending n k v ((j, w) ∷ m) h a = elim (Bool-cases (k == j)) [
    | inl same ↦ rw same (h, subst (λ x. Ascending (suc x) m) (sym (==→eq k j same)) a.1)
    | inr other ↦ rw other (elim (Bool-cases (ltb k j)) [
      | inl less ↦ rw less (h, (ltb→lt k j less, a.1))
      | inr more ↦ rw more (a.0, insert-Ascending (suc j) k v m (ground arith) a.1)
    ])
  ]

  pub insert_zero-Ascending :
      (k : ℕ) (v : V) (m : Map V) → Ascending 0 m → Ascending 0 (insert k v m)
  insert_zero-Ascending k v m = insert-Ascending 0 k v m (omega arith)

  pub adjust-Ascending :
      (n k : ℕ) (f : V → V) (m : Map V) → Ascending n m → Ascending n (adjust k f m)
  unfolding adjust
  adjust-Ascending n k f [] a = tt
  adjust-Ascending n k f ((j, w) ∷ m) a = elim (Bool-cases (k == j)) [
    | inl same ↦ rw same a
    | inr other ↦ rw other (a.0, adjust-Ascending (suc j) k f m a.1)
  ]

  -- A value of the map with ascending keys is found by its key.
  pub mem-key :
      (n : ℕ) (m : Map V) (v : V)
      → Ascending n m
      → Memᴰ v (values m)
      → (k : ℕ) × (n ≤ k) × (find k m ≡ some v)
  unfolding find
  mem-key n [] v a m = elim m [ ]
  mem-key n ((j, w) ∷ m) v a (Memᴰ.head e) = (j, a.0, rw (==-refl j) (ap some (sym e)))
  mem-key n ((j, w) ∷ m) v a (Memᴰ.tail h) =
      let (k, above, found) = mem-key (suc j) m v a.1 h in
      (k, omega arith, ground (arith, found, above))

  -- The values of a map whose values carry their keys have distinct keys.
  values-above :
      (f : V → ℕ) (n : ℕ) (m : Map V)
      → Ascending n m
      → Entries (λ k v. f v ≡ k) m
      → All (λ v. n ≤ f v) (values m)
  values-above f n [] a h = tt
  values-above f n ((k, v) ∷ m) a h = (
    omega arith,
    All-mono {P = λ v. suc k ≤ f v} (λ v b. omega arith) (values m)
        (values-above f (suc k) m a.1 h.1),
  )

  pub values-Distinct :
      (f : V → ℕ) (n : ℕ) (m : Map V)
      → Ascending n m
      → Entries (λ k v. f v ≡ k) m
      → Distinct f (values m)
  values-Distinct f n [] a h = tt
  values-Distinct f n ((k, v) ∷ m) a h = (
    All-mono {P = λ v. suc k ≤ f v} {Q = λ w. f w ≢ f v} (λ w b. omega arith) (values m)
        (values-above f (suc k) m a.1 h.1),
    values-Distinct f (suc k) m a.1 h.1,
  )

  pub find-mem : (k : ℕ) (m : Map V) {v : V} → find k m ≡ some v → Memᴰ v (values m)
  unfolding find
  find-mem k [] e = cc
  find-mem k ((j, w) ∷ m) {v} e = elim (Bool-cases (k == j)) [
    | inl same ↦
        let there : some w ≡ some v = rw same at e in let here : v ≡ w = cc in Memᴰ.head here
    | inr other ↦ Memᴰ.tail (find-mem k m (rw other at e))
  ]

  pub Entries-mem {κ} :
      (P : V → Type κ) (m : Map V) {v : V} → Entries (λ k w. P w) m → Memᴰ v (values m) → P v
  Entries-mem P [] h m = elim m [ ]
  Entries-mem P ((j, w) ∷ m) h (Memᴰ.head e) = subst P (sym e) h.0
  Entries-mem P ((j, w) ∷ m) h (Memᴰ.tail t) = Entries-mem P m h.1 t
