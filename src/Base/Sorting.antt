-- ===== src/Base/Sorting.antt =====
-- A stable insertion sort, for the library's sort by a comparator, and its laws.
use mathlib.Core.Path.{◌≡◌, refl, sym}
use mathlib.Core.Logic.{◌≢◌, inl, inr}
use mathlib.Core.Bool.{Bool, true, false}
use mathlib.Core.List.{Memᴰ, List, [], ◌∷◌, Perm}
use mathlib.Core.List.Perm
use Prim.Native.Nat.{ℕ}
use glmaxx.Base.Tests.{if◌then◌else◌, Bool-cases}
use glmaxx.Base.Lists.{All, All-mono, Distinct}

module _ {ℓ} {A : Type ℓ} (before : A → A → Bool) where
  unfoldable pub place : A → List A → List A
  place x [] = x ∷ []
  place x (y ∷ ys) = if before x y then x ∷ y ∷ ys else y ∷ place x ys

  unfoldable pub sort_by : List A → List A
  unfolding place
  sort_by [] = []
  sort_by (x ∷ xs) = place x (sort_by xs)

  place-perm : (x : A) (ys : List A) → Perm (place x ys) (x ∷ ys)
  unfolding place
  place-perm x [] = Perm.refl (x ∷ [])
  place-perm x (y ∷ ys) = elim (Bool-cases (before x y)) [
    | inl first ↦ rw first (Perm.refl (x ∷ y ∷ ys))
    | inr later ↦ rw later (Perm.trans (Perm.cons y (place-perm x ys)) (Perm.swap x y ys))
  ]

  pub sort_by-perm : (xs : List A) → Perm (sort_by xs) xs
  unfolding sort_by
  sort_by-perm [] = Perm.refl []
  sort_by-perm (x ∷ xs) = Perm.trans (place-perm x (sort_by xs)) (Perm.cons x (sort_by-perm xs))

  place-All {κ} : (P : A → Type κ) (x : A) (ys : List A) → P x → All P ys → All P (place x ys)
  unfolding place
  place-All P x [] p h = (p, tt)
  place-All P x (y ∷ ys) p h = elim (Bool-cases (before x y)) [
    | inl first ↦ rw first (p, h)
    | inr later ↦ rw later (h.0, place-All P x ys p h.1)
  ]

  pub sort_by-All {κ} : (P : A → Type κ) (xs : List A) → All P xs → All P (sort_by xs)
  unfolding sort_by
  sort_by-All P [] h = tt
  sort_by-All P (x ∷ xs) h = place-All P x (sort_by xs) h.0 (sort_by-All P xs h.1)

  place-mem_self : (x : A) (ys : List A) → Memᴰ x (place x ys)
  unfolding place
  place-mem_self x [] = Memᴰ.head refl
  place-mem_self x (y ∷ ys) = elim (Bool-cases (before x y)) [
    | inl first ↦ rw first (Memᴰ.head refl)
    | inr later ↦ rw later (Memᴰ.tail (place-mem_self x ys))
  ]

  place-mem : {a : A} (x : A) (ys : List A) → Memᴰ a ys → Memᴰ a (place x ys)
  unfolding place
  place-mem x [] m = elim m [ ]
  place-mem x (y ∷ ys) (Memᴰ.head e) = elim (Bool-cases (before x y)) [
    | inl first ↦ rw first (Memᴰ.tail (Memᴰ.head e))
    | inr later ↦ rw later (Memᴰ.head e)
  ]
  place-mem x (y ∷ ys) (Memᴰ.tail m) = elim (Bool-cases (before x y)) [
    | inl first ↦ rw first (Memᴰ.tail (Memᴰ.tail m))
    | inr later ↦ rw later (Memᴰ.tail (place-mem x ys m))
  ]

  pub mem-sort_by : {a : A} (xs : List A) → Memᴰ a xs → Memᴰ a (sort_by xs)
  unfolding sort_by
  mem-sort_by [] m = elim m [ ]
  mem-sort_by {a} (x ∷ xs) (Memᴰ.head e) = rw e (place-mem_self x (sort_by xs))
  mem-sort_by (x ∷ xs) (Memᴰ.tail m) = place-mem x (sort_by xs) (mem-sort_by xs m)

  place-Distinct :
      (f : A → ℕ) (x : A) (ys : List A)
      → All (λ y. f y ≢ f x) ys
      → Distinct f ys
      → Distinct f (place x ys)
  unfolding place
  place-Distinct f x [] new d = (tt, tt)
  place-Distinct f x (y ∷ ys) new d = elim (Bool-cases (before x y)) [
    | inl first ↦ rw first (new, d)
    | inr later ↦
        rw later (
          place-All (λ z. f z ≢ f y) x ys (λ e. new.0 (sym e)) d.0,
          place-Distinct f x ys new.1 d.1,
        )
  ]

  pub sort_by-Distinct : (f : A → ℕ) (xs : List A) → Distinct f xs → Distinct f (sort_by xs)
  unfolding sort_by
  sort_by-Distinct f [] d = tt
  sort_by-Distinct f (x ∷ xs) d =
      place-Distinct f x (sort_by xs) (sort_by-All (λ y. f y ≢ f x) xs d.0)
        (sort_by-Distinct f xs d.1)

  -- Each element may stand before all that follow it.
  abbrev pub IsOrdered : List A → Type ℓ
  IsOrdered [] = Unit
  IsOrdered (x ∷ xs) = All (λ y. before x y ≡ true) xs × IsOrdered xs

  module _ (total : (x y : A) → before x y ≡ false → before y x ≡ true)
      (trans : (x y z : A) → before x y ≡ true → before y z ≡ true → before x z ≡ true) where
    place-IsOrdered : (x : A) (ys : List A) → IsOrdered ys → IsOrdered (place x ys)
    unfolding place
    place-IsOrdered x [] s = (tt, tt)
    place-IsOrdered x (y ∷ ys) s = elim (Bool-cases (before x y)) [
      | inl first ↦
          rw first
            ((first, All-mono {Q = λ z. before x z ≡ true} (λ z h. trans x y z first h) ys s.0), s)
      | inr later ↦
          rw later (
            place-All (λ z. before y z ≡ true) x ys (total x y later) s.0,
            place-IsOrdered x ys s.1,
          )
    ]

    pub sort_by-IsOrdered : (xs : List A) → IsOrdered (sort_by xs)
    unfolding sort_by
    sort_by-IsOrdered [] = tt
    sort_by-IsOrdered (x ∷ xs) = place-IsOrdered x (sort_by xs) (sort_by-IsOrdered xs)
