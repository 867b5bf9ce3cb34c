-- ===== src/Base/Related.antt =====
-- Two maps with the same keys whose values are related key by key.
use Prim.Native.Nat.{ℕ, ◌≤◌}
use mathlib.Core.Path.{◌≡◌, refl, subst}
use mathlib.Core.Logic.{inl, inr}
use mathlib.Core.Bool.{Bool, true}
use mathlib.Core.List.{[], ◌∷◌}
use mathlib.Core.Option.{some}
use native.Mathlib.Omega.{arith}
use glmaxx.Base.Tests.{◌==◌, Bool-cases}
use glmaxx.Base.Lists.{count}
use glmaxx.Base.Maps.{Map, find, adjust, values}

abbrev pub Related {ℓ} : {V : Type ℓ} → (V → V → Type 0) → Map V → Map V → Type 0
Related R [] [] = Unit
Related R [] (f ∷ n) = ⊥
Related R (e ∷ m) [] = ⊥
Related R ((k, v) ∷ m) ((j, w) ∷ n) = (k ≡ j) × R v w × Related R m n

module _ {ℓ} {V : Type ℓ} (R : V → V → Type 0) where
  pub Related-refl : ((v : V) → R v v) → (m : Map V) → Related R m m
  Related-refl r [] = tt
  Related-refl r ((k, v) ∷ m) = (refl, r v, Related-refl r m)

  -- A change of one value keeps the relation if it keeps it there.
  pub adjust-Related :
      (k : ℕ) (f : V → V) (m n : Map V)
      → ((v w : V) → find k m ≡ some v → R v w → R v (f w))
      → Related R m n
      → Related R m (adjust k f n)
  unfolding find adjust
  adjust-Related k f [] [] g h = tt
  adjust-Related k f [] (e ∷ n) g h = absurd h
  adjust-Related k f (e ∷ m) [] g h = absurd h
  adjust-Related k f ((i, v) ∷ m) ((j, w) ∷ n) g (same, r, rest) = elim (Bool-cases (k == j)) [
    | inl hit ↦ rw hit (same, g v w (ground arith) r, rest)
    | inr miss ↦ rw miss (same, r, adjust-Related k f m n (λ a b e. g a b (ground arith)) rest)
  ]

  pub find-Related :
      (k : ℕ) (m n : Map V) {v : V}
      → Related R m n
      → find k m ≡ some v
      → (w : V) × (find k n ≡ some w) × R v w
  unfolding find
  find-Related k [] n h e = cc
  find-Related k (x ∷ m) [] h e = absurd h
  find-Related k ((i, v) ∷ m) ((j, w) ∷ n) {v = u} (same, r, rest) e = elim (Bool-cases (k == i)) [
    | inl hit ↦ let there : v ≡ u = ground arith in (w, ground arith, subst (λ x. R x w) there r)
    | inr miss ↦
        let (w', found, r') = find-Related k m n rest (ground arith) in (w', ground arith, r')
  ]

  -- Where a property passes back along the relation, no more values have it.
  pub count-Related :
      (p : V → Bool) (m n : Map V)
      → ((v w : V) → R v w → p w ≡ true → p v ≡ true)
      → Related R m n
      → count p (values n) ≤ count p (values m)
  count-Related p [] [] back h = omega arith
  count-Related p [] (e ∷ n) back h = absurd h
  count-Related p (e ∷ m) [] back h = absurd h
  count-Related p ((i, v) ∷ m) ((j, w) ∷ n) back (same, r, rest) =
      ground (arith, back v w r, count-Related p m n back rest)

  pub find-Related_back :
      (k : ℕ) (m n : Map V) {w : V}
      → Related R m n
      → find k n ≡ some w
      → (v : V) × (find k m ≡ some v) × R v w
  unfolding find
  find-Related_back k [] [] h e = cc
  find-Related_back k [] (x ∷ n) h e = absurd h
  find-Related_back k (x ∷ m) [] h e = absurd h
  find-Related_back k ((i, v) ∷ m) ((j, w) ∷ n) {w = u} (same, r, rest) e =
      elim (Bool-cases (k == i)) [
        | inl hit ↦
            let there : w ≡ u = ground arith in (v, ground arith, subst (λ x. R v x) there r)
        | inr miss ↦
            let (v', found, r') = find-Related_back k m n rest (ground arith) in
            (v', ground arith, r')
      ]
