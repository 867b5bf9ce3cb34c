-- ===== src/Base/Members.antt =====
-- Membership with its position, for the Boolean operations on lists.
use mathlib.Core.Path.{◌≡◌, refl, sym, subst}
use mathlib.Core.Logic.{inl, inr}
use mathlib.Core.Bool.{Bool, true}
use mathlib.Core.List.{Memᴰ, List, [], ◌∷◌}
use native.Mathlib.Omega.{arith}
use glmaxx.Base.Tests.{Bool-cases}
use glmaxx.Base.Lists.{keep, any, All}

module _ {ℓ} {A : Type ℓ} where
  pub All-mem {κ} : (P : A → Type κ) {a : A} {xs : List A} → Memᴰ a xs → All P xs → P a
  All-mem P (Memᴰ.head e) h = subst P (sym e) h.0
  All-mem P (Memᴰ.tail m) h = All-mem P m h.1

  pub All-of_mem {κ} : (P : A → Type κ) (xs : List A) → ((a : A) → Memᴰ a xs → P a) → All P xs
  All-of_mem P [] f = tt
  All-of_mem P (x ∷ xs) f = (f x (Memᴰ.head refl), All-of_mem P xs (λ a m. f a (Memᴰ.tail m)))

  -- What holds of the head and of the members of the tail holds of the members.
  pub mem-cases {κ} :
      (P : A → Type κ) {x : A} {xs : List A}
      → P x
      → ((a : A) → Memᴰ a xs → P a)
      → (a : A) → Memᴰ a (x ∷ xs)
      → P a
  mem-cases P p f a (Memᴰ.head e) = subst P (sym e) p
  mem-cases P p f a (Memᴰ.tail m) = f a m

  -- A list with a member is not empty.
  pub mem-nonempty : {a : A} {xs : List A} → Memᴰ a xs → (x : A) × (ys : List A) × (xs ≡ x ∷ ys)
  mem-nonempty {xs = []} m = elim m [ ]
  mem-nonempty {xs = x ∷ xs} m = (x, xs, refl)

  module _ (p : A → Bool) where
    pub mem-keep : {a : A} (xs : List A) → Memᴰ a xs → p a ≡ true → Memᴰ a (keep p xs)
    mem-keep [] m h = elim m [ ]
    mem-keep (x ∷ xs) (Memᴰ.head e) h = rw (subst (λ y. p y ≡ true) e h) (Memᴰ.head e)
    mem-keep (x ∷ xs) (Memᴰ.tail m) h = elim (Bool-cases (p x)) [
      | inl kept ↦ rw kept (Memᴰ.tail (mem-keep xs m h))
      | inr dropped ↦ rw dropped (mem-keep xs m h)
    ]

    kept_head :
        {a : A} (x : A) {ys zs : List A}
        → p x ≡ true
        → (Memᴰ a ys → Memᴰ a zs × (p a ≡ true))
        → Memᴰ a (x ∷ ys)
        → Memᴰ a (x ∷ zs) × (p a ≡ true)
    kept_head x h f (Memᴰ.head e) = (Memᴰ.head e, subst (λ y. p y ≡ true) (sym e) h)
    kept_head x h f (Memᴰ.tail m) = (Memᴰ.tail (f m).0, (f m).1)

    pub mem-of_keep : {a : A} (xs : List A) → Memᴰ a (keep p xs) → Memᴰ a xs × (p a ≡ true)
    mem-of_keep [] m = elim m [ ]
    mem-of_keep (x ∷ xs) m = elim (Bool-cases (p x)) [
      | inl kept ↦ kept_head x kept (mem-of_keep xs) (rw kept at m)
      | inr dropped ↦ let r = mem-of_keep xs (rw dropped at m) in (Memᴰ.tail r.0, r.1)
    ]

    pub any-mem : (xs : List A) → any p xs ≡ true → (a : A) × Memᴰ a xs × (p a ≡ true)
    any-mem [] h = cc
    any-mem (x ∷ xs) h = elim (Bool-cases (p x)) [
      | inl found ↦ (x, Memᴰ.head refl, found)
      | inr other ↦ let r = any-mem xs (ground arith) in (r.0, Memᴰ.tail r.1, r.2)
    ]

    pub mem-any : {a : A} (xs : List A) → Memᴰ a xs → p a ≡ true → any p xs ≡ true
    mem-any [] m h = elim m [ ]
    mem-any (x ∷ xs) (Memᴰ.head e) h = rw (subst (λ y. p y ≡ true) e h)
    mem-any (x ∷ xs) (Memᴰ.tail m) h = ground (arith, mem-any xs m h)
