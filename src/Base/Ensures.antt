-- ===== src/Base/Ensures.antt =====
-- What a fallible step establishes when it succeeds, with a rule for each way to put steps together.
use mathlib.Core.Path.{◌≡◌, refl, subst}
use mathlib.Core.Bool.{Bool, true, false}
use mathlib.Core.Option.{Option, none, some}
use glmaxx.Base.Tests.{if◌then◌else◌}
use glmaxx.Base.Results.{Result, ok, err, or_fail, ◌>>=◌}

pub data Ensures {E : Type 0} {A : Type 0} (P : A → Type 0) : Result E A → Type 0 where
  returned : {a : A} → P a → Ensures P (ok a)
  failed : {e : E} → Ensures P (err e)

module _ {E : Type 0} {A : Type 0} where
  pub bind-Ensures :
      {B : Type 0} {P : A → Type 0} {Q : B → Type 0} {m : Result E A} {f : A → Result E B}
      → Ensures P m
      → ((a : A) → P a → Ensures Q (f a))
      → Ensures Q (m >>= f)
  bind-Ensures (Ensures.returned {a = a} p) g = g a p
  bind-Ensures Ensures.failed g = Ensures.failed

  pub Ensures-mono :
      {P Q : A → Type 0} {m : Result E A} → Ensures P m → ((a : A) → P a → Q a) → Ensures Q m
  Ensures-mono (Ensures.returned {a = a} p) g = Ensures.returned (g a p)
  Ensures-mono Ensures.failed g = Ensures.failed

  -- The value that an optional lookup found, with the equation.
  pub or_fail-Ensures : (o : Option A) (e : E) → Ensures (λ a. o ≡ some a) (or_fail o e)
  or_fail-Ensures none e = Ensures.failed
  or_fail-Ensures (some a) e = Ensures.returned refl

  -- A test keeps the equation of the branch it takes.
  pub if-Ensures :
      {P : A → Type 0} (b : Bool) {x y : Result E A}
      → ((b ≡ true) → Ensures P x)
      → ((b ≡ false) → Ensures P y)
      → Ensures P (if b then x else y)
  if-Ensures true f g = f refl
  if-Ensures false f g = g refl

  -- A guard whose first branch fails.
  pub guard-Ensures :
      {P : A → Type 0} (b : Bool) (e : E) {y : Result E A}
      → ((b ≡ false) → Ensures P y)
      → Ensures P (if b then err e else y)
  guard-Ensures b e g = if-Ensures b (λ h. Ensures.failed) g

  pub Ensures-eq_ok : {P : A → Type 0} {m : Result E A} {a : A} → Ensures P m → m ≡ ok a → P a
  Ensures-eq_ok {P} {a} (Ensures.returned {a = b} p) h = let same : b ≡ a = cc in subst P same p
  Ensures-eq_ok Ensures.failed h = cc

  pub any-Ensures : (m : Result E A) → Ensures (λ a. Unit) m
  any-Ensures (ok a) = Ensures.returned tt
  any-Ensures (err e) = Ensures.failed

  -- Steps that agree after a first one.
  pub >>=-cong :
      {B : Type 0} (m : Result E A) (f g : A → Result E B)
      → ((a : A) → f a ≡ g a)
      → (m >>= f) ≡ (m >>= g)
  >>=-cong (ok a) f g h = h a
  >>=-cong (err e) f g h = refl
