-- ===== src/Common/Results.antt =====
-- `Result`, with the `?` operator as the bind of a `do` block, and `collect` into a `Result`.
use mathlib.Core.List.{List, [], ◌∷◌}
use mathlib.Core.Path.{◌≡◌, refl}
use mathlib.Core.Logic.{◌⊎◌, inl, inr}
use mathlib.Core.Bool.{Bool, true, false}
use osv_proxy.Common.Tests.{if◌then◌else◌}

pub data Result (E A : Type 0) : Type 0 where
  ok : A → Result E A
  err : E → Result E A

infixl 5 ◌>>=◌
abbrev pub ◌>>=◌ : {E A B : Type 0} → Result E A → (A → Result E B) → Result E B
ok a >>= f = f a
err e >>= f = err e

-- `Iterator::map` followed by `collect::<Result<Vec<_>, _>>`.
unfoldable pub collect : {E A B : Type 0} → (A → Result E B) → List A → Result E (List B)
collect f [] = ok []
collect f (x ∷ xs) = do b ← f x; bs ← collect f xs; ok (b ∷ bs)

-- What a result that is `ok` says of the steps that it comes from.
pub err-ne-ok : {E A : Type 0} (e : E) (a : A) → ◌≡◌ {A = Result E A} (err e) (ok a) → ⊥
err-ne-ok e a h = cc

module _ {E A : Type 0} where
  pub bind-ok :
      {B : Type 0} (r : Result E A) (f : A → Result E B) (b : B)
      → (r >>= f) ≡ ok b
      → (a : A) × (r ≡ ok a) × (f a ≡ ok b)
  bind-ok (ok a) f b h = (a, refl, h)
  bind-ok (err e) f b h = absurd (err-ne-ok e b h)

  pub guard-ok :
      (t : Bool) (e : E) (r : Result E A) (a : A)
      → (if t then err e else r) ≡ ok a
      → (t ≡ false) × (r ≡ ok a)
  guard-ok true e r a h = absurd (err-ne-ok e a h)
  guard-ok false e r a h = (refl, h)

  pub ok-injective : (a b : A) → ◌≡◌ {A = Result E A} (ok a) (ok b) → a ≡ b
  ok-injective a b h = cc

  pub Result-cases : (r : Result E A) → ((a : A) × (r ≡ ok a)) ⊎ ((e : E) × (r ≡ err e))
  Result-cases (ok a) = inl (a, refl)
  Result-cases (err e) = inr (e, refl)
