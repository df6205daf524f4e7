-- ===== src/Common/Orders.antt =====
-- `Ordering`: the order of numbers, `Ordering::then_with` and `Ordering::reverse`.
use Prim.Native.Nat.{ℕ, Ordering}
use mathlib.Core.Path.{◌≡◌, refl}
use native.Mathlib.Omega.{arith}
use mathlib.Core.List.{[], ◌∷◌}
use osv_proxy.Common.Chars.{Text, text_cmp}
use osv_proxy.Common.Tests.{ltb, if◌then◌else◌}

abbrev pub cmp_number : ℕ → ℕ → Ordering
cmp_number a b = if ltb a b then Ordering.lt else if ltb b a then Ordering.gt else Ordering.eq

abbrev pub then_with : Ordering → Ordering → Ordering
then_with Ordering.lt next = Ordering.lt
then_with Ordering.eq next = next
then_with Ordering.gt next = Ordering.gt

abbrev pub reverse : Ordering → Ordering
reverse Ordering.lt = Ordering.gt
reverse Ordering.eq = Ordering.eq
reverse Ordering.gt = Ordering.lt

pub cmp_number-reverse : (a b : ℕ) → cmp_number b a ≡ reverse (cmp_number a b)
cmp_number-reverse a b = ground arith

pub text_cmp-reverse : (s t : Text) → text_cmp t s ≡ reverse (text_cmp s t)
unfolding text_cmp
text_cmp-reverse [] [] = refl
text_cmp-reverse [] (b ∷ t) = refl
text_cmp-reverse (a ∷ s) [] = refl
text_cmp-reverse (a ∷ s) (b ∷ t) = ground (arith, text_cmp-reverse s t)

pub then_with-reverse :
    (o p : Ordering) → reverse (then_with o p) ≡ then_with (reverse o) (reverse p)
then_with-reverse Ordering.lt p = refl
then_with-reverse Ordering.eq p = refl
then_with-reverse Ordering.gt p = refl

pub reverse_twice : (o : Ordering) → reverse (reverse o) ≡ o
reverse_twice Ordering.lt = refl
reverse_twice Ordering.eq = refl
reverse_twice Ordering.gt = refl

pub cmp_number_self : (a : ℕ) → cmp_number a a ≡ Ordering.eq
cmp_number_self a = ground arith
