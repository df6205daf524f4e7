-- ===== src/Common/TextOrder.antt =====
-- `str::cmp` is a total order; what filters and searches find.
use Prim.Native.Nat.{Ordering}
use mathlib.Core.Path.{◌≡◌, refl}
use mathlib.Core.Logic.{◌≢◌, ◌↔◌, inl, inr}
use mathlib.Core.Bool.{Bool, true}
use mathlib.Core.List.{List, [], ◌∷◌}
use mathlib.Core.Option.{none, some}
use native.Mathlib.Omega.{arith}
use osv_proxy.Common.Tests.{Bool-cases}
use osv_proxy.Common.Lists.{In, filter, find}
use osv_proxy.Common.Chars.{Text, text_cmp}
use osv_proxy.Common.MinBy.{IsPreorder}

pub text_cmp_refl : (s : Text) → text_cmp s s ≡ Ordering.eq
unfolding text_cmp
text_cmp_refl [] = refl
text_cmp_refl (a ∷ s) = ground (arith, text_cmp_refl s)

pub text_cmp_eq : (s t : Text) → text_cmp s t ≡ Ordering.eq → s ≡ t
unfolding text_cmp
text_cmp_eq [] [] h = refl
text_cmp_eq [] (b ∷ t) h = ground arith
text_cmp_eq (a ∷ s) [] h = ground arith
text_cmp_eq (a ∷ s) (b ∷ t) h = ground (arith, text_cmp_eq s t)

pub text_cmp_total : (s t : Text) → text_cmp s t ≡ Ordering.gt → text_cmp t s ≡ Ordering.lt
unfolding text_cmp
text_cmp_total [] [] h = ground arith
text_cmp_total [] (b ∷ t) h = ground arith
text_cmp_total (a ∷ s) [] h = refl
text_cmp_total (a ∷ s) (b ∷ t) h = ground (arith, text_cmp_total s t)

pub text_cmp_trans :
    (s t u : Text)
    → text_cmp s t ≢ Ordering.gt
    → text_cmp t u ≢ Ordering.gt
    → text_cmp s u ≢ Ordering.gt
unfolding text_cmp
text_cmp_trans [] [] u h k = k
text_cmp_trans [] (b ∷ t) [] h k = ground arith
text_cmp_trans [] (b ∷ t) (c ∷ u) h k = ground arith
text_cmp_trans (a ∷ s) [] u h k = ground arith
text_cmp_trans (a ∷ s) (b ∷ t) [] h k = ground arith
text_cmp_trans (a ∷ s) (b ∷ t) (c ∷ u) h k = ground (arith, text_cmp_trans s t u)

pub text_cmp_lt_trans :
    (s t u : Text)
    → text_cmp s t ≡ Ordering.lt
    → text_cmp t u ≡ Ordering.lt
    → text_cmp s u ≡ Ordering.lt
unfolding text_cmp
text_cmp_lt_trans [] [] u h k = ground arith
text_cmp_lt_trans [] (b ∷ t) [] h k = ground arith
text_cmp_lt_trans [] (b ∷ t) (c ∷ u) h k = refl
text_cmp_lt_trans (a ∷ s) [] u h k = ground arith
text_cmp_lt_trans (a ∷ s) (b ∷ t) [] h k = ground arith
text_cmp_lt_trans (a ∷ s) (b ∷ t) (c ∷ u) h k = ground (arith, text_cmp_lt_trans s t u)

pub text_cmp-IsPreorder : IsPreorder text_cmp
text_cmp-IsPreorder = record {
  not_gt_self = λ s. ground (arith, text_cmp_refl s);
  total = λ s t h. ground (arith, text_cmp_total s t);
  trans = text_cmp_trans;
}

pub In-filter :
    {A : Type 0} (p : A → Bool) (xs : List A) (a : A)
    → In a (filter p xs) ↔ (In a xs × (p a ≡ true))
In-filter p [] a = ((λ h. elim h [ ]), (λ h. elim h.0 [ ]))
In-filter p (x ∷ xs) a = elim (Bool-cases (p x)) [
  | inl e ↦ ground (arith, In-filter p xs a)
  | inr e ↦ ground (arith, In-filter p xs a)
]

pub find-none :
    {A : Type 0} (p : A → Bool) (xs : List A) (a : A) → find p xs ≡ none → In a xs → p a ≡ true → ⊥
find-none p [] a h i e = i
find-none p (x ∷ xs) a h (inl i) e =
    let yes_here : p x ≡ true = rw i at e in ground (arith, yes_here)
find-none p (x ∷ xs) a h (inr i) e = ground (arith, find-none p xs a)

pub find-some :
    {A : Type 0} (p : A → Bool) (xs : List A) (a : A) → find p xs ≡ some a → In a xs × (p a ≡ true)
find-some p [] a h = ground arith
find-some p (x ∷ xs) a h = elim (Bool-cases (p x)) [
  | inl e ↦ ground arith
  | inr e ↦ ground (arith, find-some p xs a)
]
