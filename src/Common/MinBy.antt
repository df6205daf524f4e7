-- ===== src/Common/MinBy.antt =====
-- `Iterator::min_by`: the first of the least elements, as `reduce` finds it.
use Prim.Native.Nat.{Ordering}
use mathlib.Core.Path.{◌≡◌, refl}
use mathlib.Core.Logic.{◌≢◌, inl, inr}
use mathlib.Core.Option.{Option, none, some}
use mathlib.Core.List.{List, [], ◌∷◌}
use native.Mathlib.Omega.{arith}
use osv_proxy.Common.Lists.{In}

module _ {A : Type 0} (cmp : A → A → Ordering) where
  abbrev pub smaller : A → A → A
  smaller x y = elim (cmp x y) [ Ordering.lt ↦ x | Ordering.eq ↦ x | Ordering.gt ↦ y ]

  unfoldable pub min_from : A → List A → A
  min_from x [] = x
  min_from x (y ∷ ys) = min_from (smaller x y) ys

  unfoldable pub min_by : List A → Option A
  unfolding min_from
  min_by [] = none
  min_by (x ∷ xs) = some (min_from x xs)

-- What the comparison of a sort must be: reflexive, total and transitive, in terms of "not greater".
pub record IsPreorder {A : Type 0} (cmp : A → A → Ordering) : Type 0 where
  pub not_gt_self : (a : A) → cmp a a ≢ Ordering.gt
  pub total : (a b : A) → cmp a b ≡ Ordering.gt → cmp b a ≢ Ordering.gt
  pub trans : (a b c : A) → cmp a b ≢ Ordering.gt → cmp b c ≢ Ordering.gt → cmp a c ≢ Ordering.gt

module _ {A : Type 0} (cmp : A → A → Ordering) where
  min_from-In : (x : A) (ys : List A) → In (min_from cmp x ys) (x ∷ ys)
  unfolding min_from
  min_from-In x [] = inl refl
  min_from-In x (y ∷ ys) = ground (arith, min_from-In (smaller cmp x y) ys)

  pub min_by-In : (xs : List A) {m : A} → min_by cmp xs ≡ some m → In m xs
  unfolding min_by
  min_by-In [] h = ground arith
  min_by-In (x ∷ xs) h = ground (arith, min_from-In x xs)

  module _ (p : IsPreorder cmp) where
    smaller-le_left : (x y : A) → cmp (smaller cmp x y) x ≢ Ordering.gt
    smaller-le_left x y = ground (arith, p.not_gt_self x, p.total x y)

    smaller-le_right : (x y : A) → cmp (smaller cmp x y) y ≢ Ordering.gt
    smaller-le_right x y = ground (arith, p.not_gt_self y)

    min_from-le_self : (x : A) (ys : List A) → cmp (min_from cmp x ys) x ≢ Ordering.gt
    unfolding min_from
    min_from-le_self x [] = p.not_gt_self x
    min_from-le_self x (y ∷ ys) =
        p.trans _ _ _ (min_from-le_self (smaller cmp x y) ys) (smaller-le_left x y)

    min_from-le :
        (x : A) (ys : List A) (a : A) → In a (x ∷ ys) → cmp (min_from cmp x ys) a ≢ Ordering.gt
    unfolding min_from
    min_from-le x ys a (inl e) = rw e (min_from-le_self x ys)
    min_from-le x (y ∷ ys) a (inr (inl e)) =
        rw e (p.trans _ _ _ (min_from-le_self (smaller cmp x y) ys) (smaller-le_right x y))
    min_from-le x (y ∷ ys) a (inr (inr h)) = min_from-le (smaller cmp x y) ys a (inr h)
    min_from-le x [] a (inr h) = elim h [ ]

    -- No element of the list is less than the one that is found.
    pub min_by-le :
        (xs : List A) {m : A} (a : A) → min_by cmp xs ≡ some m → In a xs → cmp m a ≢ Ordering.gt
    unfolding min_by
    min_by-le [] a e h = elim h [ ]
    min_by-le (x ∷ xs) a e h = ground (arith, min_from-le x xs a h)

  pub min_by-none : (xs : List A) → min_by cmp xs ≡ none → xs ≡ []
  unfolding min_by
  min_by-none [] h = refl
  min_by-none (x ∷ xs) h = ground arith
