-- ===== src/Common/Sort.antt =====
-- `slice::sort_by`, which is stable, and `Vec::dedup`. What `sort_by` makes where the comparison is
-- no total order is left open by the standard library: the model inserts from the back.
use Prim.Native.Nat.{Ordering}
use mathlib.Core.Path.{◌≡◌}
use mathlib.Core.Logic.{◌↔◌, inl, inr}
use mathlib.Core.Bool.{Bool, true}
use mathlib.Core.List.{List, [], ◌∷◌}
use native.Mathlib.Omega.{arith}
use osv_proxy.Common.Tests.{if◌then◌else◌, Bool-cases}
use osv_proxy.Common.Lists.{In}

module _ {A : Type 0} (cmp : A → A → Ordering) where
  unfoldable pub sort_insert : A → List A → List A
  sort_insert x [] = x ∷ []
  sort_insert x (y ∷ ys) = elim (cmp x y) [
    | Ordering.gt ↦ y ∷ sort_insert x ys
    | Ordering.eq ↦ x ∷ y ∷ ys
    | Ordering.lt ↦ x ∷ y ∷ ys
  ]

  unfoldable pub sort_by : List A → List A
  unfolding sort_insert
  sort_by [] = []
  sort_by (x ∷ xs) = sort_insert x (sort_by xs)

  In-sort_insert : (x : A) (xs : List A) (a : A) → In a (sort_insert x xs) ↔ In a (x ∷ xs)
  unfolding sort_insert
  In-sort_insert x [] a = ground arith
  In-sort_insert x (y ∷ ys) a = ground (arith, In-sort_insert x ys a)

  pub In-sort_by : (xs : List A) (a : A) → In a (sort_by xs) ↔ In a xs
  unfolding sort_by
  In-sort_by [] a = ground arith
  In-sort_by (x ∷ xs) a = ground (arith, In-sort_by xs a, In-sort_insert x (sort_by xs) a)

module _ {A : Type 0} (same : A → A → Bool) where
  abbrev dedup_step : A → List A → List A
  dedup_step x [] = x ∷ []
  dedup_step x (y ∷ ys) = if same x y then x ∷ ys else x ∷ y ∷ ys

  unfoldable pub dedup : List A → List A
  dedup [] = []
  dedup (x ∷ xs) = dedup_step x (dedup xs)

  In-dedup_step :
      ((a b : A) → same a b ≡ true → a ≡ b)
      → (x : A) (ys : List A) (a : A) → In a (dedup_step x ys) ↔ In a (x ∷ ys)
  In-dedup_step eq x [] a = ground arith
  In-dedup_step eq x (y ∷ ys) a = elim (Bool-cases (same x y)) [
    | inl e ↦ rw (e, eq x y e) (ground arith)
    | inr e ↦ ground arith
  ]

  pub In-dedup :
      ((a b : A) → same a b ≡ true → a ≡ b) → (xs : List A) (a : A) → In a (dedup xs) ↔ In a xs
  unfolding dedup
  In-dedup eq [] a = ground arith
  In-dedup eq (x ∷ xs) a = ground (arith, In-dedup eq xs a, In-dedup_step eq x (dedup xs) a)
