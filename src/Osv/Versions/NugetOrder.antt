-- ===== src/Osv/Versions/NugetOrder.antt =====
-- The order of NuGet versions does not depend on which of the two comes first.
use osv_proxy.Common.{
  ℕ, ◌≡◌, refl, sym, Option, none, some, Ordering, reverse, then_with, cmp_number,
  cmp_number-reverse, text_cmp-reverse, then_with-reverse, List, [], ◌∷◌, length, Text, split,
}
use osv_proxy.Osv.Versions.{
  cmp_numbers, cmp_parts, parse_u64, cmp_side_by_side, compare_nuget_prerelease, cmp_pre,
  nuget_parts, compare_normalized,
}

then_with_both :
    (a b c d : Ordering) → c ≡ reverse a → d ≡ reverse b → then_with c d ≡ reverse (then_with a b)
then_with_both a b c d h k = rw (h, k) (sym (then_with-reverse a b))

cmp_numbers-reverse :
    (left right : List ℕ) → cmp_numbers right left ≡ reverse (cmp_numbers left right)
unfolding cmp_numbers
cmp_numbers-reverse [] [] = refl
cmp_numbers-reverse [] (b ∷ right) = refl
cmp_numbers-reverse (a ∷ left) [] = refl
cmp_numbers-reverse (a ∷ left) (b ∷ right) =
    then_with_both (cmp_number a b) (cmp_numbers left right) (cmp_number b a)
      (cmp_numbers right left) (cmp_number-reverse a b) (cmp_numbers-reverse left right)

cmp_parts-reverse : (m n : Option ℕ) (a b : Text) → cmp_parts n m b a ≡ reverse (cmp_parts m n a b)
cmp_parts-reverse none none a b = text_cmp-reverse a b
cmp_parts-reverse none (some n) a b = refl
cmp_parts-reverse (some m) none a b = refl
cmp_parts-reverse (some m) (some n) a b = cmp_number-reverse m n

cmp_side_by_side-reverse :
    (left right : List Text) → cmp_side_by_side right left ≡ reverse (cmp_side_by_side left right)
unfolding cmp_side_by_side
cmp_side_by_side-reverse [] [] = refl
cmp_side_by_side-reverse [] (b ∷ right) = refl
cmp_side_by_side-reverse (a ∷ left) [] = refl
cmp_side_by_side-reverse (a ∷ left) (b ∷ right) =
    then_with_both (cmp_parts (parse_u64 a) (parse_u64 b) a b) (cmp_side_by_side left right)
      (cmp_parts (parse_u64 b) (parse_u64 a) b a) (cmp_side_by_side right left)
      (cmp_parts-reverse (parse_u64 a) (parse_u64 b) a b) (cmp_side_by_side-reverse left right)

compare_nuget_prerelease-reverse :
    (a b : Text) → compare_nuget_prerelease b a ≡ reverse (compare_nuget_prerelease a b)
unfolding compare_nuget_prerelease
compare_nuget_prerelease-reverse a b =
    then_with_both (cmp_side_by_side (split b'.' a) (split b'.' b))
      (cmp_number (length (split b'.' a)) (length (split b'.' b)))
      (cmp_side_by_side (split b'.' b) (split b'.' a))
      (cmp_number (length (split b'.' b)) (length (split b'.' a)))
      (cmp_side_by_side-reverse (split b'.' a) (split b'.' b))
      (cmp_number-reverse (length (split b'.' a)) (length (split b'.' b)))

cmp_pre-reverse : (a b : Option Text) → cmp_pre b a ≡ reverse (cmp_pre a b)
cmp_pre-reverse none none = refl
cmp_pre-reverse none (some b) = refl
cmp_pre-reverse (some a) none = refl
cmp_pre-reverse (some a) (some b) = compare_nuget_prerelease-reverse a b

pub compare_normalized-reverse :
    (v w : Text) → compare_normalized w v ≡ reverse (compare_normalized v w)
unfolding compare_normalized
compare_normalized-reverse v w =
    then_with_both (cmp_numbers (nuget_parts v).0 (nuget_parts w).0)
      (cmp_pre (nuget_parts v).1 (nuget_parts w).1)
      (cmp_numbers (nuget_parts w).0 (nuget_parts v).0)
      (cmp_pre (nuget_parts w).1 (nuget_parts v).1)
      (cmp_numbers-reverse (nuget_parts v).0 (nuget_parts w).0)
      (cmp_pre-reverse (nuget_parts v).1 (nuget_parts w).1)
