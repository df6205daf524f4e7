-- ===== src/RubyGems/Laws.antt =====
-- The order of the versions of src/rubygems.rs.
use osv_proxy.Common.{
  cmp_number, reverse, cmp_number-reverse, text_cmp-reverse, then_with-reverse, reverse_twice, ◌≡◌,
  refl, sym, Ordering, List, [], ◌∷◌, arith, Text, text_cmp, text_cmp_refl, byte_len,
}
use osv_proxy.RubyGems.{
  VersionSegment, numeric, alpha, cmp_segment, compare_rest, cmp, compare_versions, parse, Outcome,
  ok, err,
}

cmp_segment-reverse : (x y : VersionSegment) → cmp_segment y x ≡ reverse (cmp_segment x y)
cmp_segment-reverse (numeric s) (numeric t) =
    rw
      (
        then_with-reverse (cmp_number (byte_len s) (byte_len t)) (text_cmp s t),
        cmp_number-reverse (byte_len s) (byte_len t),
        text_cmp-reverse s t,
      )
      refl
cmp_segment-reverse (numeric s) (alpha t) = refl
cmp_segment-reverse (alpha s) (numeric t) = refl
cmp_segment-reverse (alpha s) (alpha t) = text_cmp-reverse s t

cmp_segment_refl : (x : VersionSegment) → cmp_segment x x ≡ Ordering.eq
cmp_segment_refl (numeric s) = ground (arith, text_cmp_refl s)
cmp_segment_refl (alpha s) = text_cmp_refl s

cmp-reverse : (a b : List VersionSegment) → cmp b a ≡ reverse (cmp a b)
unfolding cmp compare_rest
cmp-reverse [] [] = refl
cmp-reverse [] (y ∷ ys) = refl
cmp-reverse (x ∷ xs) [] = sym (reverse_twice (compare_rest (x ∷ xs)))
cmp-reverse (x ∷ xs) (y ∷ ys) =
    rw (then_with-reverse (cmp_segment x y) (cmp xs ys), cmp_segment-reverse x y, cmp-reverse xs ys)
      refl

-- The comparison of two versions does not depend on which comes first: where one way gives an order,
-- the other way gives the opposite one.
pub compare_versions-reverse :
    (left right : Text) (o : Ordering)
    → compare_versions left right ≡ ok o
    → compare_versions right left ≡ ok (reverse o)
unfolding compare_versions
compare_versions-reverse left right o h = go (parse left) (parse right) refl refl
  where
    go :
        (a b : Outcome (List VersionSegment))
        → parse left ≡ a
        → parse right ≡ b
        → compare_versions right left ≡ ok (reverse o)
    go (err e) b p q = absurd (ground (arith, p))
    go (ok a) (err e) p q = absurd (ground (arith, p, q))
    go (ok a) (ok b) p q = ground (arith, p, q, cmp-reverse a b)
