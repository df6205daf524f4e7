-- ===== src/Maven/Version/Order.antt =====
-- The order of Maven versions does not depend on which of the two comes first.
use osv_proxy.Common.{
  ◌≡◌, refl, sym, Bool, true, false, ◌==◌, Ordering, reverse, cmp_number, cmp_number-reverse,
  cmp_number_self, text_cmp-reverse, then_with-reverse, text_cmp_refl, text_cmp, byte_len, List, [],
  ◌∷◌, arith, Text, Bool-cases, inl, inr, ok, bind-ok, ok-injective,
}
use osv_proxy.Maven.Version.{
  VersionToken, null_token, qualifier_order, numeric_cmp, qualifier_key, qualifier_cmp,
  compare_values, all_digits, compare_tokens, compare_all, compare_versions, parse,
}

numeric_cmp-reverse : (s t : Text) → numeric_cmp t s ≡ reverse (numeric_cmp s t)
numeric_cmp-reverse s t =
    ground (arith, cmp_number-reverse (byte_len s) (byte_len t), text_cmp-reverse s t)

qualifier_cmp-reverse : (s t : Text) → qualifier_cmp t s ≡ reverse (qualifier_cmp s t)
unfolding qualifier_cmp
qualifier_cmp-reverse s t =
    rw (cmp_number-reverse (qualifier_key s) (qualifier_key t), text_cmp-reverse s t)
      (sym (then_with-reverse (cmp_number (qualifier_key s) (qualifier_key t)) (text_cmp s t)))

compare_values-reverse :
    (a b : Bool) (l r : VersionToken) → compare_values b a r l ≡ reverse (compare_values a b l r)
compare_values-reverse true true l r = numeric_cmp-reverse l.value r.value
compare_values-reverse true false l r = ground (arith, qualifier_cmp-reverse l.value r.value)
compare_values-reverse false true l r = ground (arith, qualifier_cmp-reverse l.value r.value)
compare_values-reverse false false l r = qualifier_cmp-reverse l.value r.value

compare_tokens-reverse : (l r : VersionToken) → compare_tokens r l ≡ reverse (compare_tokens l r)
unfolding compare_tokens
compare_tokens-reverse l r = elim (Bool-cases (l.prefix == r.prefix)) [
  | inl e ↦
      let e' : (r.prefix == l.prefix) ≡ true = ground arith in
      rw (e, e') (compare_values-reverse (all_digits l.value) (all_digits r.value) l r)
  | inr e ↦
      let e' : (r.prefix == l.prefix) ≡ false = ground arith in
      rw (e, e') (cmp_number-reverse (qualifier_order l) (qualifier_order r))
]

compare_all-reverse :
    (left right : List VersionToken) → compare_all right left ≡ reverse (compare_all left right)
unfolding compare_all
compare_all-reverse [] [] = refl
compare_all-reverse (l ∷ left) [] =
    rw (compare_tokens-reverse l (null_token l), compare_all-reverse left [])
      (sym (then_with-reverse (compare_tokens l (null_token l)) (compare_all left [])))
compare_all-reverse [] (r ∷ right) =
    rw (compare_tokens-reverse (null_token r) r, compare_all-reverse [] right)
      (sym (then_with-reverse (compare_tokens (null_token r) r) (compare_all [] right)))
compare_all-reverse (l ∷ left) (r ∷ right) =
    rw (compare_tokens-reverse l r, compare_all-reverse left right)
      (sym (then_with-reverse (compare_tokens l r) (compare_all left right)))

qualifier_cmp_self : (s : Text) → qualifier_cmp s s ≡ Ordering.eq
unfolding qualifier_cmp
qualifier_cmp_self s = rw (cmp_number_self (qualifier_key s)) (text_cmp_refl s)

compare_values_self : (a : Bool) (t : VersionToken) → compare_values a a t t ≡ Ordering.eq
compare_values_self true t = rw (cmp_number_self (byte_len t.value)) (text_cmp_refl t.value)
compare_values_self false t = qualifier_cmp_self t.value

compare_tokens_self : (t : VersionToken) → compare_tokens t t ≡ Ordering.eq
unfolding compare_tokens
compare_tokens_self t =
    let e : (t.prefix == t.prefix) ≡ true = ground arith in
    rw e (compare_values_self (all_digits t.value) t)

compare_all_self : (tokens : List VersionToken) → compare_all tokens tokens ≡ Ordering.eq
unfolding compare_all
compare_all_self [] = refl
compare_all_self (t ∷ tokens) = rw (compare_tokens_self t, compare_all_self tokens) refl

-- Where two versions compare, they compare the other way round with the opposite order, and each is
-- equal to itself.
pub compare_versions_swap :
    (left right : Text) (o : Ordering)
    → compare_versions left right ≡ ok o
    → (compare_versions right left ≡ ok (reverse o)) × (compare_versions left left ≡ ok Ordering.eq)
unfolding compare_versions
compare_versions_swap left right o h =
    let (l, e, h₁) = bind-ok (parse left) _ o h in
    let (r, e₁, h₂) = bind-ok (parse right) _ o h₁ in
    let same = ok-injective (compare_all l r) o h₂ in
    (rw (e₁, e, compare_all-reverse l r, same) refl, rw (e, compare_all_self l) refl)
