-- ===== src/Go/Escape/RoundTrip.antt =====
-- A module path that is escaped is read back.
use mathlib.Core.List.{cons-ne-nil}
use osv_proxy.Common.{
  ℕ, split_parts, ap, sym, ◌∙◌, ◌==◌, ◌≡◌, refl, false, some, List, [], ◌∷◌, any, Text, codes,
  contains, split, join, arith, split-join, join-split, ok, ◌>>=◌, collect, Bool-cases, bind-ok,
  guard-ok, ok-injective, subst, inl, inr, is_ascii_uppercase,
}
use osv_proxy.Go.Escape.{
  escape_chars, escape_go_component, escape_module_path, unescape_chars, unescape_go_component,
  unescape_module_path, Outcome,
}

unescape_chars-plain :
    (c : ℕ) (t s : Text)
    → (c == b'!') ≡ false
    → unescape_chars t ≡ some s
    → unescape_chars (c ∷ t) ≡ some (c ∷ s)
unfolding unescape_chars
unescape_chars-plain c [] s h e = ground arith
unescape_chars-plain c (d ∷ t) s h e = ground arith

unescape_chars-escape_chars :
    (s : Text) → contains s b'!' ≡ false → unescape_chars (escape_chars s) ≡ some s
unfolding escape_chars unescape_chars
unescape_chars-escape_chars [] h = refl
unescape_chars-escape_chars (c ∷ s) h = elim (Bool-cases (is_ascii_uppercase c)) [
  | inl e ↦ ground (arith, unescape_chars-escape_chars s)
  | inr e ↦ ground (arith, unescape_chars-escape_chars s, unescape_chars-plain c (escape_chars s) s)
]

escape_chars-slash : (s : Text) → contains s b'/' ≡ false → contains (escape_chars s) b'/' ≡ false
unfolding escape_chars
escape_chars-slash [] h = refl
escape_chars-slash (c ∷ s) h = elim (Bool-cases (is_ascii_uppercase c)) [
  | inl e ↦ ground (arith, escape_chars-slash s)
  | inr e ↦ ground (arith, escape_chars-slash s)
]

escape_go_component-read :
    (p q : Text)
    → escape_go_component p ≡ ok q
    → (unescape_go_component q ≡ ok p) × (contains q b'/' ≡ false)
unfolding escape_go_component unescape_go_component
escape_go_component-read p q h =
    let (t, e) = guard-ok _ _ _ q h in
    let e' = ok-injective (escape_chars p) q e in
    subst (λ q. (unescape_go_component q ≡ ok p) × (contains q b'/' ≡ false)) e'
      (
        rw (unescape_chars-escape_chars p (ground arith), unescape_go_component) refl,
        escape_chars-slash p (ground arith),
      )

collect-read :
    (ps qs : List Text)
    → collect escape_go_component ps ≡ ok qs
    → (collect unescape_go_component qs ≡ ok ps) × (any (λ q. contains q b'/') qs ≡ false)
unfolding collect
collect-read [] qs h = ground arith
collect-read (p ∷ ps) qs h =
    let (q, e, h₁) = bind-ok (escape_go_component p) _ qs h in
    let (rest, e₁, h₂) = bind-ok (collect escape_go_component ps) _ qs h₁ in
    let (c, n) = escape_go_component-read p q e in
    let (cs, ns) = collect-read ps rest e₁ in
    subst
      (λ qs.
        (collect unescape_go_component qs ≡ ok (p ∷ ps)) × (any (λ q. contains q b'/') qs ≡ false))
      (ok-injective (q ∷ rest) qs h₂) (rw (c, cs) refl, rw (n, ns) refl)

abbrev join_parts : Outcome (List Text) → Outcome Text
join_parts r = do
  parts ← r
  _ ← escape_module_path (join (codes "/") parts)
  ok (join (codes "/") parts)

abbrev read_parts : List Text → Outcome Text
read_parts escaped = join_parts (collect unescape_go_component escaped)

joined-read :
    (m : Text) (parts : List Text)
    → escape_module_path m ≡ ok (join (codes "/") parts)
    → collect escape_go_component (split b'/' m) ≡ ok parts
    → unescape_module_path (join (codes "/") parts) ≡ ok m
unfolding unescape_module_path
joined-read m [] accepted h =
    let (q, e, h₁) = bind-ok (escape_go_component (split_parts b'/' m).0) _ [] h in
    let (rest, e₁, h₂) = bind-ok (collect escape_go_component (split_parts b'/' m).1) _ [] h₁ in
    absurd (cons-ne-nil q rest (ok-injective (q ∷ rest) [] h₂))
joined-read m (q ∷ qs) accepted h =
    let (c, n) = collect-read (split b'/' m) (q ∷ qs) h in
    ap read_parts (split-join b'/' q qs n)
    ∙ (ap join_parts c
        ∙ ap (λ value. do _ ← escape_module_path value; ok value) (join-split b'/' m)
        ∙ ap (λ r. do _ ← r; ok m) accepted)

-- What `escape_module_path` makes of a path is read back to the path.
pub unescape_module_path-escape_module_path :
    (m escaped : Text) → escape_module_path m ≡ ok escaped → unescape_module_path escaped ≡ ok m
unfolding escape_module_path
unescape_module_path-escape_module_path m escaped h =
    let (t, h₁) = guard-ok _ _ _ escaped h in
    let (parts, e, h₂) = bind-ok (collect escape_go_component (split b'/' m)) _ escaped h₁ in
    subst (λ escaped. unescape_module_path escaped ≡ ok m)
      (ok-injective (join (codes "/") parts) escaped h₂)
      (joined-read m parts (h ∙ ap ok (sym (ok-injective (join (codes "/") parts) escaped h₂))) e)
