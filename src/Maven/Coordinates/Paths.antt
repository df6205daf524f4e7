-- ===== src/Maven/Coordinates/Paths.antt =====
-- What the route of a release file says of its path.
use mathlib.Core.List.{append_assoc}
use mathlib.Core.Option.{none-ne-some}
use osv_proxy.Common.{
  ℕ, ◌++◌, ◌≡◌, ◌≢◌, ◌⊎◌, contains, split_once, is_empty, Bool-cases, refl, sym, ap, ◌∙◌, subst,
  true, false, not, ◌==◌, none, some, List, [], ◌∷◌, all, any, Text, codes, arith, Option-cases,
  inl, inr, if◌then◌else◌, split, join, join-split, bind-ok, guard-ok, ok-injective, err-ne-ok, ok,
  strip_prefix, strip_prefix-some,
}
use osv_proxy.Maven.Errors.{invalid_artifact_path}
use osv_proxy.Maven.Coordinates.{
  MavenReleaseRoute, Segments, last_three, replace_dots, parse_release_path, parse_segments,
  refuse_snapshot, suffix_valid, route_of, is_group_char, validate_relative_path,
  validate_coordinate,
}

abbrev pub path_of : Text → Text → Text → Text → Text
path_of group artifact_id version filename =
    group ++ (b'/' ∷ (artifact_id ++ (b'/' ∷ (version ++ (b'/' ∷ filename)))))

some-eq : (s t : Segments) → some s ≡ some t → s ≡ t
some-eq s t e = ap (λ o. elim o [ none ↦ s | some x ↦ x ]) e

-- The segments are joined to the path again, and the group has one at least.
abbrev Rejoined : List Text → Segments → Type 0
Rejoined parts s =
    (g : Text) × (gs : List Text) × (s.group_segments ≡ g ∷ gs)
    × (join (codes "/") parts
        ≡ path_of (join (codes "/") (g ∷ gs)) s.artifact_id s.version s.filename)

Rejoined-cons :
    (g : Text) (parts : List Text) (p : Text) (ps : List Text) (s : Segments)
    → parts ≡ p ∷ ps
    → Rejoined parts s
    → Rejoined (g ∷ parts) (record s { group_segments = g ∷ s.group_segments })
unfolding join
Rejoined-cons g parts p ps s c (h, hs, e, j) = (
  g,
  h ∷ hs,
  ap (λ gs. g ∷ gs) e,
  ap (λ q. join (codes "/") (g ∷ q)) c
      ∙ (ap (λ q. g ++ (b'/' ∷ join (codes "/") q)) (sym c)
          ∙ (ap (λ t. g ++ (b'/' ∷ t)) j
              ∙ sym (append_assoc g (b'/' ∷ join (codes "/") (h ∷ hs)) _))),
)

last_three-Rejoined :
    (parts : List Text) (s : Segments) → last_three parts ≡ some s → Rejoined parts s
unfolding last_three join
last_three-Rejoined [] s e = ground arith
last_three-Rejoined (a ∷ []) s e = ground arith
last_three-Rejoined (a ∷ b ∷ []) s e = ground arith
last_three-Rejoined (a ∷ b ∷ c ∷ []) s e = ground arith
last_three-Rejoined (g ∷ a ∷ v ∷ f ∷ []) s e =
    subst (Rejoined (g ∷ a ∷ v ∷ f ∷ [])) (some-eq _ s e) (g, [], refl, refl)
last_three-Rejoined (g ∷ a ∷ v ∷ f ∷ h ∷ r) s e =
    elim (Option-cases (last_three (a ∷ v ∷ f ∷ h ∷ r))) [
      | inl k ↦ absurd (none-ne-some s (rw (k, last_three) at e))
      | inr (t, k) ↦
          subst (Rejoined (g ∷ a ∷ v ∷ f ∷ h ∷ r))
            (some-eq (record t { group_segments = g ∷ t.group_segments }) s
              (rw (k, last_three) at e))
            (Rejoined-cons g (a ∷ v ∷ f ∷ h ∷ r) a (v ∷ f ∷ h ∷ r) t refl
              (last_three-Rejoined (a ∷ v ∷ f ∷ h ∷ r) t k))
    ]

-- A group of segments without dots, and its name.
replace_dots-append : (s t : Text) → replace_dots (s ++ t) ≡ replace_dots s ++ replace_dots t
unfolding replace_dots
replace_dots-append [] t = refl
replace_dots-append (c ∷ s) t =
    ap (λ r. (if c == b'.' then b'/' else c) ∷ r) (replace_dots-append s t)

replace_dots-plain : (s : Text) → all is_group_char s ≡ true → replace_dots s ≡ s
unfolding replace_dots
replace_dots-plain [] h = refl
replace_dots-plain (c ∷ s) h = ground (arith, replace_dots-plain s)

replace_dots-join :
    (gs : List Text)
    → any (λ g. not (all is_group_char g)) gs ≡ false
    → replace_dots (join (codes ".") gs) ≡ join (codes "/") gs
unfolding replace_dots join
replace_dots-join [] h = refl
replace_dots-join (g ∷ []) h = replace_dots-plain g (ground arith)
replace_dots-join (g ∷ k ∷ gs) h =
    replace_dots-append g (b'.' ∷ join (codes ".") (k ∷ gs))
    ∙ (ap (λ t. t ++ (b'/' ∷ replace_dots (join (codes ".") (k ∷ gs))))
          (replace_dots-plain g (ground arith))
        ∙ ap (λ t. g ++ (b'/' ∷ t)) (replace_dots-join (k ∷ gs) (ground arith)))

-- What follows the version: an extension, or a classifier without dots and an extension.
abbrev pub IsSuffix : Text → Type 0
IsSuffix suffix =
    ((extension : Text) × (suffix ≡ b'.' ∷ extension) × (extension ≢ []))
    ⊎ ((classifier : Text) × (extension : Text) × (suffix ≡ b'-' ∷ (classifier ++ b'.' ∷ extension))
        × (classifier ≢ [])
        × (contains classifier b'.' ≡ false)
        × (extension ≢ []))

split_once-parts :
    (c : ℕ) (s a b : Text)
    → split_once c s ≡ some (a, b)
    → (s ≡ a ++ c ∷ b) × (contains a c ≡ false)
unfolding split_once
split_once-parts c [] a b h = ground arith
split_once-parts c (x ∷ s) a b h = elim (Bool-cases (x == c)) [
  | inl e ↦ ground (arith, e)
  | inr e ↦ elim (Option-cases (split_once c s)) [
    | inl k ↦ ground (arith, e, k)
    | inr ((a', b'), k) ↦ ground (arith, e, k, split_once-parts c s a' b' k)
  ]
]

nonempty : (s : Text) → is_empty s ≡ false → s ≢ []
nonempty [] h = ground arith
nonempty (c ∷ s) h = λ e. ground arith

suffix_valid-IsSuffix : (suffix : Text) → suffix_valid suffix ≡ true → IsSuffix suffix
unfolding suffix_valid
suffix_valid-IsSuffix [] h = ground arith
suffix_valid-IsSuffix (c ∷ s) h = elim (Bool-cases (c == b'.')) [
  | inl e ↦ inl (s, ground arith, nonempty s (ground arith))
  | inr e ↦ elim (Option-cases (split_once b'.' s)) [
    | inl k ↦ absurd (ground (arith, k))
    | inr ((a, b), k) ↦
        let (made, plain) = split_once-parts b'.' s a b k in
        inr (
          a,
          b,
          ground arith,
          nonempty a (ground (arith, k)),
          plain,
          nonempty b (ground (arith, k)),
        )
  ]
]

abbrev pub Named : Text → Text → Text → Type 0
Named artifact_id version filename =
    (suffix : Text) × (filename ≡ (artifact_id ++ (b'-' ∷ version)) ++ suffix) × IsSuffix suffix

route_of-Named :
    (path g a v f : Text) (route : MavenReleaseRoute)
    → route_of path g a v f ≡ ok route
    → (record { relative_path = path; group_id = g; artifact_id = a; version = v; filename = f }
        ≡ route)
      × Named a v f
unfolding route_of
route_of-Named path g a v f route h = elim (Option-cases (strip_prefix f (a ++ (b'-' ∷ v)))) [
  | inl e ↦ absurd (err-ne-ok (invalid_artifact_path path) route (rw (e, route_of) at h))
  | inr (suffix, e) ↦
      let (t, k) = guard-ok _ _ _ route (rw (e, route_of) at h) in
      (
        ok-injective _ route k,
        (
          suffix,
          strip_prefix-some f (a ++ (b'-' ∷ v)) suffix e,
          suffix_valid-IsSuffix suffix (ground arith),
        ),
      )
]

abbrev pub PartsOf : Text → MavenReleaseRoute → Type 0
PartsOf path route =
    (path ≡ path_of (replace_dots route.group_id) route.artifact_id route.version route.filename)
    × (route.relative_path ≡ path)
    × Named route.artifact_id route.version route.filename

parse_segments-PartsOf :
    (path : Text) (s : Segments) (route : MavenReleaseRoute)
    → Rejoined (split b'/' path) s
    → parse_segments path (some s) ≡ ok route
    → PartsOf path route
unfolding parse_segments refuse_snapshot
parse_segments-PartsOf path s route (g, gs, e, j) h =
    let (plain, h₁) = guard-ok _ _ _ route h in
    let (u, c, h₂) =
      bind-ok (validate_coordinate (join (codes ".") s.group_segments) s.artifact_id s.version) _
        route h₁ in
    let (fixed, h₃) = guard-ok _ _ _ route h₂ in
    let (r, named) =
      route_of-Named path (join (codes ".") s.group_segments) s.artifact_id s.version s.filename
        route h₃ in
    subst (PartsOf path) r (
      sym (join-split b'/' path)
          ∙ (j
              ∙ ap (λ q. path_of q s.artifact_id s.version s.filename)
                  (ap (join (codes "/")) (sym e) ∙ sym (replace_dots-join s.group_segments plain))),
      refl,
      named,
    )

-- The path of a release file is made of what its route says: the group with `/` for its dots, the
-- artifact, the version, and a file name that starts with the artifact and the version and ends in an
-- extension, or in a classifier without dots and an extension.
pub parse_release_path-PartsOf :
    (path : Text) (route : MavenReleaseRoute)
    → parse_release_path path ≡ ok route
    → PartsOf path route
unfolding parse_release_path
parse_release_path-PartsOf path route h =
    let (u, c, h₁) = bind-ok (validate_relative_path path) _ route h in
    elim (Option-cases (last_three (split b'/' path))) [
      | inl e ↦ absurd (err-ne-ok (invalid_artifact_path path) route (rw (e, parse_segments) at h₁))
      | inr (s, e) ↦
          parse_segments-PartsOf path s route (last_three-Rejoined (split b'/' path) s e)
            (rw e at h₁)
    ]
