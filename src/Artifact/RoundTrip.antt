-- ===== src/Artifact/RoundTrip.antt =====
-- `parse_package_identity` of src/artifact.rs reads what `identity` prints.
use osv_proxy.Common.{
  ℕ, ◌≡◌, ◌≢◌, refl, false, none, some, [], ◌∷◌, ◌++◌, arith, Text, text_eq, split_once,
  rsplit_once, contains,
}
use osv_proxy.Artifact.{
  Ecosystem, npm, pypi, go, crates_io, nuget, ruby_gems, maven, show_ecosystem, ecosystem_from_str,
  PackageIdentity, package_identity, normalize_name, normalize_version, parse_package_identity,
  parse_name_version, ok, show_identity,
}

split_once-found :
    (c : ℕ) (a b : Text) → contains a c ≡ false → split_once c (a ++ c ∷ b) ≡ some (a, b)
unfolding split_once
split_once-found c [] b h = ground arith
split_once-found c (x ∷ a) b h = ground (arith, split_once-found c a b)

rsplit_once-none : (c : ℕ) (b : Text) → contains b c ≡ false → rsplit_once c b ≡ none
unfolding rsplit_once
rsplit_once-none c [] h = refl
rsplit_once-none c (x ∷ b) h = ground (arith, rsplit_once-none c b)

rsplit_once-found :
    (c : ℕ) (a b : Text) → contains b c ≡ false → rsplit_once c (a ++ c ∷ b) ≡ some (a, b)
unfolding rsplit_once
rsplit_once-found c [] b h = ground (arith, rsplit_once-none c b h)
rsplit_once-found c (x ∷ a) b h = rw (rsplit_once-found c a b h) refl

show_ecosystem-has_no_colon : (e : Ecosystem) → contains (show_ecosystem e) b':' ≡ false
unfolding show_ecosystem
show_ecosystem-has_no_colon npm = refl
show_ecosystem-has_no_colon pypi = refl
show_ecosystem-has_no_colon go = refl
show_ecosystem-has_no_colon crates_io = refl
show_ecosystem-has_no_colon nuget = refl
show_ecosystem-has_no_colon ruby_gems = refl
show_ecosystem-has_no_colon maven = refl

ecosystem_from_str-show_ecosystem : (e : Ecosystem) → ecosystem_from_str (show_ecosystem e) ≡ ok e
unfolding ecosystem_from_str show_ecosystem text_eq
ecosystem_from_str-show_ecosystem npm = refl
ecosystem_from_str-show_ecosystem pypi = refl
ecosystem_from_str-show_ecosystem go = refl
ecosystem_from_str-show_ecosystem crates_io = refl
ecosystem_from_str-show_ecosystem nuget = refl
ecosystem_from_str-show_ecosystem ruby_gems = refl
ecosystem_from_str-show_ecosystem maven = refl

module _ (lowercase : ℕ → Text) where
  parse_name_version-parts :
      (value rest : Text) (e : Ecosystem) (name version version' : Text)
      → name ≢ []
      → version ≢ []
      → normalize_version e version ≡ ok version'
      → parse_name_version lowercase value e rest (some (name, version))
        ≡ ok (record { ecosystem = e; name = normalize_name lowercase e name; version = version' })
  unfolding parse_name_version
  parse_name_version-parts value rest e [] version version' n v h = absurd (n refl)
  parse_name_version-parts value rest e (x ∷ name) [] version' n v h = absurd (v refl)
  parse_name_version-parts value rest e (x ∷ name) (y ∷ version) version' n v h = rw h refl

  -- The identity of a package with a name, and a version without `@` that its ecosystem accepts, is
  -- parsed to that ecosystem with the name and version in normal form, also where the name has an
  -- `@` or a `:`.
  pub parse_package_identity-package_identity :
      (p : PackageIdentity) (version' : Text)
      → p.name ≢ []
      → p.version ≢ []
      → contains p.version b'@' ≡ false
      → normalize_version p.ecosystem p.version ≡ ok version'
      → parse_package_identity lowercase (package_identity p)
        ≡ ok (record {
          ecosystem = p.ecosystem;
          name = normalize_name lowercase p.ecosystem p.name;
          version = version';
        })
  unfolding parse_package_identity package_identity show_identity
  parse_package_identity-package_identity p version' n v a h =
      let rest : Text = p.name ++ b'@' ∷ p.version in
      rw
        (
          split_once-found b':' (show_ecosystem p.ecosystem) rest
              (show_ecosystem-has_no_colon p.ecosystem),
          ecosystem_from_str-show_ecosystem p.ecosystem,
          rsplit_once-found b'@' p.name p.version a,
          parse_package_identity,
        )
        (parse_name_version-parts (package_identity p) rest p.ecosystem p.name p.version version' n
          v h)
