-- ===== src/Artifact.antt =====
-- src/artifact.rs: ecosystems, artifacts and their identities, and the normal forms of package
-- names and NuGet versions. `char::to_lowercase` follows the Unicode tables: it is the parameter
-- `lowercase`, which gives the lower-case characters of a character.
pub mod Names
pub mod Nuget
pub mod Equality
pub mod RoundTrip
mod Tests
use osv_proxy.Common.{
  ℕ, Bool, true, not, ◌&&◌, ◌||◌, ◌==◌, Option, none, some, List, [], ◌∷◌, ◌++◌, if◌then◌else◌,
  Text, codes, text_eq, ascii_lowercase, is_empty, starts_with, split_once, rsplit_once,
}
unfoldable pub use Names.{normalize_pypi_name}
unfoldable pub use Nuget.{normalize_nuget_version}
pub use Nuget.{Parsed, ok, err, ◌>>=◌, ArtifactParseError, unsupported_ecosystem, invalid_identity}
pub use Nuget.{invalid_nuget_version}

pub data Ecosystem : Type 0 where
  npm pypi go crates_io nuget ruby_gems maven : Ecosystem

abbrev discriminant : Ecosystem → ℕ
discriminant npm = 0
discriminant pypi = 1
discriminant go = 2
discriminant crates_io = 3
discriminant nuget = 4
discriminant ruby_gems = 5
discriminant maven = 6

-- The derived `PartialEq`.
unfoldable pub ecosystem_eq : Ecosystem → Ecosystem → Bool
ecosystem_eq a b = discriminant a == discriminant b

unfoldable pub osv_name : Ecosystem → Text
osv_name npm = codes "npm"
osv_name pypi = codes "PyPI"
osv_name go = codes "Go"
osv_name crates_io = codes "crates.io"
osv_name nuget = codes "NuGet"
osv_name ruby_gems = codes "RubyGems"
osv_name maven = codes "Maven"

-- `impl Display`.
unfoldable pub show_ecosystem : Ecosystem → Text
show_ecosystem npm = codes "npm"
show_ecosystem pypi = codes "pypi"
show_ecosystem go = codes "go"
show_ecosystem crates_io = codes "crates.io"
show_ecosystem nuget = codes "nuget"
show_ecosystem ruby_gems = codes "rubygems"
show_ecosystem maven = codes "maven"

-- `impl FromStr`, after the value is in lower case.
ecosystem_of_lower : Text → Parsed Ecosystem
ecosystem_of_lower s =
    if text_eq s (codes "npm")
    then ok npm
    else if text_eq s (codes "pypi")
        || text_eq s (codes "python")
        || text_eq s (codes "python-package")
    then ok pypi
    else if text_eq s (codes "go") || text_eq s (codes "golang") || text_eq s (codes "go-module")
    then ok go
    else if text_eq s (codes "crates.io")
        || text_eq s (codes "cargo")
        || text_eq s (codes "crates-io")
    then ok crates_io
    else if text_eq s (codes "nuget") || text_eq s (codes "nuget.org") || text_eq s (codes "dotnet")
    then ok nuget
    else if text_eq s (codes "rubygems")
        || text_eq s (codes "rubygem")
        || text_eq s (codes "ruby")
        || text_eq s (codes "gem")
    then ok ruby_gems
    else if text_eq s (codes "maven") || text_eq s (codes "java")
    then ok maven
    else err (unsupported_ecosystem s)

unfoldable pub ecosystem_from_str : Text → Parsed Ecosystem
unfolding ecosystem_of_lower
ecosystem_from_str value = ecosystem_of_lower (ascii_lowercase value)

pub record ArtifactHashes : Type 0 where
  pub sha256 : Option Text
  pub sha512 : Option Text
  pub integrity : Option Text

-- `DateTime<Utc>` is a number of nanoseconds since the earliest time that chrono represents.
pub record Artifact : Type 0 where
  pub ecosystem : Ecosystem
  pub name : Text
  pub version : Text
  pub filename : Option Text
  pub upstream_url : Option Text
  pub published_at : Option ℕ
  pub hashes : ArtifactHashes

pub record PackageIdentity : Type 0 where
  pub ecosystem : Ecosystem
  pub name : Text
  pub version : Text

-- `format!("{}:{}@{}", …)`.
unfoldable pub show_identity : Ecosystem → Text → Text → Text
show_identity ecosystem name version =
    show_ecosystem ecosystem ++ (b':' ∷ (name ++ (b'@' ∷ version)))

-- `PackageIdentity::identity`, and `Artifact::identity`.
unfoldable pub package_identity : PackageIdentity → Text
unfolding show_identity
package_identity p = show_identity p.ecosystem p.name p.version

unfoldable pub identity : Artifact → Text
unfolding show_identity
identity a = show_identity a.ecosystem a.name a.version

unfoldable pub normalize_cargo_name : Text → Text
normalize_cargo_name name = ascii_lowercase name

unfoldable pub normalize_nuget_name : Text → Text
normalize_nuget_name name = ascii_lowercase name

unfoldable pub normalize_version : Ecosystem → Text → Parsed Text
normalize_version nuget value = normalize_nuget_version value
normalize_version _ value = ok value

module _ (lowercase : ℕ → Text) where
  unfoldable pub normalize_name : Ecosystem → Text → Text
  unfolding normalize_cargo_name normalize_nuget_name
  normalize_name npm name = name
  normalize_name pypi name = normalize_pypi_name lowercase name
  normalize_name go name = name
  normalize_name crates_io name = normalize_cargo_name name
  normalize_name nuget name = normalize_nuget_name name
  normalize_name ruby_gems name = name
  normalize_name maven name = name

  -- `Artifact::package`.
  unfoldable pub artifact_package : Ecosystem → Text → Text → Option ℕ → Artifact
  artifact_package ecosystem name version published_at = record {
    ecosystem = ecosystem;
    name = normalize_name ecosystem name;
    version = version;
    filename = none;
    upstream_url = none;
    published_at = published_at;
    hashes = record { sha256 = none; sha512 = none; integrity = none };
  }

  -- From `rest.rfind('@')` on. The parts are those before and after the last `@`.
  unfoldable pub parse_name_version :
      Text → Ecosystem → Text → Option (Text × Text) → Parsed PackageIdentity
  parse_name_version value ecosystem rest none = err (invalid_identity value)
  parse_name_version value ecosystem rest (some (name, version)) =
      if is_empty name && not (starts_with rest (codes "@"))
      then err (invalid_identity value)
      else if is_empty name || is_empty version
      then err (invalid_identity value)
      else (do
        version' ← normalize_version ecosystem version
        ok (record {
          ecosystem = ecosystem;
          name = normalize_name ecosystem name;
          version = version';
        }))

  unfoldable pub parse_package_identity : Text → Parsed PackageIdentity
  unfolding parse_name_version
  parse_package_identity value = elim (split_once b':' value) [
    | none ↦ err (invalid_identity value)
    | some (prefix, rest) ↦ do
      ecosystem ← ecosystem_from_str prefix
      parse_name_version value ecosystem rest (rsplit_once b'@' rest)
  ]

  unfoldable pub parse_identity : Text → Option ℕ → Parsed Artifact
  unfolding artifact_package parse_package_identity
  parse_identity value published_at = do
    p ← parse_package_identity value
    ok (artifact_package p.ecosystem p.name p.version published_at)
