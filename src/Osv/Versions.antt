-- ===== src/Osv/Versions.antt =====
-- Of src/malicious.rs: which order of versions an ecosystem's ranges are evaluated by, and NuGet's
-- order. The orders of the packages `node_semver`, `pep440_rs` and `semver` are parameters, and so
-- are the texts of errors.
pub mod NugetOrder
mod Tests
use osv_proxy.Common.{
  ℕ, Bool, true, false, ◌&&◌, ◌||◌, not, Option, none, some, Ordering, List, [], ◌∷◌, ◌++◌, map,
  length, if◌then◌else◌, Text, codes, text_eq, text_cmp, ascii_lowercase, split, split_parts,
  split_once, then_with, cmp_number, parse_u64_digits, Result, strip_prefix,
}
use osv_proxy.Common.Results
use osv_proxy.Artifact.{
  Artifact, Ecosystem, npm, pypi, go, crates_io, nuget, ruby_gems, maven, osv_name, identity,
  Parsed, ArtifactParseError, normalize_nuget_version,
}
use osv_proxy.Artifact
use osv_proxy.Finding.{OsvFinding}
use osv_proxy.RubyGems
use osv_proxy.RubyGems.{RubyGemsError}
use osv_proxy.Maven.Errors.{MavenError}
use osv_proxy.Maven.Version
use osv_proxy.Go.Escape.{GoError, osv_version}
use osv_proxy.Go
use osv_proxy.Go.{Semver}
use osv_proxy.Osv.{
  Evaluated, ok, err, ◌>>=◌, OsvError, RangeEvent, range_error, evaluate_range_events,
}

pub record StoredRange (F : Type 0) : Type 0 where
  pub advisory : OsvFinding F
  pub range_type : Text
  pub events : List RangeEvent

-- `parse::<u64>`, which takes a `+` in front.
unfoldable pub parse_u64 : Text → Option ℕ
unfolding strip_prefix parse_u64_digits
parse_u64 s = elim (strip_prefix s (codes "+")) [
  | none ↦ parse_u64_digits s
  | some r ↦ parse_u64_digits r
]

abbrev or_zero : Option ℕ → ℕ
or_zero none = 0
or_zero (some n) = n

-- `Vec<u64>::cmp`.
unfoldable pub cmp_numbers : List ℕ → List ℕ → Ordering
cmp_numbers [] [] = Ordering.eq
cmp_numbers [] (b ∷ right) = Ordering.lt
cmp_numbers (a ∷ left) [] = Ordering.gt
cmp_numbers (a ∷ left) (b ∷ right) = then_with (cmp_number a b) (cmp_numbers left right)

-- The match on the numbers that the parts are.
abbrev pub cmp_parts : Option ℕ → Option ℕ → Text → Text → Ordering
cmp_parts (some m) (some n) a b = cmp_number m n
cmp_parts (some m) none a b = Ordering.lt
cmp_parts none (some n) a b = Ordering.gt
cmp_parts none none a b = text_cmp a b

-- The loop over the parts that stand side by side.
unfoldable pub cmp_side_by_side : List Text → List Text → Ordering
unfolding parse_u64
cmp_side_by_side (a ∷ left) (b ∷ right) =
    then_with (cmp_parts (parse_u64 a) (parse_u64 b) a b) (cmp_side_by_side left right)
cmp_side_by_side _ _ = Ordering.eq

unfoldable pub compare_nuget_prerelease : Text → Text → Ordering
unfolding cmp_side_by_side split_parts
compare_nuget_prerelease left right =
    then_with (cmp_side_by_side (split b'.' left) (split b'.' right))
      (cmp_number (length (split b'.' left)) (length (split b'.' right)))

-- The closure `split`: the numbers of the core, and the prerelease in lower case.
abbrev numbers : Text → List ℕ
numbers core = map (λ n. or_zero (parse_u64 n)) (split b'.' core)

abbrev core_and_pre : Option (Text × Text) → Text → List ℕ × Option Text
core_and_pre none value = (numbers value, none)
core_and_pre (some (core, pre)) value = (numbers core, some (ascii_lowercase pre))

unfoldable pub nuget_parts : Text → List ℕ × Option Text
unfolding split_once split_parts parse_u64
nuget_parts value = core_and_pre (split_once b'-' value) value

abbrev pub cmp_pre : Option Text → Option Text → Ordering
cmp_pre none none = Ordering.eq
cmp_pre none (some b) = Ordering.gt
cmp_pre (some a) none = Ordering.lt
cmp_pre (some a) (some b) = compare_nuget_prerelease a b

-- From the calls of `split` on.
unfoldable pub compare_normalized : Text → Text → Ordering
unfolding nuget_parts cmp_numbers compare_nuget_prerelease
compare_normalized version boundary =
    let (left, left_pre) = nuget_parts version in
    let (right, right_pre) = nuget_parts boundary in
    then_with (cmp_numbers left right) (cmp_pre left_pre right_pre)

-- The texts of the errors of other modules.
pub record Messages : Type 0 where
  pub artifact_error : ArtifactParseError → Text
  pub ruby_gems_error : RubyGemsError → Text
  pub maven_error : MavenError → Text
  pub go_error : GoError → Text

-- A package that reads versions and orders them.
pub record VersionPackage (V : Type 0) : Type 0 where
  pub parse : Text → Result Text V
  pub cmp : V → V → Ordering

module _ (messages : Messages) (artifact : Artifact) where
  abbrev nuget_boundary : Text → Parsed Text → Evaluated Text
  nuget_boundary value (Artifact.ok normal) = ok normal
  nuget_boundary value (Artifact.err e) = err (
      range_error artifact (
        codes "invalid NuGet range boundary "
        ++ (value ++ (codes ": " ++ messages.artifact_error e))))

  unfoldable pub compare_nuget_version : Text → Text → Evaluated Ordering
  unfolding normalize_nuget_version compare_normalized
  compare_nuget_version version boundary = do
    v ← nuget_boundary version (normalize_nuget_version version)
    b ← nuget_boundary boundary (normalize_nuget_version boundary)
    ok (compare_normalized v b)

  -- `map_err` into a range error.
  abbrev lift : {E A : Type 0} → (E → Text) → Result E A → Evaluated A
  lift text (Results.ok a) = ok a
  lift text (Results.err e) = err (range_error artifact (text e))

  abbrev gem_order : RubyGems.Outcome Ordering → Evaluated Ordering
  gem_order (RubyGems.ok o) = ok o
  gem_order (RubyGems.err e) = err (range_error artifact (messages.ruby_gems_error e))

  -- `compare_npm_version`, `compare_pypi_version` and `compare_cargo_version`, after the artifact's
  -- version: the versionss name stands in the messages.
  unfoldable pub compare_package_version :
      {V : Type 0} → Text → VersionPackage V → V → Text → Evaluated Ordering
  compare_package_version name versions version boundary = do
    b ←
        lift
          (λ e.
            codes "invalid "
            ++ (name ++ (codes " range boundary " ++ (boundary ++ (codes ": " ++ e)))))
          (versions.parse boundary)
    ok (versions.cmp version b)

  unfoldable pub package_range :
      {V : Type 0} → Text → VersionPackage V → List RangeEvent → Evaluated Bool
  unfolding compare_package_version evaluate_range_events
  package_range name versions events = do
    version ←
        lift
          (λ e.
            codes "invalid "
            ++ (name ++ (codes " version " ++ (artifact.version ++ (codes ": " ++ e)))))
          (versions.parse artifact.version)
    evaluate_range_events artifact (compare_package_version name versions version) events

  abbrev unsupported : Text → Evaluated Bool
  unsupported range_type = err (
      range_error artifact (
        codes "unsupported range type "
        ++ (range_type ++ (codes " for ecosystem " ++ osv_name artifact.ecosystem))))

  unfoldable pub go_range : {V : Type 0} → Semver V → List RangeEvent → Evaluated Bool
  unfolding osv_version evaluate_range_events
  go_range semver events = do
    version ← lift messages.go_error (osv_version artifact.version)
    evaluate_range_events artifact
        (λ boundary.
          lift messages.go_error (Go.compare_versions semver (b'v' ∷ version) (b'v' ∷ boundary)))
        events

  module _ {N P C G : Type 0} (node_semver : VersionPackage N) (pep440 : VersionPackage P)
      (cargo_semver : VersionPackage C) (semver : Semver G) where
    abbrev is_type : Text → Text → Bool
    is_type range_type name = text_eq range_type name

    unfoldable pub matches_range : Ecosystem → Text → List RangeEvent → Evaluated Bool
    unfolding package_range go_range compare_nuget_version text_eq evaluate_range_events
    matches_range npm t events =
        if is_type t (codes "SEMVER")
        then package_range (codes "npm") node_semver events
        else unsupported t
    matches_range pypi t events =
        if is_type t (codes "ECOSYSTEM")
        then package_range (codes "PyPI") pep440 events
        else unsupported t
    matches_range go t events =
        if is_type t (codes "SEMVER") || is_type t (codes "ECOSYSTEM")
        then go_range semver events
        else unsupported t
    matches_range crates_io t events =
        if is_type t (codes "SEMVER") || is_type t (codes "ECOSYSTEM")
        then package_range (codes "Cargo") cargo_semver events
        else unsupported t
    matches_range nuget t events =
        if is_type t (codes "ECOSYSTEM")
        then evaluate_range_events artifact (compare_nuget_version artifact.version) events
        else unsupported t
    matches_range ruby_gems t events =
        if is_type t (codes "ECOSYSTEM")
        then evaluate_range_events artifact
            (λ boundary. gem_order (RubyGems.compare_versions artifact.version boundary)) events
        else unsupported t
    matches_range maven t events =
        if is_type t (codes "ECOSYSTEM")
        then evaluate_range_events artifact
            (λ boundary.
              lift messages.maven_error (Version.compare_versions artifact.version boundary))
            events
        else unsupported t

    unfoldable pub range_matches_artifact : {F : Type 0} → StoredRange F → Evaluated Bool
    unfolding matches_range
    range_matches_artifact range = matches_range artifact.ecosystem range.range_type range.events
