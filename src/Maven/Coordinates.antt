-- ===== src/Maven/Coordinates.antt =====
-- Of src/maven.rs: package names and coordinates, the URL of a POM, and the paths of release files.
-- A test on the bytes of a text is one on its characters, as it holds of ASCII only.
pub mod Paths
mod Tests
use osv_proxy.Common.{
  ℕ, ◌++◌, Bool, true, false, not, ◌&&◌, ◌||◌, ◌==◌, Option, none, some, List, [], ◌∷◌, all, any,
  if◌then◌else◌, Text, codes, text_eq, is_empty, contains, starts_with, split, split_parts,
  split_once, join, trim_end, strip_prefix, strip_suffix, is_some, is_ascii_alphanumeric,
  to_ascii_upper, map, Result, ok, err, ◌>>=◌,
}
use osv_proxy.Maven.Errors.{
  MavenError, Outcome, invalid_package_name, invalid_coordinate, invalid_artifact_path,
  snapshots_unsupported,
}

abbrev is_coordinate_char : ℕ → Bool
is_coordinate_char c = is_ascii_alphanumeric c || c == b'-' || c == b'_' || c == b'+' || c == b'.'

abbrev valid : Text → Bool
valid value = not (is_empty value) && all is_coordinate_char value

unfoldable pub validate_coordinate : Text → Text → Text → Outcome (Unit {0})
validate_coordinate group_id artifact_id version =
    if not (valid group_id) || not (valid artifact_id) || not (valid version)
    then err (invalid_coordinate (group_id ++ (b':' ∷ (artifact_id ++ (b'@' ∷ version)))))
    else ok tt

unfoldable pub parse_package_name : Text → Outcome (Text × Text)
unfolding split_once validate_coordinate
parse_package_name name = elim (split_once b':' name) [
  | none ↦ err (invalid_package_name name)
  | some (group_id, artifact_id) ↦
      if contains artifact_id b':' then err (invalid_package_name name) else (do
        _ ← validate_coordinate group_id artifact_id (codes "placeholder")
        ok (group_id, artifact_id))
]

-- `group_id.replace('.', "/")`.
unfoldable pub replace_dots : Text → Text
replace_dots [] = []
replace_dots (c ∷ s) = (if c == b'.' then b'/' else c) ∷ replace_dots s

unfoldable pub pom_url : Text → Text → Text → Text → Text
unfolding trim_end replace_dots
pom_url repository_url group_id artifact_id version =
    trim_end b'/' repository_url
    ++ (b'/'
        ∷ (replace_dots group_id
            ++ (b'/'
                ∷ (artifact_id
                    ++ (b'/'
                        ∷ (version
                            ++ (b'/' ∷ (artifact_id ++ (b'-' ∷ (version ++ codes ".pom"))))))))))

unfoldable pub validate_relative_path : Text → Outcome (Unit {0})
unfolding starts_with split_parts text_eq
validate_relative_path relative_path =
    if is_empty relative_path
      || starts_with relative_path (codes "/")
      || contains relative_path b'%'
      || any (λ s. is_empty s || text_eq s (codes ".") || text_eq s (codes ".."))
          (split b'/' relative_path)
    then err (invalid_artifact_path relative_path)
    else ok tt

pub record MavenReleaseRoute : Type 0 where
  pub relative_path : Text
  pub group_id : Text
  pub artifact_id : Text
  pub version : Text
  pub filename : Text

-- The last three segments, with those in front of them; `none` where there are fewer than four.
pub record Segments : Type 0 where
  pub group_segments : List Text
  pub artifact_id : Text
  pub version : Text
  pub filename : Text

unfoldable pub last_three : List Text → Option Segments
last_three (g ∷ a ∷ v ∷ f ∷ []) =
    some (record { group_segments = g ∷ []; artifact_id = a; version = v; filename = f })
last_three (g ∷ a ∷ v ∷ f ∷ h ∷ r) = elim (last_three (a ∷ v ∷ f ∷ h ∷ r)) [
  | none ↦ none
  | some s ↦ some (record s { group_segments = g ∷ s.group_segments })
]
last_three _ = none

abbrev pub is_group_char : ℕ → Bool
is_group_char c = is_ascii_alphanumeric c || c == b'-' || c == b'_'

abbrev is_suffix_char : ℕ → Bool
is_suffix_char c = is_ascii_alphanumeric c || c == b'-' || c == b'_' || c == b'.' || c == b'+'

abbrev classified_valid : Option (Text × Text) → Bool
classified_valid none = false
classified_valid (some (classifier, extension)) =
    not (is_empty classifier) && not (is_empty extension)

-- `suffix_valid`.
unfoldable pub suffix_valid : Text → Bool
unfolding split_once
suffix_valid [] = false
suffix_valid (c ∷ s) =
    if c == b'.'
    then not (is_empty s)
    else if c == b'-'
    then classified_valid (split_once b'.' s)
    else false

abbrev is_snapshot : Text → Bool
is_snapshot version = is_some (strip_suffix (map to_ascii_upper version) (codes "-SNAPSHOT"))

-- From the filename's prefix on.
unfoldable pub route_of : Text → Text → Text → Text → Text → Outcome MavenReleaseRoute
unfolding strip_prefix suffix_valid
route_of relative_path group_id artifact_id version filename =
    elim (strip_prefix filename (artifact_id ++ (b'-' ∷ version))) [
      | none ↦ err (invalid_artifact_path relative_path)
      | some suffix ↦
          if not (suffix_valid suffix) || not (all is_suffix_char suffix)
          then err (invalid_artifact_path relative_path)
          else ok (record {
            relative_path = relative_path;
            group_id = group_id;
            artifact_id = artifact_id;
            version = version;
            filename = filename;
          })
    ]

-- From the test for snapshots on.
unfoldable pub refuse_snapshot : Text → Text → Segments → Outcome MavenReleaseRoute
unfolding strip_suffix route_of
refuse_snapshot relative_path group_id s =
    if is_snapshot s.version
    then err (snapshots_unsupported s.version)
    else route_of relative_path group_id s.artifact_id s.version s.filename

unfoldable pub parse_segments : Text → Option Segments → Outcome MavenReleaseRoute
unfolding join validate_coordinate refuse_snapshot
parse_segments relative_path none = err (invalid_artifact_path relative_path)
parse_segments relative_path (some s) =
    if any (λ segment. not (all is_group_char segment)) s.group_segments
    then err (invalid_artifact_path relative_path)
    else (do
      _ ← validate_coordinate (join (codes ".") s.group_segments) s.artifact_id s.version
      refuse_snapshot relative_path (join (codes ".") s.group_segments) s)

unfoldable pub parse_release_path : Text → Outcome MavenReleaseRoute
unfolding validate_relative_path split_parts last_three parse_segments
parse_release_path relative_path = do
  _ ← validate_relative_path relative_path
  parse_segments relative_path (last_three (split b'/' relative_path))
