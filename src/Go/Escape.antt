-- ===== src/Go/Escape.antt =====
-- Of src/go.rs: the escapes of module paths and versions.
pub mod RoundTrip
use osv_proxy.Common.{
  ℕ, Bool, true, false, ◌||◌, not, ◌==◌, Option, none, some, List, [], ◌∷◌, ◌++◌, any,
  if◌then◌else◌, Text, codes, text_eq, contains, contains_text, is_empty, is_ascii_uppercase,
  is_ascii_lowercase, to_ascii_lower, to_ascii_upper, split, split_parts, join, starts_with,
  ends_with, strip_prefix, strip_suffix, Result, ok, err, ◌>>=◌, collect,
}

-- The errors of libraries as their texts.
pub data GoError : Type 0 where
  budget invalid_route upstream body invalid_response : Text → GoError
  upstream_status list_too_large : ℕ → GoError
  version_mismatch : Text → Text → GoError

abbrev pub Outcome : Type 0 → Type 0
Outcome = Result GoError

-- The characters that `flat_map` makes of the text.
unfoldable pub escape_chars : Text → Text
escape_chars [] = []
escape_chars (ch ∷ s) =
    if is_ascii_uppercase ch then b'!' ∷ to_ascii_lower ch ∷ escape_chars s else ch ∷ escape_chars s

unfoldable pub escape_go_component : Text → Outcome Text
unfolding escape_chars contains_text
escape_go_component value =
    if is_empty value
      || contains value b'/'
      || contains value b'!'
      || contains_text value (codes "..")
    then err (invalid_route value)
    else ok (escape_chars value)

abbrev pub bad_part : Text → Bool
bad_part part =
    is_empty part || text_eq part (codes ".") || text_eq part (codes "..") || contains part b'!'

unfoldable pub escape_module_path : Text → Outcome Text
unfolding escape_go_component collect starts_with
escape_module_path m =
    if is_empty m || starts_with m (codes "/") || ends_with m b'/' || any bad_part (split b'/' m)
    then err (invalid_route m)
    else (do parts ← collect escape_go_component (split b'/' m); ok (join (codes "/") parts))

-- The loop of `unescape_go_component`: the characters, or `none` on a `!` without a letter.
unfoldable pub unescape_chars : Text → Option Text
unescape_chars [] = some []
unescape_chars (ch ∷ []) = if ch == b'!' then none else some (ch ∷ [])
unescape_chars (ch ∷ next ∷ s) =
    let plain = unescape_chars (next ∷ s) in
    let escaped = unescape_chars s in
    if ch == b'!'
    then (if is_ascii_lowercase next
        then (elim escaped [ none ↦ none | some out ↦ some (to_ascii_upper next ∷ out) ])
        else none)
    else (elim plain [ none ↦ none | some out ↦ some (ch ∷ out) ])

unfoldable pub unescape_go_component : Text → Outcome Text
unfolding unescape_chars
unescape_go_component value = elim (unescape_chars value) [
  | none ↦ err (invalid_route value)
  | some out ↦ ok out
]

unfoldable pub unescape_module_path : Text → Outcome Text
unfolding unescape_go_component escape_module_path collect
unescape_module_path value = do
  parts ← collect unescape_go_component (split b'/' value)
  _ ← escape_module_path (join (codes "/") parts)
  ok (join (codes "/") parts)

unfoldable pub validate_version : Text → Outcome (Unit {0})
unfolding contains_text starts_with
validate_version version =
    if not (starts_with version (codes "v"))
      || contains version b'/'
      || contains version b'!'
      || contains_text version (codes "..")
    then err (invalid_route version)
    else ok tt

abbrev without_suffix : Text → Text → Text
without_suffix s suffix = elim (strip_suffix s suffix) [ none ↦ s | some r ↦ r ]

-- After `validate_version` the prefix is there, so that `unwrap` does not panic.
unfoldable pub osv_version : Text → Outcome Text
unfolding validate_version strip_prefix strip_suffix
osv_version version = do
  _ ← validate_version version
  elim (strip_prefix version (codes "v")) [
    | none ↦ err (invalid_route version)
    | some v ↦ ok (without_suffix v (codes "+incompatible"))
  ]
