-- ===== src/Artifact/Nuget.antt =====
-- `ArtifactParseError` and `normalize_nuget_version` of src/artifact.rs.
use osv_proxy.Common.{
  ℕ, Bool, ◌||◌, not, ◌==◌, ltb, Option, none, some, List, [], ◌∷◌, ◌++◌, map, if◌then◌else◌,
  length, all, Text, codes, ascii_lowercase, is_ascii_alphanumeric, is_empty, split, split_once,
  join, parse_u64_digits, show_u64,
}

pub data ArtifactParseError : Type 0 where
  unsupported_ecosystem invalid_identity invalid_nuget_version : Text → ArtifactParseError

-- `Result<_, ArtifactParseError>`.
pub data Parsed (A : Type 0) : Type 0 where
  ok : A → Parsed A
  err : ArtifactParseError → Parsed A

infixl 5 ◌>>=◌
abbrev pub ◌>>=◌ : {A B : Type 0} → Parsed A → (A → Parsed B) → Parsed B
ok a >>= f = f a
err e >>= f = err e

-- `collect::<Result<Vec<_>, _>>` over the parsed parts.
unfoldable pub collect_parts : Text → List Text → Parsed (List ℕ)
collect_parts value [] = ok []
collect_parts value (part ∷ parts) = elim (parse_u64_digits part) [
  | none ↦ err (invalid_nuget_version value)
  | some n ↦ do ns ← collect_parts value parts; ok (n ∷ ns)
]

-- `while parts.len() < 3 { parts.push(0) }`, and a fourth part that is 0 is dropped.
unfoldable pub shape_parts : List ℕ → List ℕ
shape_parts [] = 0 ∷ 0 ∷ 0 ∷ []
shape_parts (a ∷ []) = a ∷ 0 ∷ 0 ∷ []
shape_parts (a ∷ b ∷ []) = a ∷ b ∷ 0 ∷ []
shape_parts (a ∷ b ∷ c ∷ []) = a ∷ b ∷ c ∷ []
shape_parts (a ∷ b ∷ c ∷ d ∷ []) = if d == 0 then a ∷ b ∷ c ∷ [] else a ∷ b ∷ c ∷ d ∷ []
shape_parts (a ∷ b ∷ c ∷ d ∷ e ∷ r) = a ∷ b ∷ c ∷ d ∷ e ∷ r

abbrev pub is_prerelease_char : ℕ → Bool
is_prerelease_char c = is_ascii_alphanumeric c || c == b'.' || c == b'-'

-- The release in front, and the prerelease in lower case.
unfoldable pub with_prerelease : Text → Text → Option Text → Parsed Text
with_prerelease value release none = ok release
with_prerelease value release (some pre) =
    if is_empty pre || not (all is_prerelease_char pre)
    then err (invalid_nuget_version value)
    else ok (release ++ (b'-' ∷ ascii_lowercase pre))

-- `split_once(c)` with the whole value and `None` where the character is not there.
abbrev pub split_or : ℕ → Text → Text × Option Text
split_or c value = elim (split_once c value) [
  | none ↦ (value, none)
  | some (before, after) ↦ (before, some after)
]

unfoldable pub normalize_nuget_version : Text → Parsed Text
unfolding collect_parts shape_parts with_prerelease
normalize_nuget_version value =
    let without_build = (split_or b'+' value).0 in
    let (core, prerelease) = split_or b'-' without_build in
    do
      parts ← collect_parts value (split b'.' core)
      if is_empty parts || ltb 4 (length parts)
          then err (invalid_nuget_version value)
          else with_prerelease value (join (codes ".") (map show_u64 (shape_parts parts)))
              prerelease
