-- ===== src/RubyGems.antt =====
-- Of src/rubygems.rs: the versions of gems and their order, and the checks of names, platforms and
-- digests. A numeric segment is the text of its digits without leading zeros, so that its length is
-- compared first.
pub mod Laws
mod Tests
use osv_proxy.Common.{
  cmp_number, then_with, reverse, ℕ, suc, Bool, true, false, not, ◌&&◌, ◌||◌, ◌==◌, ltb, Option,
  none, some, Ordering, List, [], ◌∷◌, ◌++◌, trim, length, all, any, if◌then◌else◌, Text, codes,
  is_empty, is_ascii_digit, is_ascii_alphanumeric, ascii_lowercase, split, split_once, trim_start,
  text_cmp, byte_len,
}

pub data RubyGemsError : Type 0 where
  invalid_name invalid_version invalid_metadata : Text → RubyGemsError

pub data Outcome (A : Type 0) : Type 0 where
  ok : A → Outcome A
  err : RubyGemsError → Outcome A

infixl 5 ◌>>=◌
abbrev pub ◌>>=◌ : {A B : Type 0} → Outcome A → (A → Outcome B) → Outcome B
ok a >>= f = f a
err e >>= f = err e

abbrev is_name_char : ℕ → Bool
is_name_char c = is_ascii_alphanumeric c || c == b'-' || c == b'_' || c == b'.'

abbrev starts_alphanumeric : Text → Bool
starts_alphanumeric [] = false
starts_alphanumeric (c ∷ s) = is_ascii_alphanumeric c

unfoldable pub validate_name : Text → Outcome (Unit {0})
validate_name name =
    if is_empty name
      || ltb 128 (byte_len name)
      || not (all is_name_char name)
      || not (starts_alphanumeric name)
    then err (invalid_name name)
    else ok tt

pub data VersionSegment : Type 0 where
  numeric alpha : Text → VersionSegment

-- One `part` that `RubyGemsVersion::parse` cuts out.
abbrev segment : Bool → Text → VersionSegment
segment true part = numeric (trim_start b'0' part)
segment false part = alpha (ascii_lowercase part)

-- The part that is being read, put in front of those behind it, or started: `cut` is the kind of the
-- first character of the rest and the part that begins there, if it is alphanumeric.
abbrev close : Option (Bool × Text) → List VersionSegment → List VersionSegment
close none segments = segments
close (some (kind, part)) segments = segment kind part ∷ segments

abbrev same_kind : Bool → Bool → Bool
same_kind true b = b
same_kind false b = not b

-- The two loops of `parse`, from the end of the text: the part that the text starts with, and the
-- segments behind it.
unfoldable pub cut_segments : Text → Option (Bool × Text) × List VersionSegment
cut_segments [] = (none, [])
cut_segments (c ∷ s) =
    let (first, segments) = cut_segments s in
    if not (is_ascii_alphanumeric c) then (none, close first segments) else elim first [
      | none ↦ (some (is_ascii_digit c, c ∷ []), segments)
      | some (kind, part) ↦
          if same_kind kind (is_ascii_digit c)
          then (some (kind, c ∷ part), segments)
          else (some (is_ascii_digit c, c ∷ []), segment kind part ∷ segments)
    ]

-- `value.replace('-', ".pre.")`.
abbrev expand : Text → Text
expand [] = []
expand (c ∷ s) = if c == b'-' then codes ".pre." ++ expand s else c ∷ expand s

abbrev is_zero : VersionSegment → Bool
is_zero (numeric value) = is_empty value
is_zero (alpha value) = false

abbrev is_alpha : VersionSegment → Bool
is_alpha (numeric value) = false
is_alpha (alpha value) = true

-- The first loop of `canonicalize`: zeros at the end go.
unfoldable pub drop_zeros : List VersionSegment → List VersionSegment
drop_zeros [] = []
drop_zeros (x ∷ xs) = elim (drop_zeros xs) [
  | [] ↦ if is_zero x then [] else x ∷ []
  | y ∷ ys ↦ x ∷ y ∷ ys
]

-- The segments before the first that is alphabetic, and those from it on.
unfoldable pub release_of : List VersionSegment → List VersionSegment × List VersionSegment
release_of [] = ([], [])
release_of (x ∷ xs) =
    let (release, rest) = release_of xs in if is_alpha x then ([], x ∷ xs) else (x ∷ release, rest)

-- The second loop: zeros just before the first alphabetic segment go.
unfoldable pub canonicalize : List VersionSegment → List VersionSegment
unfolding drop_zeros release_of
canonicalize segments =
    let (release, rest) = release_of (drop_zeros segments) in
    elim rest [ [] ↦ release | x ∷ xs ↦ drop_zeros release ++ (x ∷ xs) ]

abbrev is_part : Text → Bool
is_part part = not (is_empty part) && all is_ascii_alphanumeric part

abbrev is_pre_part : Text → Bool
is_pre_part part = not (is_empty part) && all (λ c. is_ascii_alphanumeric c || c == b'-') part

abbrev release_grammar : List Text → Bool
release_grammar [] = false
release_grammar (first ∷ parts) =
    not (is_empty first) && all is_ascii_digit first && all is_part parts

unfoldable pub valid_version_grammar : Text → Bool
valid_version_grammar value = elim (split_once b'-' value) [
  | none ↦ release_grammar (split b'.' value)
  | some (release, suffix) ↦
      release_grammar (split b'.' release)
      && not (is_empty suffix)
      && all is_pre_part (split b'.' suffix)
]

unfoldable pub parse : Text → Outcome (List VersionSegment)
unfolding cut_segments canonicalize valid_version_grammar
parse raw =
    let value = trim raw in
    let (first, segments) = cut_segments (expand value) in
    if is_empty value || not (valid_version_grammar value)
    then err (invalid_version value)
    else ok (canonicalize (close first segments))

abbrev pub cmp_segment : VersionSegment → VersionSegment → Ordering
cmp_segment (numeric left) (numeric right) =
    then_with (cmp_number (byte_len left) (byte_len right)) (text_cmp left right)
cmp_segment (alpha left) (alpha right) = text_cmp left right
cmp_segment (alpha left) (numeric right) = Ordering.lt
cmp_segment (numeric left) (alpha right) = Ordering.gt

-- `compare_remaining` where the left side has no segments.
unfoldable pub compare_rest : List VersionSegment → Ordering
compare_rest [] = Ordering.eq
compare_rest (alpha value ∷ xs) = Ordering.gt
compare_rest (numeric [] ∷ xs) = compare_rest xs
compare_rest (numeric (c ∷ s) ∷ xs) = Ordering.lt

-- `RubyGemsVersion::cmp`.
unfoldable pub cmp : List VersionSegment → List VersionSegment → Ordering
unfolding compare_rest
cmp [] right = compare_rest right
cmp (x ∷ xs) [] = reverse (compare_rest (x ∷ xs))
cmp (x ∷ xs) (y ∷ ys) = then_with (cmp_segment x y) (cmp xs ys)

unfoldable pub compare_versions : Text → Text → Outcome Ordering
unfolding parse cmp
compare_versions left right = do a ← parse left; b ← parse right; ok (cmp a b)
