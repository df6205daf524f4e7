-- ===== src/Maven/Version.antt =====
-- Of src/maven.rs: `MavenVersion::parse` and the order of versions. A text is cut at `.` and `-`, and
-- between digits and other characters.
pub mod Order
mod Tests
use osv_proxy.Common.{
  ℕ, Bool, true, false, not, ◌&&◌, ◌||◌, ◌==◌, Ordering, List, [], ◌∷◌, ◌++◌, reverse, then_with,
  cmp_number, all, any, leb, if◌then◌else◌, Text, codes, text_eq, text_cmp, is_empty,
  is_ascii_digit, ascii_lowercase, trim_start, byte_len, Result, ok, err, ◌>>=◌,
}
use osv_proxy.Maven.Errors.{MavenError, Outcome, invalid_version}

pub record VersionToken : Type 0 where
  pub prefix : ℕ
  pub value : Text
  pub is_null : Bool

abbrev is_ascii_whitespace : ℕ → Bool
is_ascii_whitespace c = c == 32 || c == 9 || c == 10 || c == 12 || c == 13

abbrev is_separator : ℕ → Bool
is_separator c = c == b'.' || c == b'-'

-- The first loop: the first segment, and the others with the separators in front of them.
unfoldable pub cut_segments : Text → Text × List (ℕ × Text)
cut_segments [] = ([], [])
cut_segments (c ∷ s) =
    let (first, others) = cut_segments s in
    if is_separator c then ([], (c, first) ∷ others) else (c ∷ first, others)

abbrev same_class : ℕ → ℕ → Bool
same_class c d = if is_ascii_digit c then is_ascii_digit d else not (is_ascii_digit d)

-- A segment cut where digits meet other characters: the first piece, and the others.
unfoldable pub cut_runs : Text → Text × List Text
cut_runs [] = ([], [])
cut_runs (c ∷ []) = (c ∷ [], [])
cut_runs (c ∷ d ∷ s) =
    let (first, others) = cut_runs (d ∷ s) in
    if same_class c d then (c ∷ first, others) else (c ∷ [], first ∷ others)

abbrev pub all_digits : Text → Bool
all_digits value = all is_ascii_digit value

abbrev rename : Text → Bool → Text
rename value followed_by_transition =
    if text_eq value (codes "cr")
    then codes "rc"
    else if text_eq value (codes "ga")
        || text_eq value (codes "final")
        || text_eq value (codes "release")
    then []
    else if text_eq value (codes "a") && followed_by_transition
    then codes "alpha"
    else if text_eq value (codes "b") && followed_by_transition
    then codes "beta"
    else if text_eq value (codes "m") && followed_by_transition
    then codes "milestone"
    else value

abbrev or_zero : Text → Text
or_zero value = if is_empty value then codes "0" else value

unfoldable pub normalize_token : Text → Bool → Text
unfolding text_eq trim_start
normalize_token value followed_by_transition =
    let renamed = rename (ascii_lowercase (or_zero value)) followed_by_transition in
    if all_digits renamed then or_zero (trim_start b'0' renamed) else renamed

abbrev token : ℕ → Text → Bool → VersionToken
token prefix piece followed_by_transition = record {
  prefix = prefix;
  value = normalize_token piece followed_by_transition;
  is_null = false;
}

-- The tokens of one segment: its separator stands before the first piece, and `-` before the others.
unfoldable pub piece_tokens : ℕ → Text → List Text → List VersionToken
unfolding normalize_token
piece_tokens prefix piece [] = token prefix piece false ∷ []
piece_tokens prefix piece (next ∷ pieces) = token prefix piece true ∷ piece_tokens b'-' next pieces

abbrev segment_tokens : ℕ → Text → List VersionToken
segment_tokens prefix segment = piece_tokens prefix (cut_runs segment).0 (cut_runs segment).1

unfoldable pub tokens_of : List (ℕ × Text) → List VersionToken
unfolding cut_runs piece_tokens
tokens_of [] = []
tokens_of ((prefix, segment) ∷ segments) = segment_tokens prefix segment ++ tokens_of segments

abbrev is_zero : VersionToken → Bool
is_zero t = text_eq t.value (codes "0") || is_empty t.value

-- The last loop of `parse`, which goes backwards: the tokens from `index` down, and those behind it.
-- The inner loop, where `skipping` is true, looks for a `-`, and the step after it goes past that.
unfoldable pub trim_zeros : Bool → List VersionToken → List VersionToken → List VersionToken
unfolding text_eq
trim_zeros skipping [] after = after
trim_zeros true (t ∷ before) after = trim_zeros (not (t.prefix == b'-')) before (t ∷ after)
trim_zeros false (t ∷ []) after = t ∷ after
trim_zeros false (t ∷ u ∷ before) after =
    let removed = trim_zeros false (u ∷ before) after in
    let kept = trim_zeros (not (t.prefix == b'-')) (u ∷ before) (t ∷ after) in
    if is_zero t then removed else kept

abbrev backwards : List VersionToken → List VersionToken → List VersionToken
backwards [] ys = ys
backwards (x ∷ xs) ys = backwards xs (x ∷ ys)

unfoldable pub parse : Text → Outcome (List VersionToken)
unfolding cut_segments tokens_of trim_zeros
parse value =
    if is_empty value || any (λ c. is_ascii_whitespace c || c == b'/') value
    then err (invalid_version value)
    else (let (first, segments) = cut_segments value in
        ok (trim_zeros false (backwards (tokens_of ((0, first) ∷ segments)) []) []))

unfoldable pub null_token : VersionToken → VersionToken
null_token other = record {
  prefix = other.prefix;
  value = if other.prefix == b'.' then codes "0" else [];
  is_null = true;
}

unfoldable pub qualifier_order : VersionToken → ℕ
qualifier_order t =
    if t.prefix == b'.'
    then (if all_digits t.value then 3 else 0)
    else if t.prefix == b'-'
    then (if all_digits t.value then 2 else 1)
    else 0

abbrev pub numeric_cmp : Text → Text → Ordering
numeric_cmp left right =
    then_with (cmp_number (byte_len left) (byte_len right)) (text_cmp left right)

abbrev pub qualifier_key : Text → ℕ
qualifier_key value =
    if text_eq value (codes "alpha")
    then 0
    else if text_eq value (codes "beta")
    then 1
    else if text_eq value (codes "milestone")
    then 2
    else if text_eq value (codes "rc")
    then 3
    else if text_eq value (codes "snapshot")
    then 4
    else if is_empty value
    then 5
    else if text_eq value (codes "sp")
    then 6
    else 7

unfoldable pub qualifier_cmp : Text → Text → Ordering
unfolding text_eq
qualifier_cmp left right =
    then_with (cmp_number (qualifier_key left) (qualifier_key right)) (text_cmp left right)

-- The match on which of the values are numeric.
abbrev pub compare_values : Bool → Bool → VersionToken → VersionToken → Ordering
compare_values true true left right = numeric_cmp left.value right.value
compare_values true false left right =
    if not left.is_null then Ordering.gt else qualifier_cmp left.value right.value
compare_values false true left right =
    if not right.is_null then Ordering.lt else qualifier_cmp left.value right.value
compare_values false false left right = qualifier_cmp left.value right.value

unfoldable pub compare_tokens : VersionToken → VersionToken → Ordering
unfolding qualifier_order qualifier_cmp
compare_tokens left right =
    if left.prefix == right.prefix
    then compare_values (all_digits left.value) (all_digits right.value) left right
    else cmp_number (qualifier_order left) (qualifier_order right)

-- The loop over the indexes of the longer list.
unfoldable pub compare_all : List VersionToken → List VersionToken → Ordering
unfolding compare_tokens null_token
compare_all [] [] = Ordering.eq
compare_all (l ∷ left) [] = then_with (compare_tokens l (null_token l)) (compare_all left [])
compare_all [] (r ∷ right) = then_with (compare_tokens (null_token r) r) (compare_all [] right)
compare_all (l ∷ left) (r ∷ right) = then_with (compare_tokens l r) (compare_all left right)

unfoldable pub compare_versions : Text → Text → Outcome Ordering
unfolding parse compare_all
compare_versions left right = do l ← parse left; r ← parse right; ok (compare_all l r)
