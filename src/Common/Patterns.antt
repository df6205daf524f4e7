-- ===== src/Common/Patterns.antt =====
-- The operations of `str` that search for a text, and their laws with `join` and `split`.
use Prim.Native.Nat.{ℕ}
use mathlib.Core.Path.{◌≡◌, refl}
use mathlib.Core.Logic.{inl, inr}
use mathlib.Core.Bool.{Bool, false, ◌&&◌, ◌||◌}
use mathlib.Core.Option.{Option, none, some}
use mathlib.Core.List.{List, [], ◌∷◌, ◌++◌}
use native.Mathlib.Omega.{arith}
use osv_proxy.Common.Tests.{◌==◌, leb, if◌then◌else◌, Bool-cases}
use osv_proxy.Common.Lists.{any}
use osv_proxy.Common.Chars.{
  Text, starts_with, contains, split_parts, split, join, text_eq, is_empty, codes,
}

-- `str::strip_prefix`.
unfoldable pub strip_prefix : Text → Text → Option Text
strip_prefix s [] = some s
strip_prefix [] (p ∷ ps) = none
strip_prefix (c ∷ s) (p ∷ ps) = if c == p then strip_prefix s ps else none

pub strip_prefix-append : (p s : Text) → strip_prefix (p ++ s) p ≡ some s
unfolding strip_prefix
strip_prefix-append [] [] = refl
strip_prefix-append [] (c ∷ s) = refl
strip_prefix-append (c ∷ p) s = ground (arith, strip_prefix-append p s)

pub strip_prefix-some : (s p r : Text) → strip_prefix s p ≡ some r → s ≡ p ++ r
unfolding strip_prefix
strip_prefix-some s [] r h = ground arith
strip_prefix-some [] (d ∷ p) r h = ground arith
strip_prefix-some (c ∷ s) (d ∷ p) r h = ground (arith, strip_prefix-some s p r)

-- `str::strip_suffix`.
unfoldable pub strip_suffix : Text → Text → Option Text
strip_suffix [] p = if text_eq [] p then some [] else none
strip_suffix (c ∷ s) p =
    if text_eq (c ∷ s) p
    then some []
    else (elim (strip_suffix s p) [ none ↦ none | some r ↦ some (c ∷ r) ])

-- `str::ends_with` at a character.
abbrev pub ends_with : Text → ℕ → Bool
ends_with [] c = false
ends_with (x ∷ []) c = x == c
ends_with (x ∷ y ∷ s) c = ends_with (y ∷ s) c

-- `str::contains` at a text.
unfoldable pub contains_text : Text → Text → Bool
contains_text [] p = is_empty p
contains_text (c ∷ s) p = starts_with (c ∷ s) p || contains_text s p

-- `str::split_once` at a text.
unfoldable pub split_once_text : Text → Text → Option (Text × Text)
split_once_text p [] = if is_empty p then some ([], []) else none
split_once_text p (c ∷ s) = elim (strip_prefix (c ∷ s) p) [
  | some after ↦ some ([], after)
  | none ↦ elim (split_once_text p s) [
    | none ↦ none
    | some (before, after) ↦ some (c ∷ before, after)
  ]
]

-- `char::is_whitespace`.
abbrev pub is_whitespace : ℕ → Bool
is_whitespace c =
    (leb 9 c && leb c 13)
    || c == 32
    || c == 133
    || c == 160
    || c == 5760
    || (leb 8192 c && leb c 8202)
    || c == 8232
    || c == 8233
    || c == 8239
    || c == 8287
    || c == 12288

-- `str::trim`.
abbrev trim_left : Text → Text
trim_left [] = []
trim_left (c ∷ s) = if is_whitespace c then trim_left s else c ∷ s

abbrev trim_right : Text → Text
trim_right [] = []
trim_right (c ∷ s) = elim (trim_right s) [
  | [] ↦ if is_whitespace c then [] else c ∷ []
  | d ∷ t ↦ c ∷ d ∷ t
]

abbrev pub trim : Text → Text
trim s = trim_right (trim_left s)

-- `str::lines`, from the parts between line feeds: a line feed ends a line, with the carriage
-- return before it.
abbrev line_end : Text → Text
line_end s = elim (strip_suffix s (codes "\r")) [ none ↦ s | some r ↦ r ]

abbrev lines_of : List Text → List Text
lines_of [] = []
lines_of (s ∷ []) = if is_empty s then [] else s ∷ []
lines_of (s ∷ t ∷ r) = line_end s ∷ lines_of (t ∷ r)

unfoldable pub lines : Text → List Text
unfolding split_parts strip_suffix
lines s = lines_of (split b'\n' s)

pub join-split : (c : ℕ) (s : Text) → join (c ∷ []) (split c s) ≡ s
unfolding join split_parts
join-split c [] = refl
join-split c (x ∷ s) = elim (Bool-cases (x == c)) [
  | inl e ↦ ground (arith, join-split c s)
  | inr e ↦ ground (arith, join-split c s)
]

-- A text without the separator is the first part of what it stands before.
split_parts-append :
    (c : ℕ) (p s : Text)
    → contains p c ≡ false
    → split_parts c (p ++ c ∷ s) ≡ (p, (split_parts c s).0 ∷ (split_parts c s).1)
unfolding split_parts
split_parts-append c [] s h = ground arith
split_parts-append c (x ∷ p) s h = ground (arith, split_parts-append c p s)

split_parts-whole : (c : ℕ) (p : Text) → contains p c ≡ false → split_parts c p ≡ (p, [])
unfolding split_parts
split_parts-whole c [] h = refl
split_parts-whole c (x ∷ p) h = ground (arith, split_parts-whole c p)

-- Parts without the separator are found again in their join.
pub split-join :
    (c : ℕ) (p : Text) (ps : List Text)
    → any (λ q. contains q c) (p ∷ ps) ≡ false
    → split c (join (c ∷ []) (p ∷ ps)) ≡ p ∷ ps
unfolding join
split-join c p [] h = ground (arith, split_parts-whole c p)
split-join c p (q ∷ ps) h =
    ground (arith, split_parts-append c p (join (c ∷ []) (q ∷ ps)), split-join c q ps)
