-- ===== src/Artifact/Names.antt =====
-- `normalize_pypi_name` of src/artifact.rs. The loop's output is built from the front; its state
-- is `previous_was_separator`.
use osv_proxy.Common.{
  ℕ, Bool, true, false, ◌||◌, ◌==◌, [], ◌∷◌, ◌++◌, if◌then◌else◌, Text, trim_start, trim_end,
}

abbrev pub is_separator : ℕ → Bool
is_separator ch = ch == b'-' || ch == b'_' || ch == b'.'

unfoldable pub squeeze : Bool → Text → Text
squeeze previous [] = []
squeeze true (ch ∷ s) = if is_separator ch then squeeze true s else ch ∷ squeeze false s
squeeze false (ch ∷ s) = if is_separator ch then b'-' ∷ squeeze true s else ch ∷ squeeze false s

-- `chars().flat_map(char::to_lowercase)`.
unfoldable pub lower_all : (ℕ → Text) → Text → Text
lower_all lowercase [] = []
lower_all lowercase (ch ∷ s) = lowercase ch ++ lower_all lowercase s

unfoldable pub normalize_pypi_name : (ℕ → Text) → Text → Text
normalize_pypi_name lowercase name =
    trim_end b'-' (trim_start b'-' (squeeze false (lower_all lowercase name)))
