-- ===== src/Cargo/Paths.antt =====
-- Of src/cargo.rs: `CargoError`, and the paths of the sparse index.
use osv_proxy.Common.{
  ℕ, Bool, not, ◌||◌, ◌==◌, none, some, [], ◌∷◌, ◌++◌, all, if◌then◌else◌, Text, codes, text_eq,
  is_empty, is_ascii_alphanumeric, rsplit_once, Result, ok, err, ◌>>=◌,
}
use osv_proxy.Artifact.{normalize_cargo_name}
use osv_proxy.Policy.Decisions.{Decision}

pub data CargoError (F : Type 0) : Type 0 where
  budget request body delivery : Text → CargoError F
  invalid_crate_name invalid_index version_not_found : Text → CargoError F
  denied : Decision F → CargoError F

abbrev pub Outcome : Type 0 → Type 0 → Type 0
Outcome F = Result (CargoError F)

abbrev is_name_char : ℕ → Bool
is_name_char c = is_ascii_alphanumeric c || c == b'-' || c == b'_'

-- The match on the length.
abbrev place : Text → Text
place [] = codes "//"
place (a ∷ []) = codes "1/" ++ (a ∷ [])
place (a ∷ b ∷ []) = codes "2/" ++ (a ∷ b ∷ [])
place (a ∷ b ∷ c ∷ []) = codes "3/" ++ (a ∷ b'/' ∷ a ∷ b ∷ c ∷ [])
place (a ∷ b ∷ c ∷ d ∷ s) = a ∷ b ∷ b'/' ∷ c ∷ d ∷ b'/' ∷ a ∷ b ∷ c ∷ d ∷ s

unfoldable pub sparse_path : {F : Type 0} → Text → Outcome F Text
unfolding normalize_cargo_name
sparse_path name =
    let lower = normalize_cargo_name name in
    if is_empty lower || not (all is_name_char lower)
    then err (invalid_crate_name lower)
    else ok (place lower)

-- `path.rsplit('/').next()`.
abbrev last_segment : Text → Text
last_segment path = elim (rsplit_once b'/' path) [ none ↦ path | some (before, after) ↦ after ]

unfoldable pub name_from_sparse_path : {F : Type 0} → Text → Outcome F Text
unfolding sparse_path rsplit_once text_eq
name_from_sparse_path path = do
  expected ← sparse_path (normalize_cargo_name (last_segment path))
  if not (text_eq expected path)
      then err (invalid_crate_name path)
      else ok (normalize_cargo_name (last_segment path))
