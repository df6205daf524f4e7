-- ===== src/Policy/Batch.antt =====
-- The evaluation of many artifacts with one question to the OSV database, as src/maven.rs,
-- src/cargo.rs and src/go.rs make it: the artifacts that the policy checks are asked for together,
-- and the results are handed out by position. `none` as a result is a panic.
pub mod Answers
pub mod Agreement
mod Tests
use osv_proxy.Common.{
  ℕ, suc, Bool, true, false, ◌==◌, Option, none, some, List, [], ◌∷◌, ◌++◌, map, length, filter,
  if◌then◌else◌, map_option, is_empty, Text, codes, show_u64,
}
use osv_proxy.Common.Equality.{get_elem?, ◌>>=◌}
use osv_proxy.Platform.{Platform}
use osv_proxy.Artifact.{Artifact, identity}
use osv_proxy.Config.{Config}
use osv_proxy.Finding.{OsvFinding}
use osv_proxy.Policy.Decisions.{Decision, Scope}
use osv_proxy.Policy.{
  Checked, found, failed, should_check_osv, evaluate_with_malicious_result, evaluate,
}

-- `Result<Vec<Vec<OsvFinding>>, OsvError>`, the error as its text.
pub data Batched (F : Type 0) : Type 0 where
  listed : List (List (OsvFinding F)) → Batched F
  refused : Text → Batched F

-- The message on a wrong number of results, which each registry words its own way.
abbrev pub Cardinality : Type 0
Cardinality = ℕ → ℕ → Text

module _ {A : Type 0} where
  -- `Iterator::enumerate`, from a first index on.
  unfoldable pub enumerate : ℕ → List A → List (ℕ × A)
  enumerate n [] = []
  enumerate n (x ∷ xs) = (n, x) ∷ enumerate (suc n) xs

  -- `Iterator::position`.
  unfoldable pub position : (A → Bool) → List A → Option ℕ
  position p [] = none
  position p (x ∷ xs) = if p x then some 0 else map_option suc (position p xs)

module _ {F : Type 0} where
  -- `MaliciousChecker::check_many` where an implementation does not bring its own: one check after
  -- the other, up to the first that fails.
  unfoldable pub check_many_default : (Artifact → Checked F) → List Artifact → Batched F
  check_many_default check [] = listed []
  check_many_default check (artifact ∷ artifacts) = elim (check artifact) [
    | failed e ↦ refused e
    | found hits ↦ elim (check_many_default check artifacts) [
      | refused e ↦ refused e
      | listed results ↦ listed (hits ∷ results)
    ]
  ]

  unfoldable pub accept_results : Cardinality → List Artifact → Batched F → Batched F
  accept_results message checked (refused e) = refused e
  accept_results message checked (listed results) =
      if length results == length checked
      then listed results
      else refused (message (length results) (length checked))

  -- The question that is left out where there is nothing to ask.
  unfoldable pub batch_results :
      Cardinality → (List Artifact → Batched F) → List Artifact → Batched F
  unfolding accept_results
  batch_results message check_many checked =
      if is_empty checked then listed [] else accept_results message checked (check_many checked)

  abbrev pub batch_answer : (Text → Text) → Batched F → Artifact → ℕ → Checked F
  batch_answer missing (refused e) artifact batch_index = failed e
  batch_answer missing (listed results) artifact batch_index =
      elim (get_elem? results batch_index) [
        | some hits ↦ found hits
        | none ↦ failed (missing (identity artifact))
      ]

  -- The result for the artifact at an index, where it is one of the `indexed` ones.
  unfoldable pub result_at :
      (Text → Text) → Batched F → List (ℕ × Artifact) → ℕ × Artifact → Option (Checked F)
  unfolding position
  result_at missing results indexed (index, artifact) =
      map_option (batch_answer missing results artifact) (position (λ e. e.0 == index) indexed)

module _ {F : Type 0} (std : Platform F) (config : Config F) where
  unfoldable pub indexed_artifacts : List (ℕ × Artifact) → List (ℕ × Artifact)
  indexed_artifacts artifacts = filter (λ e. should_check_osv std config e.1) artifacts

  -- `evaluate_with_malicious_result` on each artifact with its answer, in order.
  unfoldable pub evaluate_answered :
      ℕ → List (Artifact × Option (Checked F)) → Scope → Option (List (Decision F) × Scope)
  evaluate_answered now [] scope = some ([], scope)
  evaluate_answered now ((artifact, answer) ∷ answers) scope = do
    d ← evaluate_with_malicious_result std config artifact now answer scope
    ds ← evaluate_answered now answers d.1
    some (d.0 ∷ ds.0, ds.1)

  -- `evaluate` on each artifact, in order: what the registries do for a single artifact.
  unfoldable pub evaluate_each :
      (Artifact → Checked F) → ℕ → List Artifact → Scope → Option (List (Decision F) × Scope)
  evaluate_each check now [] scope = some ([], scope)
  evaluate_each check now (artifact ∷ artifacts) scope = do
    d ← evaluate std config check artifact now scope
    ds ← evaluate_each check now artifacts d.1
    some (d.0 ∷ ds.0, ds.1)

  -- `evaluate_artifacts`, over the registry's two messages.
  unfoldable pub evaluate_batch :
      Cardinality
      → (Text → Text)
      → (List Artifact → Batched F)
      → ℕ
      → List Artifact
      → Scope
      → Option (List (Decision F) × Scope)
  unfolding enumerate indexed_artifacts batch_results result_at evaluate_answered
  evaluate_batch message missing check_many now artifacts scope =
      let indexed = indexed_artifacts (enumerate 0 artifacts) in
      let results = batch_results message check_many (map (λ e. e.1) indexed) in
      evaluate_answered now
        (map (λ e. (e.1, result_at missing results indexed e)) (enumerate 0 artifacts)) scope

  -- `evaluate_artifacts` of src/maven.rs.
  unfoldable pub maven_evaluate_artifacts :
      (List Artifact → Batched F) → ℕ → List Artifact → Scope → Option (List (Decision F) × Scope)
  unfolding evaluate_batch
  maven_evaluate_artifacts =
      evaluate_batch
        (λ results artifacts.
          codes "Maven OSV batch returned "
          ++ (show_u64 results
              ++ (codes " results for " ++ (show_u64 artifacts ++ codes " artifacts"))))
        (λ name. codes "Maven OSV batch result missing for " ++ name)

  -- `evaluate_artifacts` of src/cargo.rs.
  unfoldable pub cargo_evaluate_artifacts :
      (List Artifact → Batched F) → ℕ → List Artifact → Scope → Option (List (Decision F) × Scope)
  unfolding evaluate_batch
  cargo_evaluate_artifacts =
      evaluate_batch
        (λ results artifacts.
          codes "malicious batch returned "
          ++ (show_u64 results
              ++ (codes " results for " ++ (show_u64 artifacts ++ codes " artifacts"))))
        (λ name. codes "malicious batch result missing for " ++ name)
