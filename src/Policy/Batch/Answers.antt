-- ===== src/Policy/Batch/Answers.antt =====
-- Which answer of a batch each artifact gets.
use osv_proxy.Common.{
  ℕ, suc, ◌<◌, ◌==◌, ◌≡◌, refl, Option, none, some, List, [], ◌∷◌, map, if◌then◌else◌, Text, arith,
  Bool-cases, inl, inr, Option-cases,
}
use osv_proxy.Common.Equality.{get_elem?}
use osv_proxy.Platform.{Platform}
use osv_proxy.Artifact.{Artifact}
use osv_proxy.Config.{Config}
use osv_proxy.Finding.{OsvFinding}
use osv_proxy.Policy.{Checked, found, failed, should_check_osv}
use osv_proxy.Policy.Batch.{
  Batched, listed, refused, enumerate, position, result_at, indexed_artifacts,
}

module _ {F : Type 0} (std : Platform F) (config : Config F) where
  -- The answer to an artifact on its own.
  abbrev pub single : (Artifact → Checked F) → Artifact → Option (Checked F)
  single check artifact =
      if should_check_osv std config artifact then some (check artifact) else none

module _ {F : Type 0} (std : Platform F) (config : Config F) (missing : Text → Text) where
  abbrev Answer : Type 0
  Answer = Artifact × Option (Checked F)

  abbrev answers : Batched F → List (ℕ × Artifact) → List (ℕ × Artifact) → List Answer
  answers results indexed = map (λ e. (e.1, result_at missing results indexed e))

  position-early :
      (m n : ℕ) (artifacts : List Artifact)
      → m < n
      → position (λ e. e.0 == m) (indexed_artifacts std config (enumerate n artifacts)) ≡ none
  unfolding position indexed_artifacts enumerate
  position-early m n [] h = refl
  position-early m n (a ∷ artifacts) h = elim (Bool-cases (should_check_osv std config a)) [
    | inl e ↦ ground (arith, position-early m (suc n) artifacts)
    | inr e ↦ ground (arith, position-early m (suc n) artifacts)
  ]

  result_at-skip :
      (m n : ℕ) (a b : Artifact) (hits : List (OsvFinding F)) (results : List (List (OsvFinding F)))
      (indexed : List (ℕ × Artifact))
      → m < n
      → result_at missing (listed (hits ∷ results)) ((m, a) ∷ indexed) (n, b)
        ≡ result_at missing (listed results) indexed (n, b)
  unfolding result_at position get_elem?
  result_at-skip m n a b hits results indexed h =
      elim (Option-cases (position (λ e. e.0 == n) indexed)) [
        | inl e ↦ ground arith
        | inr (i, e) ↦ ground arith
      ]

  answers-skip :
      (m n : ℕ) (a : Artifact) (hits : List (OsvFinding F)) (results : List (List (OsvFinding F)))
      (indexed : List (ℕ × Artifact)) (artifacts : List Artifact)
      → m < n
      → answers (listed (hits ∷ results)) ((m, a) ∷ indexed) (enumerate n artifacts)
        ≡ answers (listed results) indexed (enumerate n artifacts)
  unfolding enumerate
  answers-skip m n a hits results indexed [] h = refl
  answers-skip m n a hits results indexed (b ∷ artifacts) h =
      rw
        (
          result_at-skip m n a b hits results indexed h,
          answers-skip m (suc n) a hits results indexed artifacts (omega arith),
        )
        refl

  -- Results in the order of the questions: each artifact gets its own.
  pub answers-single :
      (hits : Artifact → List (OsvFinding F)) (n : ℕ) (artifacts : List Artifact)
      → answers
          (listed (map (λ e. hits e.1) (indexed_artifacts std config (enumerate n artifacts))))
          (indexed_artifacts std config (enumerate n artifacts))
          (enumerate n artifacts)
        ≡ map (λ a. (a, single std config (λ b. found (hits b)) a)) artifacts
  unfolding enumerate indexed_artifacts result_at position get_elem?
  answers-single hits n [] = refl
  answers-single hits n (a ∷ artifacts) =
      let indexed = indexed_artifacts std config (enumerate (suc n) artifacts) in
      elim (Bool-cases (should_check_osv std config a)) [
        | inl e ↦ ground (
          arith,
          answers-single hits (suc n) artifacts,
          answers-skip n (suc n) a (hits a) (map (λ e. hits e.1) indexed) indexed artifacts
              (omega arith),
        )
        | inr e ↦ ground (
          arith,
          answers-single hits (suc n) artifacts,
          position-early n (suc n) artifacts (omega arith),
        )
      ]

  refused_at :
      (e : Text) (m n : ℕ) (a : Artifact) (indexed : List (ℕ × Artifact))
      (artifacts : List Artifact)
      → m < n
      → answers (refused e) ((m, a) ∷ indexed) (enumerate n artifacts)
        ≡ answers (refused e) indexed (enumerate n artifacts)
  unfolding enumerate result_at position
  refused_at e m n a indexed [] h = refl
  refused_at e m n a indexed (b ∷ artifacts) h =
      elim (Option-cases (position (λ e. e.0 == n) indexed)) [
        | inl k ↦ ground (arith, refused_at e m (suc n) a indexed artifacts)
        | inr (i, k) ↦ ground (arith, refused_at e m (suc n) a indexed artifacts)
      ]

  -- A refusal: each artifact that is checked gets its text.
  pub answers-refused :
      (e : Text) (n : ℕ) (artifacts : List Artifact)
      → answers
          (refused e)
          (indexed_artifacts std config (enumerate n artifacts))
          (enumerate n artifacts)
        ≡ map (λ a. (a, single std config (λ b. failed e) a)) artifacts
  unfolding enumerate indexed_artifacts result_at position
  answers-refused e n [] = refl
  answers-refused e n (a ∷ artifacts) =
      let indexed = indexed_artifacts std config (enumerate (suc n) artifacts) in
      elim (Bool-cases (should_check_osv std config a)) [
        | inl c ↦ ground (
          arith,
          answers-refused e (suc n) artifacts,
          refused_at e n (suc n) a indexed artifacts (omega arith),
        )
        | inr c ↦ ground (
          arith,
          answers-refused e (suc n) artifacts,
          position-early n (suc n) artifacts (omega arith),
        )
      ]
