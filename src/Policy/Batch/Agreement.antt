-- ===== src/Policy/Batch/Agreement.antt =====
-- The batched evaluation against the evaluation of each artifact.
use osv_proxy.Common.{
  ℕ, ◌≡◌, ◌≢◌, ◌⊎◌, sym, ap, ◌∙◌, refl, true, false, none, some, List, [], ◌∷◌, map, length, Text,
  arith, inl, inr, subst,
}
use osv_proxy.Common.Equality.{◌>>=◌, bind-some}
use osv_proxy.Platform.{Platform}
use osv_proxy.Artifact.{Artifact}
use osv_proxy.Config.{Config}
use osv_proxy.Finding.{OsvFinding}
use osv_proxy.Policy.Decisions.{Decision, Scope, blocked_decision}
use osv_proxy.Policy.{
  Checked, found, failed, should_check_osv, evaluate_with_malicious_result, evaluate,
  blocks_on_error, osv_gate, error_gate,
}
use osv_proxy.Policy.Batch.{
  Batched, listed, refused, enumerate, Cardinality, accept_results, batch_results,
  indexed_artifacts, evaluate_answered, evaluate_each, evaluate_batch,
}
use osv_proxy.Policy.Batch.Answers.{single, answers-single, answers-refused}

Batched-cases :
    {F : Type 0} (b : Batched F)
    → ((results : List (List (OsvFinding F))) × (b ≡ listed results))
      ⊎ ((e : Text) × (b ≡ refused e))
Batched-cases (listed results) = inl (results, refl)
Batched-cases (refused e) = inr (e, refl)

module _ {F : Type 0} (std : Platform F) (config : Config F) where
  pub evaluate_answered-single :
      (check : Artifact → Checked F) (now : ℕ) (artifacts : List Artifact) (scope : Scope)
      → evaluate_answered std config now (map (λ a. (a, single std config check a)) artifacts) scope
        ≡ evaluate_each std config check now artifacts scope
  unfolding evaluate_answered evaluate_each evaluate
  evaluate_answered-single check now [] scope = refl
  evaluate_answered-single check now (a ∷ artifacts) scope = λ i. do
    d ← evaluate_with_malicious_result std config a now (single std config check a) scope
    ds ← evaluate_answered-single check now artifacts d.1 i
    some (d.0 ∷ ds.0, ds.1)

  abbrev pub asked : List Artifact → List Artifact
  asked artifacts = map (λ e. e.1) (indexed_artifacts std config (enumerate 0 artifacts))

  -- Each artifact beside its decision.
  abbrev pub Paired : (Artifact → Decision F → Type 0) → List Artifact → List (Decision F) → Type 0
  Paired P [] [] = Unit
  Paired P (a ∷ artifacts) (d ∷ ds) = P a d × Paired P artifacts ds
  Paired P _ _ = ⊥

  -- No artifact that is checked is allowed.
  abbrev pub AllBlocked : List Artifact → List (Decision F) → Type 0
  AllBlocked = Paired (λ a d. should_check_osv std config a ≡ true → d.allowed ≡ false)

  failed_blocks :
      (e : Text) (now : ℕ) (a : Artifact) (scope : Scope) (d : Decision F × Scope)
      → blocks_on_error config.policy.osv.on_error ≡ true
      → evaluate std config (λ b. failed e) a now scope ≡ some d
      → should_check_osv std config a ≡ true
      → d.0.allowed ≡ false
  unfolding evaluate evaluate_with_malicious_result osv_gate error_gate blocked_decision
  failed_blocks e now a scope d b h c = ground arith

  failed_each :
      (e : Text) (now : ℕ) (artifacts : List Artifact) (scope scope' : Scope)
      (ds : List (Decision F))
      → blocks_on_error config.policy.osv.on_error ≡ true
      → evaluate_each std config (λ b. failed e) now artifacts scope ≡ some (ds, scope')
      → AllBlocked artifacts ds
  unfolding evaluate_each
  failed_each e now [] scope scope' ds b h =
      subst (AllBlocked []) (ap (λ o. elim o [ none ↦ ds | some x ↦ x.0 ]) h) tt
  failed_each e now (a ∷ artifacts) scope scope' ds b h =
      let (d, e₁, h₁) =
        bind-some (evaluate std config (λ b. failed e) a now scope) _ (ds, scope') h in
      let (r, e₂, h₂) =
        bind-some (evaluate_each std config (λ b. failed e) now artifacts d.1) _ (ds, scope') h₁ in
      subst (AllBlocked (a ∷ artifacts)) (ap (λ o. elim o [ none ↦ ds | some x ↦ x.0 ]) h₂)
        (failed_blocks e now a scope d b e₁, failed_each e now artifacts d.1 r.1 r.0 b e₂)

  pub map-map :
      (hits : Artifact → List (OsvFinding F)) (indexed : List (ℕ × Artifact))
      → map hits (map (λ e. e.1) indexed) ≡ map (λ e. hits e.1) indexed
  map-map hits [] = refl
  map-map hits (e ∷ indexed) = ground (arith, map-map hits indexed)

  pub length-map :
      (hits : Artifact → List (OsvFinding F)) (xs : List Artifact)
      → length (map hits xs) ≡ length xs
  length-map hits [] = refl
  length-map hits (x ∷ xs) = ground (arith, length-map hits xs)

  module _ (message : Cardinality) (missing : Text → Text)
      (check_many : List Artifact → Batched F) where
    results_of :
        (hits : Artifact → List (OsvFinding F)) (xs : List Artifact)
        → check_many xs ≡ listed (map hits xs)
        → batch_results message check_many xs ≡ listed (map hits xs)
    unfolding batch_results accept_results
    results_of hits [] h = refl
    results_of hits (x ∷ xs) h = ground (arith, length-map hits (x ∷ xs))

    -- Where the OSV database answers the question for the artifacts that are checked with the findings
    -- of each, in order, the batched evaluation decides each artifact, and leaves the scope, as the
    -- evaluation of one artifact after the other does, panics included.
    pub evaluate_batch-each :
        (hits : Artifact → List (OsvFinding F)) (now : ℕ) (artifacts : List Artifact)
        (scope : Scope)
        → check_many (asked artifacts) ≡ listed (map hits (asked artifacts))
        → evaluate_batch std config message missing check_many now artifacts scope
          ≡ evaluate_each std config (λ a. found (hits a)) now artifacts scope
    unfolding evaluate_batch
    evaluate_batch-each hits now artifacts scope h =
        let indexed = indexed_artifacts std config (enumerate 0 artifacts) in
        rw
          (
            results_of hits (asked artifacts) h,
            map-map hits indexed,
            answers-single std config missing hits 0 artifacts,
          )
          (evaluate_answered-single (λ a. found (hits a)) now artifacts scope)

    refused_results :
        (xs : List Artifact)
        → xs ≢ []
        → ((results : List (List (OsvFinding F)))
            → check_many xs ≡ listed results
            → length results ≢ length xs)
        → (e : Text) × (batch_results message check_many xs ≡ refused e)
    unfolding batch_results accept_results
    refused_results [] h k = absurd (h refl)
    refused_results (x ∷ xs) h k = elim (Batched-cases (check_many (x ∷ xs))) [
      | inl (results, c) ↦ (message (length results) (length (x ∷ xs)), ground (arith, k results c))
      | inr (e, c) ↦ (e, ground arith)
    ]

    fails :
        (now : ℕ) (artifacts : List Artifact) (scope : Scope)
        → asked artifacts ≢ []
        → ((results : List (List (OsvFinding F)))
            → check_many (asked artifacts) ≡ listed results
            → length results ≢ length (asked artifacts))
        → (e : Text) × (evaluate_batch std config message missing check_many now artifacts scope
            ≡ evaluate_each std config (λ a. failed e) now artifacts scope)
    unfolding evaluate_batch
    fails now artifacts scope h k =
        let (e, r) = refused_results (asked artifacts) h k in
        (
          e,
          rw (r, answers-refused std config missing e 0 artifacts)
              (evaluate_answered-single (λ a. failed e) now artifacts scope),
        )

    -- A refused question, or a wrong number of results, counts as a failed check of every artifact that
    -- is checked. Where the configuration blocks on errors, none of these is allowed.
    pub evaluate_batch-fails :
        (now : ℕ) (artifacts : List Artifact) (scope : Scope)
        → asked artifacts ≢ []
        → ((results : List (List (OsvFinding F)))
            → check_many (asked artifacts) ≡ listed results
            → length results ≢ length (asked artifacts))
        → (e : Text) × (evaluate_batch std config message missing check_many now artifacts scope
            ≡ evaluate_each std config (λ a. failed e) now artifacts scope)
          × ((ds : List (Decision F)) (scope' : Scope)
              → blocks_on_error config.policy.osv.on_error ≡ true
              → evaluate_batch std config message missing check_many now artifacts scope
                ≡ some (ds, scope')
              → AllBlocked artifacts ds)
    evaluate_batch-fails now artifacts scope h k =
        let (e, eq) = fails now artifacts scope h k in
        (e, eq, λ ds scope' b r. failed_each e now artifacts scope scope' ds b (sym eq ∙ r))
