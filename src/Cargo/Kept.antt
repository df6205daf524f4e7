-- ===== src/Cargo/Kept.antt =====
-- What the index of src/cargo.rs keeps, and whom it delivers.
use osv_proxy.Common.{
  ℕ, ◌≡◌, refl, ◌↔◌, ◌⊎◌, inl, inr, true, Bool-cases, some, List, [], ◌∷◌, In, map, arith, Text,
  Result, ok,
}
use osv_proxy.Platform.{Platform}
use osv_proxy.Config.{Config}
use osv_proxy.Artifact.{Artifact}
use osv_proxy.Finding.{OsvFinding}
use osv_proxy.Policy.Decisions.{Decision, Scope}
use osv_proxy.Policy.{found}
use osv_proxy.Policy.Batch.{Batched, listed, evaluate_each, cargo_evaluate_artifacts}
use osv_proxy.Policy.Batch.Agreement.{asked, evaluate_batch-each}
use osv_proxy.Cargo.Paths.{Outcome}
use osv_proxy.Cargo.Index.{IndexRecord, index_entries, index_entry, index_response, retained_lines}

module _ {F : Type 0} where
  -- The line is among the first, and the decision at its place allows it.
  abbrev pub AllowedLine : Text → List Text → List (Decision F) → Type 0
  AllowedLine line (l ∷ lines) (d ∷ ds) =
      ((line ≡ l) × (d.allowed ≡ true)) ⊎ AllowedLine line lines ds
  AllowedLine line _ _ = ⊥

  In-retained_lines :
      (lines : List Text) (ds : List (Decision F)) (line : Text)
      → In line (retained_lines lines ds) ↔ AllowedLine line lines ds
  In-retained_lines [] ds line = ground arith
  In-retained_lines (l ∷ lines) [] line = ground arith
  In-retained_lines (l ∷ lines) (d ∷ ds) line = elim (Bool-cases d.allowed) [
    | inl e ↦ ground (arith, In-retained_lines lines ds line)
    | inr e ↦ ground (arith, In-retained_lines lines ds line)
  ]

module _ {F : Type 0} (std : Platform F) (config : Config F)
    (parse_json : Text → Result Text IndexRecord) (parse_rfc3339 : Text → Result Text ℕ)
    (fetch_index : Text → Outcome F Text) where
  -- The index entry of a crate, where its records are read and the OSV database answers for those that
  -- are checked: it is made of exactly the lines whose artifact the policy allows, each decided as on
  -- its own.
  pub index_response-retained :
      (check_many : List Artifact → Batched F) (hits : Artifact → List (OsvFinding F)) (name : Text)
      (now : ℕ) (scope scope' : Scope) (entries : List (Text × Artifact)) (ds : List (Decision F))
      → index_entries std config parse_json parse_rfc3339 fetch_index name ≡ ok entries
      → check_many (asked std config (map (λ e. e.1) entries))
        ≡ listed (map hits (asked std config (map (λ e. e.1) entries)))
      → evaluate_each std config (λ a. found (hits a)) now (map (λ e. e.1) entries) scope
        ≡ some (ds, scope')
      → (retained : List Text) × (index_response std config parse_json parse_rfc3339 fetch_index
            check_many name now scope
          ≡ some (ok (index_entry retained), scope'))
        × ((line : Text) → In line retained ↔ AllowedLine line (map (λ e. e.0) entries) ds)
  unfolding index_response cargo_evaluate_artifacts
  index_response-retained check_many hits name now scope scope' entries ds e₁ e₂ e₃ = (
    retained_lines (map (λ e. e.0) entries) ds,
    rw
        (
          e₁,
          evaluate_batch-each std config _ _ check_many hits now (map (λ e. e.1) entries) scope e₂,
          e₃,
          index_response,
          cargo_evaluate_artifacts,
        )
        refl,
    In-retained_lines (map (λ e. e.0) entries) ds,
  )
