-- ===== src/Osv/Findings/Highest.antt =====
-- Which severity and which error the consolidation of src/malicious.rs keeps of the findings of an
-- advisory.
use osv_proxy.Common.{
  ℕ, ◌≡◌, refl, sym, ◌∙◌, ap, ◌⊎◌, inl, inr, Option, none, some, List, [], ◌∷◌, filter, arith, Text,
  text_eq, find, In-filter, subst,
}
use osv_proxy.Platform.{Platform}
use osv_proxy.Finding.{OsvFinding, OsvEffectiveSeverity}
use osv_proxy.Osv.Findings.{merge, higher, first_error, consolidate_local_findings}
use osv_proxy.Osv.Findings.Consolidated.{
  Ascending, has_id, merge_onto, consolidate_local_findings-merge,
}
use osv_proxy.Osv.Findings.Severity.{
  Has, first_failure, AtLeast-refl, IsHighest, Consolidates, Compares, only, first_error_assoc,
  first_error-none, first_error-same, first_failure-cons, higher-same, IsHighest-iff,
  IsHighest-higher,
}

module _ {F : Type 0} (rank : F → ℕ) (std : Platform F) where
  -- The loop over the findings that follow the first one.
  merge_onto-highest :
      (f : OsvFinding F) (error : Option Text) (s : Option (OsvEffectiveSeverity F))
      (findings : List (OsvFinding F)) {M A : OsvEffectiveSeverity F → Type 0}
      → ((t c : OsvEffectiveSeverity F) → A t → A c → Compares rank std c t)
      → ((t : OsvEffectiveSeverity F) → M t → A t)
      → ((t : OsvEffectiveSeverity F) → Has findings t → A t)
      → IsHighest rank s M
      → (severity : Option (OsvEffectiveSeverity F)) × (merge_onto std
            (some (record f { evaluation_error = error; effective_severity = s }))
            findings
          ≡ some (record f {
            evaluation_error = first_error std error (first_failure findings);
            effective_severity = severity;
          }))
        × IsHighest rank severity (λ t. M t ⊎ Has findings t)
  unfolding merge
  merge_onto-highest f error s [] cmp seen there h = (
    s,
    ap (λ e. some (record f { evaluation_error = e; effective_severity = s }))
        (sym (first_error-none rank std error)),
    IsHighest-iff rank std s
        (λ t. (λ m. inl m, λ n. elim n [ inl m ↦ m | inr (g, i, e) ↦ elim i [ ] ])) h,
  )
  merge_onto-highest f error s (g ∷ findings) {M} {A} cmp seen there h =
      let has_g : (t : OsvEffectiveSeverity F) → g.effective_severity ≡ some t → A t =
        λ t e. there t (g, inl refl, e) in
      let (severity, result, highest) =
        merge_onto-highest f (first_error std error g.evaluation_error)
          (higher std s g.effective_severity) findings cmp
          (λ t n. elim n [ inl m ↦ seen t m | inr e ↦ has_g t e ])
          (λ t (x, i, e). there t (x, inr i, e))
          (IsHighest-higher rank std s g.effective_severity
            (λ t c m e. cmp t c (seen t m) (has_g c e)) h) in
      (
        severity,
        result
            ∙ ap (λ e. some (record f { evaluation_error = e; effective_severity = severity }))
                (first_error_assoc rank std error g.evaluation_error (first_failure findings)
                  ∙ ap (first_error std error) (sym (first_failure-cons rank std g findings))),
        IsHighest-iff rank std severity
            (λ t. (
              (λ n. elim n [
                | inl m ↦ elim m [ inl k ↦ inl k | inr e ↦ inr (g, inl refl, e) ]
                | inr (x, i, e) ↦ inr (x, inr i, e)
              ]),
              (λ n. elim n [
                | inl k ↦ inl (inl k)
                | inr (x, i, e) ↦ elim i [
                  | inl q ↦ inl (inr (subst (λ y. y.effective_severity ≡ some t) q e))
                  | inr j ↦ inr (x, j, e)
                ]
              ]),
            ))
            highest,
      )

  merge_same : (f : OsvFinding F) → merge std f f ≡ f
  unfolding merge
  merge_same f =
      rw (first_error-same rank std f.evaluation_error, higher-same rank std f.effective_severity)
        refl

  group-Consolidates :
      (group : List (OsvFinding F))
      → ((t c : OsvEffectiveSeverity F) → Has group t → Has group c → Compares rank std c t)
      → Consolidates rank group (merge_onto std none group)
  group-Consolidates [] cmp = refl
  group-Consolidates (f ∷ findings) cmp =
      let (severity, result, highest) =
        merge_onto-highest f f.evaluation_error f.effective_severity findings
          {M = λ t. f.effective_severity ≡ some t} {A = Has (f ∷ findings)} cmp
          (λ t e. (f, inl refl, e)) (λ t (x, i, e). (x, inr i, e)) (own f.effective_severity) in
      (
        severity,
        ap (λ g. merge_onto std (some g) findings) (merge_same f)
            ∙ result
            ∙ ap (λ e. some (record f { evaluation_error = e; effective_severity = severity }))
                (sym (first_failure-cons rank std f findings)),
        IsHighest-iff rank std severity
            (λ t. (
              (λ n. elim n [ inl e ↦ (f, inl refl, e) | inr (x, i, e) ↦ (x, inr i, e) ]),
              (λ (x, i, e). elim i [
                | inl q ↦ inl (subst (λ y. y.effective_severity ≡ some t) q e)
                | inr j ↦ inr (x, j, e)
              ]),
            ))
            highest,
      )
    where
      own : (s : Option (OsvEffectiveSeverity F)) → IsHighest rank s (λ t. s ≡ some t)
      own none = λ t e. ground arith
      own (some s) = (refl, (λ t e. only rank std s t s e (AtLeast-refl rank s)))

  -- Where the scores among the findings compare as their ranks do, the consolidated findings ascend
  -- strictly by id. There is one of an id exactly where a finding has that id: it is the first of them,
  -- with the first error that one of them reports, and with the highest of their severities, where of
  -- equal scores the one with the first type and vector counts as higher.
  pub consolidate_local_findings-highest :
      (findings : List (OsvFinding F))
      → ((t c : OsvEffectiveSeverity F) → Has findings t → Has findings c → Compares rank std c t)
      → Ascending std (consolidate_local_findings std findings)
        × ((id : Text)
            → Consolidates rank
                (filter (λ f. text_eq f.osv_id id) findings)
                (find (λ f. text_eq f.osv_id id) (consolidate_local_findings std findings)))
  consolidate_local_findings-highest findings cmp =
      let (ascending, merges) = consolidate_local_findings-merge std findings in
      (
        ascending,
        λ id.
            let group = filter (has_id std id) findings in
            let member : (t : OsvEffectiveSeverity F) → Has group t → Has findings t =
              λ t (x, i, e). (x, ((In-filter (has_id std id) findings x).0 i).0, e) in
            subst (λ found. Consolidates rank group found) (sym (merges id))
              (group-Consolidates group (λ t c m n. cmp t c (member t m) (member c n))),
      )
