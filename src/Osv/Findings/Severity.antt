-- ===== src/Osv/Findings/Severity.antt =====
-- Which of two severities of src/malicious.rs is higher, and the highest of many. A score is compared
-- by its rank, a number that orders the scores as `f64` does where none of them is NaN.
use osv_proxy.Common.{
  text_cmp_lt_trans, ℕ, ◌<◌, compare, ◌≡◌, ◌≢◌, refl, sym, ◌∙◌, ap, if◌then◌else◌, ◌⊎◌, ◌↔◌, inl,
  inr, Bool, true, false, Bool-cases, Option, none, some, Ordering, List, [], ◌∷◌, arith, Text,
  text_cmp, text_cmp_refl, text_cmp_eq, text_cmp-reverse, text_cmp_trans, In, then_with, subst,
}
use osv_proxy.Platform.{Platform}
use osv_proxy.Finding.{OsvFinding, OsvEffectiveSeverity}
use osv_proxy.Osv.Findings.{outranks, higher, first_error}
use osv_proxy.Osv.Findings.Consolidated.{Ordering-cases}

-- The first error that a finding reports.
abbrev pub first_failure : {F : Type 0} → List (OsvFinding F) → Option Text
first_failure [] = none
first_failure (f ∷ findings) = elim f.evaluation_error [
  | some e ↦ some e
  | none ↦ first_failure findings
]

-- The severity of one of the findings.
abbrev pub Has : {F : Type 0} → List (OsvFinding F) → OsvEffectiveSeverity F → Type 0
Has {F} findings s = (g : OsvFinding F) × In g findings × (g.effective_severity ≡ some s)

module _ {F : Type 0} (rank : F → ℕ) where
  -- At least as high: a higher score, or the same one, and then the type and the vector that come
  -- first.
  abbrev pub AtLeast : OsvEffectiveSeverity F → OsvEffectiveSeverity F → Type 0
  AtLeast s t =
      (rank t.base_score < rank s.base_score)
      ⊎ ((rank t.base_score ≡ rank s.base_score)
          × ((text_cmp s.severity_type t.severity_type ≡ Ordering.lt)
              ⊎ ((s.severity_type ≡ t.severity_type) × (text_cmp s.vector t.vector ≢ Ordering.gt))))

  abbrev pub IsHighest :
      Option (OsvEffectiveSeverity F) → (OsvEffectiveSeverity F → Type 0) → Type 0
  IsHighest none M = (t : OsvEffectiveSeverity F) → ¬ M t
  IsHighest (some s) M = M s × ((t : OsvEffectiveSeverity F) → M t → AtLeast s t)

  -- What is left of the findings of one advisory: nothing of none; otherwise the first of them, with
  -- the first error, and with the highest severity of them all.
  abbrev pub Consolidates : List (OsvFinding F) → Option (OsvFinding F) → Type 0
  Consolidates [] found = found ≡ none
  Consolidates (f ∷ findings) found =
      (severity : Option (OsvEffectiveSeverity F)) × (found
        ≡ some (record f {
          evaluation_error = first_failure (f ∷ findings);
          effective_severity = severity;
        }))
      × IsHighest severity (Has (f ∷ findings))

  pub AtLeast-refl : (s : OsvEffectiveSeverity F) → AtLeast s s
  AtLeast-refl s = inr (refl, inr (refl, (λ h. ground (arith, text_cmp_refl s.vector))))

  AtLeast-trans : (s t u : OsvEffectiveSeverity F) → AtLeast s t → AtLeast t u → AtLeast s u
  AtLeast-trans s t u (inl h) (inl k) = inl (omega arith)
  AtLeast-trans s t u (inl h) (inr (e, k)) = inl (omega arith)
  AtLeast-trans s t u (inr (e, h)) (inl k) = inl (omega arith)
  AtLeast-trans s t u (inr (e, inl h)) (inr (e', inl k)) =
      inr (omega arith, inl (text_cmp_lt_trans s.severity_type t.severity_type u.severity_type h k))
  AtLeast-trans s t u (inr (e, inl h)) (inr (e', inr (q, k))) =
      inr (omega arith, inl (subst (λ x. text_cmp s.severity_type x ≡ Ordering.lt) q h))
  AtLeast-trans s t u (inr (e, inr (q, h))) (inr (e', inl k)) =
      inr (omega arith, inl (subst (λ x. text_cmp x u.severity_type ≡ Ordering.lt) (sym q) k))
  AtLeast-trans s t u (inr (e, inr (q, h))) (inr (e', inr (q', k))) =
      inr (omega arith, inr (q ∙ q', text_cmp_trans s.vector t.vector u.vector h k))

  module _ (std : Platform F) where
    -- The scores of two severities compare as their ranks do.
    abbrev pub Compares : OsvEffectiveSeverity F → OsvEffectiveSeverity F → Type 0
    Compares s t =
        std.partial_cmp s.base_score t.base_score
        ≡ some (compare (rank s.base_score) (rank t.base_score))

    later-AtLeast :
        (c s : OsvEffectiveSeverity F)
        → rank s.base_score ≡ rank c.base_score
        → then_with (text_cmp c.severity_type s.severity_type) (text_cmp c.vector s.vector)
          ≢ Ordering.gt
        → AtLeast c s
    later-AtLeast c s e h = elim (Ordering-cases (text_cmp c.severity_type s.severity_type)) [
      | inl l ↦ inr (e, inl l)
      | inr (inl q) ↦ inr (
        e,
        inr (
          text_cmp_eq c.severity_type s.severity_type q,
          subst (λ o. then_with o (text_cmp c.vector s.vector) ≢ Ordering.gt) q h,
        ),
      )
      | inr (inr g) ↦ absurd (h (ap (λ o. then_with o (text_cmp c.vector s.vector)) g))
    ]

    outranks-AtLeast :
        (c s : OsvEffectiveSeverity F) → Compares c s → outranks std c s ≡ true → AtLeast c s
    unfolding outranks
    outranks-AtLeast c s k h =
        elim (Ordering-cases (compare (rank c.base_score) (rank s.base_score))) [
          | inl l ↦ absurd (ground (arith, k, l, h))
          | inr (inl q) ↦ later-AtLeast c s (ground (arith, q)) (λ g. ground (arith, k, q, h, g))
          | inr (inr g) ↦ inl (ground (arith, g))
        ]

    kept-AtLeast :
        (c s : OsvEffectiveSeverity F) → Compares c s → outranks std c s ≡ false → AtLeast s c
    unfolding outranks
    kept-AtLeast c s k h = elim (Ordering-cases (compare (rank c.base_score) (rank s.base_score))) [
      | inl l ↦ inl (ground (arith, l))
      | inr (inl q) ↦ later-AtLeast s c (ground (arith, q)) (λ g. ground (
        arith,
        k,
        q,
        h,
        g,
        text_cmp-reverse c.severity_type s.severity_type,
        text_cmp-reverse c.vector s.vector,
      ))
      | inr (inr g) ↦ absurd (ground (arith, k, g, h))
    ]

    pub first_error-none : (e : Option Text) → first_error std e none ≡ e
    first_error-none none = refl
    first_error-none (some e) = refl

    pub first_error_assoc :
        (a b c : Option Text)
        → first_error std (first_error std a b) c ≡ first_error std a (first_error std b c)
    first_error_assoc none b c = refl
    first_error_assoc (some a) b c = refl

    pub first_error-same : (a : Option Text) → first_error std a a ≡ a
    first_error-same none = refl
    first_error-same (some a) = refl

    pub first_failure-cons :
        (f : OsvFinding F) (findings : List (OsvFinding F))
        → first_failure (f ∷ findings) ≡ first_error std f.evaluation_error (first_failure findings)
    first_failure-cons f findings = ground arith

    pub higher-same : (s : Option (OsvEffectiveSeverity F)) → higher std s s ≡ s
    unfolding outranks
    higher-same none = refl
    higher-same (some s) = ground arith

    pub IsHighest-iff :
        (s : Option (OsvEffectiveSeverity F)) {M N : OsvEffectiveSeverity F → Type 0}
        → ((t : OsvEffectiveSeverity F) → M t ↔ N t)
        → IsHighest s M
        → IsHighest s N
    IsHighest-iff none iff h = λ t n. h t ((iff t).1 n)
    IsHighest-iff (some s) iff (m, h) = ((iff s).0 m, (λ t n. h t ((iff t).1 n)))

    pub only : (s t c : OsvEffectiveSeverity F) → some c ≡ some t → AtLeast s c → AtLeast s t
    only s t c e h = let same : c ≡ t = ground arith in subst (λ x. AtLeast s x) same h

    -- One more finding.
    pub IsHighest-higher :
        (s o : Option (OsvEffectiveSeverity F)) {M : OsvEffectiveSeverity F → Type 0}
        → ((t c : OsvEffectiveSeverity F) → M t → o ≡ some c → Compares c t)
        → IsHighest s M
        → IsHighest (higher std s o) (λ t. M t ⊎ (o ≡ some t))
    IsHighest-higher none none cmp h = λ t m. elim m [ inl n ↦ h t n | inr e ↦ ground arith ]
    IsHighest-higher (some s) none cmp (m, h) =
        (inl m, (λ t n. elim n [ inl k ↦ h t k | inr e ↦ absurd (ground arith) ]))
    IsHighest-higher none (some c) cmp h = (
      inr refl,
      (λ t n. elim n [ inl k ↦ absurd (h t k) | inr e ↦ only c t c e (AtLeast-refl c) ]),
    )
    IsHighest-higher (some s) (some c) {M} cmp (m, h) = elim (Bool-cases (outranks std c s)) [
      | inl e ↦
          let above = outranks-AtLeast c s (cmp s c m refl) e in
          subst (λ r. IsHighest r (λ t. M t ⊎ (some c ≡ some t))) (sym (chosen c s true e))
            (
              inr refl,
              (λ t n. elim n [
                | inl k ↦ AtLeast-trans c s t above (h t k)
                | inr q ↦ only c t c q (AtLeast-refl c)
              ]),
            )
      | inr e ↦
          let above = kept-AtLeast c s (cmp s c m refl) e in
          subst (λ r. IsHighest r (λ t. M t ⊎ (some c ≡ some t))) (sym (chosen c s false e))
            (inl m, (λ t n. elim n [ inl k ↦ h t k | inr q ↦ only s t c q above ]))
    ]
      where
        chosen :
            (c s : OsvEffectiveSeverity F) (b : Bool)
            → outranks std c s ≡ b
            → higher std (some s) (some c) ≡ (if b then some c else some s)
        chosen c s b e = rw e refl
