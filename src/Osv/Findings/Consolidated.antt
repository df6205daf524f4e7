-- ===== src/Osv/Findings/Consolidated.antt =====
-- What the consolidation of findings keeps.
use osv_proxy.Common.{
  text_cmp_lt_trans, ◌≡◌, refl, sym, ◌∙◌, ap, ◌⊎◌, text_cmp_total, inl, inr, Bool, false,
  Bool-cases, Option, none, some, Ordering, List, [], ◌∷◌, map, filter, All, if◌then◌else◌, arith,
  Text, text_eq, text_eq_iff, text_cmp, text_cmp_refl, text_cmp_eq, find, subst,
}
use osv_proxy.Platform.{Platform}
use osv_proxy.Finding.{OsvFinding}
use osv_proxy.Osv.Findings.{merge, add_finding, add_findings, consolidate_local_findings}

pub Ordering-cases : (o : Ordering) → (o ≡ Ordering.lt) ⊎ (o ≡ Ordering.eq) ⊎ (o ≡ Ordering.gt)
Ordering-cases Ordering.lt = inl refl
Ordering-cases Ordering.eq = inr (inl refl)
Ordering-cases Ordering.gt = inr (inr refl)

text_cmp_gt : (s t : Text) → text_cmp s t ≡ Ordering.gt → text_cmp t s ≡ Ordering.lt
text_cmp_gt s t h = text_cmp_total s t h

text_eq-lt : (s t : Text) → text_cmp s t ≡ Ordering.lt → text_eq t s ≡ false
text_eq-lt s t h = elim (Bool-cases (text_eq t s)) [
  | inl e ↦ let same = (text_eq_iff t s).0 e in ground (arith, text_cmp_refl s)
  | inr e ↦ e
]

module _ {F : Type 0} (std : Platform F) where
  abbrev Entries : Type 0
  Entries = List (Text × OsvFinding F)

  abbrev Above : Text → Entries → Type 0
  Above id = All (λ e. text_cmp id e.0 ≡ Ordering.lt)

  -- The keys ascend, and are the ids of the findings.
  abbrev IsMap : Entries → Type 0
  IsMap [] = Unit
  IsMap (e ∷ by_id) = (e.1.osv_id ≡ e.0) × Above e.0 by_id × IsMap by_id

  Above-trans :
      (i j : Text) (by_id : Entries) → text_cmp i j ≡ Ordering.lt → Above j by_id → Above i by_id
  Above-trans i j [] h k = tt
  Above-trans i j (e ∷ by_id) h (k, ks) =
      (text_cmp_lt_trans i j e.0 h k, Above-trans i j by_id h ks)

  Above-add_finding :
      (i : Text) (f : OsvFinding F) (by_id : Entries)
      → text_cmp i f.osv_id ≡ Ordering.lt
      → Above i by_id
      → Above i (add_finding std f by_id)
  unfolding add_finding
  Above-add_finding i f [] h k = (h, tt)
  Above-add_finding i f (e ∷ by_id) h (k, ks) = ground (arith, Above-add_finding i f by_id h ks)

  -- The three cases of a round.
  add_before :
      (f : OsvFinding F) (e : Text × OsvFinding F) (by_id : Entries)
      → text_cmp f.osv_id e.0 ≡ Ordering.lt
      → add_finding std f (e ∷ by_id) ≡ (f.osv_id, merge std f f) ∷ e ∷ by_id
  unfolding add_finding
  add_before f e by_id c = rw (c, add_finding) refl

  add_here :
      (f : OsvFinding F) (e : Text × OsvFinding F) (by_id : Entries)
      → text_cmp f.osv_id e.0 ≡ Ordering.eq
      → add_finding std f (e ∷ by_id) ≡ (e.0, merge std e.1 f) ∷ by_id
  unfolding add_finding
  add_here f e by_id c = rw (c, add_finding) refl

  add_behind :
      (f : OsvFinding F) (e : Text × OsvFinding F) (by_id : Entries)
      → text_cmp f.osv_id e.0 ≡ Ordering.gt
      → add_finding std f (e ∷ by_id) ≡ e ∷ add_finding std f by_id
  unfolding add_finding
  add_behind f e by_id c = rw (c, add_finding) refl

  IsMap-add_finding :
      (f : OsvFinding F) (by_id : Entries) → IsMap by_id → IsMap (add_finding std f by_id)
  unfolding add_finding merge
  IsMap-add_finding f [] h = (refl, tt, tt)
  IsMap-add_finding f (e ∷ by_id) (k, a, h) = elim (Ordering-cases (text_cmp f.osv_id e.0)) [
    | inl c ↦
        subst IsMap (sym (add_before f e by_id c))
          (refl, (c, Above-trans f.osv_id e.0 by_id c a), (k, a, h))
    | inr (inl c) ↦ subst IsMap (sym (add_here f e by_id c)) (k, a, h)
    | inr (inr c) ↦ subst IsMap (sym (add_behind f e by_id c)) (
      k,
      Above-add_finding e.0 f by_id (text_cmp_gt f.osv_id e.0 c) a,
      IsMap-add_finding f by_id h,
    )
  ]

  abbrev at : Text → Entries → Option (OsvFinding F)
  at id [] = none
  at id (e ∷ by_id) = if text_eq e.0 id then some e.1 else at id by_id

  at-Above : (id : Text) (by_id : Entries) → Above id by_id → at id by_id ≡ none
  at-Above id [] h = refl
  at-Above id (e ∷ by_id) (k, h) = rw (text_eq-lt id e.0 k) (at-Above id by_id h)

  abbrev merged : Option (OsvFinding F) → OsvFinding F → OsvFinding F
  merged none f = merge std f f
  merged (some entry) f = merge std entry f

  at-add_finding :
      (f : OsvFinding F) (id : Text) (by_id : Entries)
      → IsMap by_id
      → at id (add_finding std f by_id)
        ≡ (if text_eq f.osv_id id then some (merged (at id by_id) f) else at id by_id)
  unfolding add_finding
  at-add_finding f id [] h = refl
  at-add_finding f id (e ∷ by_id) (k, a, h) = elim (Ordering-cases (text_cmp f.osv_id e.0)) [
    | inl c ↦ elim (Bool-cases (text_eq f.osv_id id)) [
      | inl t ↦
          let same = (text_eq_iff f.osv_id id).0 t in
          let fresh : at id (e ∷ by_id) ≡ none =
            at-Above id (e ∷ by_id)
              (subst (λ i. Above i (e ∷ by_id)) same (c, Above-trans f.osv_id e.0 by_id c a)) in
          rw (add_before f e by_id c, t) (ap (λ o. some (merged o f)) (sym fresh))
      | inr t ↦ rw (add_before f e by_id c, t) refl
    ]
    | inr (inl c) ↦
        let same = text_cmp_eq f.osv_id e.0 c in rw (add_here f e by_id c) (ground arith)
    | inr (inr c) ↦ rw (add_behind f e by_id c) (
        ground (
          arith,
          at-add_finding f id by_id h,
          text_eq_iff f.osv_id id,
          text_eq_iff e.0 id,
          text_cmp_refl f.osv_id,
        ))
  ]

  IsMap-add_findings :
      (findings : List (OsvFinding F)) (by_id : Entries)
      → IsMap by_id
      → IsMap (add_findings std findings by_id)
  unfolding add_findings
  IsMap-add_findings [] by_id h = h
  IsMap-add_findings (f ∷ findings) by_id h =
      IsMap-add_findings findings (add_finding std f by_id) (IsMap-add_finding f by_id h)

  -- The findings merged one after the other onto what is there.
  abbrev pub merge_onto : Option (OsvFinding F) → List (OsvFinding F) → Option (OsvFinding F)
  merge_onto entry [] = entry
  merge_onto entry (f ∷ findings) = merge_onto (some (merged entry f)) findings

  abbrev pub has_id : Text → OsvFinding F → Bool
  has_id id f = text_eq f.osv_id id

  at-add_findings :
      (id : Text) (findings : List (OsvFinding F)) (by_id : Entries)
      → IsMap by_id
      → at id (add_findings std findings by_id)
        ≡ merge_onto (at id by_id) (filter (has_id id) findings)
  unfolding add_findings
  at-add_findings id [] by_id h = refl
  at-add_findings id (f ∷ findings) by_id h = elim (Bool-cases (has_id id f)) [
    | inl e ↦
        at-add_findings id findings (add_finding std f by_id) (IsMap-add_finding f by_id h)
        ∙ rw (at-add_finding f id by_id h, e) refl
    | inr e ↦
        at-add_findings id findings (add_finding std f by_id) (IsMap-add_finding f by_id h)
        ∙ rw (at-add_finding f id by_id h, e) refl
  ]

  -- Ids that ascend strictly, so that no id is there twice.
  abbrev pub Ascending : List (OsvFinding F) → Type 0
  Ascending [] = Unit
  Ascending (f ∷ findings) =
      All (λ g. text_cmp f.osv_id g.osv_id ≡ Ordering.lt) findings × Ascending findings

  abbrev values : Entries → List (OsvFinding F)
  values = map (λ e. e.1)

  values-Above :
      (i : Text) (by_id : Entries)
      → Above i by_id
      → IsMap by_id
      → All (λ g. text_cmp i g.osv_id ≡ Ordering.lt) (values by_id)
  values-Above i [] a h = tt
  values-Above i (e ∷ by_id) (k, a) (same, b, h) =
      (subst (λ j. text_cmp i j ≡ Ordering.lt) (sym same) k, values-Above i by_id a h)

  values-Ascending : (by_id : Entries) → IsMap by_id → Ascending (values by_id)
  values-Ascending [] h = tt
  values-Ascending (e ∷ by_id) (same, a, h) = (
    subst (λ i. All (λ g. text_cmp i g.osv_id ≡ Ordering.lt) (values by_id)) (sym same)
        (values-Above e.0 by_id a h),
    values-Ascending by_id h,
  )

  find-values :
      (id : Text) (by_id : Entries) → IsMap by_id → find (has_id id) (values by_id) ≡ at id by_id
  find-values id [] h = refl
  find-values id (e ∷ by_id) (same, a, h) =
      ap (λ i. if text_eq i id then some e.1 else find (has_id id) (values by_id)) same
      ∙ ap (λ o. if text_eq e.0 id then some e.1 else o) (find-values id by_id h)

  -- The consolidated findings ascend by id, and the one of an id is all the findings of that id, merged
  -- in their order; there is none where there are none.
  pub consolidate_local_findings-merge :
      (findings : List (OsvFinding F))
      → Ascending (consolidate_local_findings std findings)
        × ((id : Text)
            → find (has_id id) (consolidate_local_findings std findings)
              ≡ merge_onto none (filter (has_id id) findings))
  unfolding consolidate_local_findings
  consolidate_local_findings-merge findings =
      let h = IsMap-add_findings findings [] tt in
      (
        values-Ascending (add_findings std findings []) h,
        λ id. find-values id (add_findings std findings []) h ∙ at-add_findings id findings [] tt,
      )
