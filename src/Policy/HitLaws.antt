-- ===== src/Policy/HitLaws.antt =====
-- What the searches of `blocking_malicious_hit`, `blocking_vulnerability_hit` and the unevaluated
-- finding find, and when they find nothing.
use osv_proxy.Common.{
  ◌≡◌, ◌≢◌, Bool, true, false, not, none, some, List, [], Ordering, arith, In, filter, min_by,
  min_by-In, min_by-none, min_by-le, IsPreorder, In-filter, Bool-cases, is_some, inl, inr,
  text_cmp-IsPreorder,
}
use osv_proxy.Platform.{Platform}
use osv_proxy.Config.{Config}
use osv_proxy.Finding.{OsvFinding}
use osv_proxy.Policy.Hits.{
  is_malicious_id, by_id, blocking_malicious_hit, unevaluated_hit, by_score, meets_threshold,
  blocking_vulnerability_hit,
}

-- A search through a filtered list misses exactly what fails the filter.
filter_miss :
    {A : Type 0} (cmp : A → A → Ordering) (p : A → Bool) (xs : List A)
    → min_by cmp (filter p xs) ≡ none
    → (a : A) → In a xs
    → p a ≡ true
    → ⊥
filter_miss cmp p xs h a i e =
    let member : In a (filter p xs) = (In-filter p xs a).1 (i, e) in
    rw (min_by-none cmp (filter p xs) h) at member

filter_hit :
    {A : Type 0} (cmp : A → A → Ordering) (p : A → Bool) (xs : List A) {m : A}
    → min_by cmp (filter p xs) ≡ some m
    → In m xs × (p m ≡ true)
filter_hit cmp p xs h = (In-filter p xs _).0 (min_by-In cmp (filter p xs) h)

filter_least :
    {A : Type 0} (cmp : A → A → Ordering) (p : A → Bool) (xs : List A)
    → IsPreorder cmp
    → {m : A} → min_by cmp (filter p xs) ≡ some m
    → (a : A) → In a xs
    → p a ≡ true
    → cmp m a ≢ Ordering.gt
filter_least cmp p xs o h a i e = min_by-le cmp o (filter p xs) a h ((In-filter p xs a).1 (i, e))

pub by_id-IsPreorder : {F : Type 0} → IsPreorder (by_id {F = F})
by_id-IsPreorder = record {
  not_gt_self = λ a. text_cmp-IsPreorder.not_gt_self a.osv_id;
  total = λ a b. text_cmp-IsPreorder.total a.osv_id b.osv_id;
  trans = λ a b c. text_cmp-IsPreorder.trans a.osv_id b.osv_id c.osv_id;
}

module _ {F : Type 0} (config : Config F) (hits : List (OsvFinding F)) where
  pub malicious_miss :
      (h : OsvFinding F)
      → blocking_malicious_hit config hits ≡ none
      → config.policy.osv.block_malicious ≡ true
      → In h hits
      → is_malicious_id h ≡ true
      → ⊥
  unfolding blocking_malicious_hit
  malicious_miss h e b i m = filter_miss by_id is_malicious_id hits (rw b at e) h i m

  pub malicious_found :
      {m : OsvFinding F}
      → blocking_malicious_hit config hits ≡ some m
      → (config.policy.osv.block_malicious ≡ true) × In m hits × (is_malicious_id m ≡ true)
  unfolding blocking_malicious_hit
  malicious_found e = elim (Bool-cases config.policy.osv.block_malicious) [
    | inl b ↦ let (i, p) = filter_hit by_id is_malicious_id hits (rw b at e) in (b, i, p)
    | inr b ↦ absurd (ground (arith, b))
  ]

  pub malicious_least :
      {m : OsvFinding F}
      → blocking_malicious_hit config hits ≡ some m
      → (h : OsvFinding F) → In h hits
      → is_malicious_id h ≡ true
      → by_id m h ≢ Ordering.gt
  unfolding blocking_malicious_hit
  malicious_least e h i p =
      let b = (malicious_found e).0 in
      filter_least by_id is_malicious_id hits by_id-IsPreorder (rw b at e) h i p

  pub unevaluated_miss :
      (h : OsvFinding F)
      → unevaluated_hit hits ≡ none
      → In h hits
      → is_some h.evaluation_error ≡ true
      → ⊥
  unfolding unevaluated_hit
  unevaluated_miss h e i p = filter_miss by_id (λ a. is_some a.evaluation_error) hits e h i p

  pub unevaluated_found :
      {m : OsvFinding F}
      → unevaluated_hit hits ≡ some m
      → In m hits × (is_some m.evaluation_error ≡ true)
  unfolding unevaluated_hit
  unevaluated_found e = filter_hit by_id (λ a. is_some a.evaluation_error) hits e

module _ {F : Type 0} (std : Platform F) (config : Config F) where
  -- The three filters of `blocking_vulnerability_hit`.
  pub record IsCandidate (h : OsvFinding F) : Type 0 where
    pub other_id : is_malicious_id h ≡ false
    pub evaluated : is_some h.evaluation_error ≡ false
    pub scored : meets_threshold std config.policy.osv.minimum_cvss_score h ≡ true

module _ {F : Type 0} (std : Platform F) (config : Config F) (hits : List (OsvFinding F)) where
  abbrev evaluates : OsvFinding F → Bool
  evaluates h = not (is_some h.evaluation_error)

  abbrev others : List (OsvFinding F)
  others = filter (λ h. not (is_malicious_id h)) hits

  abbrev candidates : List (OsvFinding F)
  candidates =
      filter (meets_threshold std config.policy.osv.minimum_cvss_score) (filter evaluates others)

  In-candidates : (h : OsvFinding F) → In h hits → IsCandidate std config h → In h candidates
  In-candidates h i c =
      let here : In h others = (In-filter _ hits h).1 (i, rw c.other_id) in
      let there : In h (filter evaluates others) =
        (In-filter _ others h).1 (here, rw c.evaluated) in
      (In-filter _ (filter evaluates others) h).1 (there, c.scored)

  IsCandidate-of_In : (h : OsvFinding F) → In h candidates → In h hits × IsCandidate std config h
  IsCandidate-of_In h i =
      let (i₁, scored) = (In-filter _ (filter evaluates others) h).0 i in
      let (i₂, evaluated) = (In-filter evaluates others h).0 i₁ in
      let (i₃, other) = (In-filter _ hits h).0 i₂ in
      (
        i₃,
        record {
          other_id = ground (arith, other);
          evaluated = ground (arith, evaluated);
          scored = scored;
        },
      )

  pub vulnerability_miss :
      (h : OsvFinding F)
      → blocking_vulnerability_hit std config hits ≡ none
      → config.policy.osv.block_vulnerabilities ≡ true
      → In h hits
      → IsCandidate std config h
      → ⊥
  unfolding blocking_vulnerability_hit
  vulnerability_miss h e b i c =
      let empty : candidates ≡ [] = min_by-none (by_score std) candidates (rw b at e) in
      rw empty at (In-candidates h i c)

  pub vulnerability_found :
      {m : OsvFinding F}
      → blocking_vulnerability_hit std config hits ≡ some m
      → (config.policy.osv.block_vulnerabilities ≡ true) × In m hits × IsCandidate std config m
  unfolding blocking_vulnerability_hit
  vulnerability_found {m} e = elim (Bool-cases config.policy.osv.block_vulnerabilities) [
    | inl b ↦
        let (i, c) = IsCandidate-of_In m (min_by-In (by_score std) candidates (rw b at e)) in
        (b, i, c)
    | inr b ↦ absurd (ground (arith, b))
  ]
