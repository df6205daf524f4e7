-- ===== src/Policy/Gates.antt =====
-- What the gates of the policy engine of src/policy.rs let through, against a description of the
-- policy that does not speak of searches, their order or early returns.
use osv_proxy.Common.{
  ℕ, ◌+◌, ◌≤◌, ◌≡◌, ◌↔◌, ◌⊎◌, true, false, Option, none, some, List, arith, In, Bool-cases,
  Option-cases, is_some, is_some_and, inl, inr, find, find-none, find-some, codes, text_eq_iff,
}
use osv_proxy.Platform.{Platform}
use osv_proxy.Artifact.{Artifact}
use osv_proxy.Artifact.Equality.{ecosystem_eq→≡, ecosystem_eq_refl, any-text_eq_iff}
use osv_proxy.Config.{Config, BlocklistEntry, OsvErrorBehavior, MissingPublishTime, blocklist_name}
use osv_proxy.Finding.{OsvFinding}
use osv_proxy.Policy.Decisions.{Decision, Scope, blocked_decision}
use osv_proxy.Policy.Hits.{
  is_malicious_id, blocking_malicious_hit, blocking_vulnerability_hit, unevaluated_hit,
}
use osv_proxy.Policy.HitLaws.{
  IsCandidate, malicious_miss, malicious_found, vulnerability_miss, vulnerability_found,
  unevaluated_miss, unevaluated_found,
}
use osv_proxy.Policy.{
  Checked, found, failed, should_check_osv, find_allowlist_entry, find_blocklist_entry, forbids,
  hits_gate, osv_gate, blocklist_gate,
}

module _ {F : Type 0} (std : Platform F) (config : Config F) where
  -- A finding that blocks under this configuration.
  pub data BlocksHit (h : OsvFinding F) : Type 0 where
    as_malicious : config.policy.osv.block_malicious ≡ true → is_malicious_id h ≡ true → BlocksHit h
    as_vulnerable :
        config.policy.osv.block_vulnerabilities ≡ true → IsCandidate std config h → BlocksHit h
    as_unevaluated :
        config.policy.osv.on_error ≡ OsvErrorBehavior.block
        → is_some h.evaluation_error ≡ true
        → BlocksHit h

  module _ (artifact : Artifact) (hits : List (OsvFinding F)) where
    not_blocked :
        hits_gate std config artifact hits ≡ none → (h : OsvFinding F) → In h hits → ¬ BlocksHit h
    unfolding hits_gate
    not_blocked e h i (as_malicious b m) = malicious_miss config hits h (ground arith) b i m
    not_blocked e h i (as_vulnerable b c) =
        vulnerability_miss std config hits h (ground arith) b i c
    not_blocked e h i (as_unevaluated b c) = unevaluated_miss config hits h (ground arith) i c

    gate_clear :
        ((h : OsvFinding F) → In h hits → ¬ BlocksHit h) → hits_gate std config artifact hits ≡ none
    unfolding hits_gate
    gate_clear clear = elim (Option-cases (blocking_malicious_hit config hits)) [
      | inr (m, e) ↦
          let (b, i, p) = malicious_found config hits e in absurd (clear m i (as_malicious b p))
      | inl e₁ ↦ elim (Option-cases (blocking_vulnerability_hit std config hits)) [
        | inr (m, e) ↦
            let (b, i, c) = vulnerability_found std config hits e in
            absurd (clear m i (as_vulnerable b c))
        | inl e₂ ↦ elim (Option-cases (unevaluated_hit hits)) [
          | inr (m, e) ↦
              let (i, c) = unevaluated_found config hits e in
              ground (
                arith,
                λ (b : config.policy.osv.on_error ≡ OsvErrorBehavior.block).
                    clear m i (as_unevaluated b c),
              )
          | inl e₃ ↦ ground arith
        ]
      ]
    ]

    -- The gate of a successful check lets through exactly the lists with no finding that blocks.
    hits_gate-none_iff :
        (hits_gate std config artifact hits ≡ none)
        ↔ ((h : OsvFinding F) → In h hits → ¬ BlocksHit h)
    hits_gate-none_iff = (not_blocked, gate_clear)

  -- A blocklist entry names an artifact: by its version, or all versions.
  pub record Names (e : BlocklistEntry) (artifact : Artifact) : Type 0 where
    pub same_ecosystem : e.ecosystem ≡ artifact.ecosystem
    pub same_name : blocklist_name std.lowercase e ≡ artifact.name
    pub version_listed : In (codes "*") e.versions ⊎ In artifact.version e.versions

  Names-of_forbids :
      (e : BlocklistEntry) (artifact : Artifact)
      → forbids std config artifact e ≡ true
      → Names e artifact
  Names-of_forbids e artifact h = ground (
    arith,
    ecosystem_eq→≡ e.ecosystem artifact.ecosystem,
    text_eq_iff (blocklist_name std.lowercase e) artifact.name,
    any-text_eq_iff e.versions (codes "*"),
    any-text_eq_iff e.versions artifact.version,
  )

  forbids_of_Names :
      (e : BlocklistEntry) (artifact : Artifact)
      → Names e artifact
      → forbids std config artifact e ≡ true
  forbids_of_Names e artifact n = ground (
    arith,
    ecosystem_eq_refl e.ecosystem,
    text_eq_iff (blocklist_name std.lowercase e) artifact.name,
    any-text_eq_iff e.versions (codes "*"),
    any-text_eq_iff e.versions artifact.version,
  )

  -- A check whose outcome does not block: it found nothing that blocks, or failed where the
  -- configuration lets failures pass.
  abbrev pub OsvClear : Option (Checked F) → Type 0
  OsvClear (some (found hits)) = (h : OsvFinding F) → In h hits → ¬ BlocksHit h
  OsvClear (some (failed e)) = config.policy.osv.on_error ≡ OsvErrorBehavior.allow
  OsvClear none = config.policy.osv.on_error ≡ OsvErrorBehavior.allow

  abbrev pub IsOldEnough : Option ℕ → ℕ → Type 0
  IsOldEnough (some published_at) now = published_at + config.policy.minimum_age ≤ now
  IsOldEnough none now = config.policy.missing_publish_time ≡ MissingPublishTime.allow

  abbrev pub BypassesAge : Artifact → Type 0
  BypassesAge artifact =
      is_some_and (find_allowlist_entry std config artifact) (λ entry. entry.bypass_age_gate) ≡ true

  -- The policy: the OSV check is clear where it applies, no blocklist entry names the artifact, and
  -- it is old enough or an allowlist entry lifts the age gate.
  pub record Admits (artifact : Artifact) (now : ℕ) (result : Option (Checked F)) : Type 0 where
    pub osv_clear : should_check_osv std config artifact ≡ true → OsvClear result
    pub unlisted : (e : BlocklistEntry) → In e config.blocklist → ¬ Names e artifact
    pub aged : BypassesAge artifact ⊎ IsOldEnough artifact.published_at now

  module _ (artifact : Artifact) where
    pub hits_gate-blocks :
        (hits : List (OsvFinding F)) (d : Decision F)
        → hits_gate std config artifact hits ≡ some d
        → d.allowed ≡ false
    unfolding hits_gate blocked_decision
    hits_gate-blocks hits d e = ground arith

    pub osv_gate-blocks :
        (r : Option (Checked F)) (scope : Scope) (d : Decision F)
        → (osv_gate std config artifact r scope).0 ≡ some d
        → d.allowed ≡ false
    unfolding osv_gate blocked_decision
    osv_gate-blocks (some (found hits)) scope d e = ground (arith, hits_gate-blocks hits d)
    osv_gate-blocks (some (failed m)) scope d e = ground arith
    osv_gate-blocks none scope d e = ground arith

    pub clear_of_gate :
        (r : Option (Checked F)) (scope : Scope)
        → (osv_gate std config artifact r scope).0 ≡ none
        → should_check_osv std config artifact ≡ true
        → OsvClear r
    unfolding osv_gate
    clear_of_gate (some (found hits)) scope e c = not_blocked artifact hits (ground arith)
    clear_of_gate (some (failed m)) scope e c = ground arith
    clear_of_gate none scope e c = ground arith

    pub gate_of_clear :
        (r : Option (Checked F)) (scope : Scope)
        → (should_check_osv std config artifact ≡ true → OsvClear r)
        → (osv_gate std config artifact r scope).0 ≡ none
    unfolding osv_gate
    gate_of_clear r scope clear = elim (Bool-cases (should_check_osv std config artifact)) [
      | inl c ↦ checked r (clear c) c
      | inr c ↦ unchecked r c
    ]
      where
        checked :
            (r : Option (Checked F))
            → OsvClear r
            → should_check_osv std config artifact ≡ true
            → (osv_gate std config artifact r scope).0 ≡ none
        checked (some (found hits)) k c = rw c (gate_clear artifact hits k)
        checked (some (failed m)) k c = ground arith
        checked none k c = ground arith

        unchecked :
            (r : Option (Checked F))
            → should_check_osv std config artifact ≡ false
            → (osv_gate std config artifact r scope).0 ≡ none
        unchecked (some (found hits)) c = ground arith
        unchecked (some (failed m)) c = ground arith
        unchecked none c = ground arith

    pub blocklist_gate-blocks :
        (d : Decision F) → blocklist_gate std config artifact ≡ some d → d.allowed ≡ false
    unfolding blocklist_gate blocked_decision
    blocklist_gate-blocks d e = ground arith

    pub unlisted_of_gate :
        blocklist_gate std config artifact ≡ none
        → (e : BlocklistEntry) → In e config.blocklist
        → ¬ Names e artifact
    unfolding blocklist_gate find_blocklist_entry
    unlisted_of_gate h e i n =
        find-none (forbids std config artifact) config.blocklist e (ground arith) i
          (forbids_of_Names e artifact n)

    pub listed_of_gate :
        (d : Decision F)
        → blocklist_gate std config artifact ≡ some d
        → ¬ ((e : BlocklistEntry) → In e config.blocklist → ¬ Names e artifact)
    unfolding blocklist_gate find_blocklist_entry
    listed_of_gate d h unlisted =
        elim (Option-cases (find (forbids std config artifact) config.blocklist)) [
          | inl e ↦ ground arith
          | inr (entry, e) ↦
              let (i, p) = find-some (forbids std config artifact) config.blocklist entry e in
              unlisted entry i (Names-of_forbids entry artifact p)
        ]
