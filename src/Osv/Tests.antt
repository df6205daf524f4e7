-- ===== src/Osv/Tests.antt =====
-- Runs of the ranges of src/malicious.rs, with the order of NuGet's versions.
use osv_proxy.Common.{
  ℕ, ◌≡◌, ◌↔◌, refl, Bool, true, Ordering, List, [], ◌∷◌, ltb, if◌then◌else◌, Text, codes, none,
  text_eq, digits_value,
}
use osv_proxy.Artifact.{Artifact, nuget}
use osv_proxy.Osv.{Evaluated, ok, err, RangeEvent, evaluate_range_events, apply_event, range_error}
use osv_proxy.Osv.Versions.{Messages, compare_nuget_version}
use osv_proxy.Osv.RangeLaws.{evaluate_range_events_iff, IsOpen, from_start, introduced, fixed}

abbrev artifact : Artifact
artifact = record {
  ecosystem = nuget;
  name = codes "Left.Pad";
  version = codes "4";
  filename = none;
  upstream_url = none;
  published_at = none;
  hashes = record { sha256 = none; sha512 = none; integrity = none };
}

abbrev messages : Messages
messages = record {
  artifact_error = λ e. codes "artifact";
  ruby_gems_error = λ e. codes "gem";
  maven_error = λ e. codes "maven";
  go_error = λ e. codes "go";
}

-- The order of NuGet's version 4, which fails on a boundary that is no version.
abbrev compare_boundary : Text → Evaluated Ordering
compare_boundary = compare_nuget_version messages artifact artifact.version

abbrev ordering_of : Evaluated Ordering → Ordering
ordering_of (ok o) = o
ordering_of (err e) = Ordering.eq

abbrev order : Text → Ordering
order b = ordering_of (compare_boundary b)

abbrev events : List RangeEvent
events =
    record { event_type = codes "introduced"; version = codes "0" }
    ∷ record { event_type = codes "fixed"; version = codes "3.0" }
    ∷ record { event_type = codes "introduced"; version = codes "4.0-beta" }
    ∷ []

above : compare_boundary (codes "3.0") ≡ ok Ordering.gt
unfolding compare_nuget_version digits_value osv_proxy.Common.join osv_proxy.Common.show_u64
above = refl

above_beta : compare_boundary (codes "4.0-beta") ≡ ok Ordering.gt
unfolding compare_nuget_version digits_value osv_proxy.Common.join osv_proxy.Common.show_u64
above_beta = refl

no_version :
    compare_boundary []
    ≡ err (range_error artifact (codes "invalid NuGet range boundary : artifact"))
unfolding compare_nuget_version range_error digits_value
no_version = refl

reintroduced : evaluate_range_events artifact compare_boundary events ≡ ok true
unfolding evaluate_range_events apply_event text_eq digits_value compare_nuget_version
    osv_proxy.Common.join osv_proxy.Common.show_u64
reintroduced = refl

ordered : (b : Text) (o : Ordering) → compare_boundary b ≡ ok o → compare_boundary b ≡ ok (order b)
ordered b o h = rw h refl

evaluate_range_events_iff_example :
    (affected : Bool) × (evaluate_range_events artifact compare_boundary events ≡ ok affected)
    × ((affected ≡ true) ↔ IsOpen artifact compare_boundary order events)
evaluate_range_events_iff_example =
    evaluate_range_events_iff artifact compare_boundary order events (
      from_start refl refl,
      (
        fixed refl (ordered (codes "3.0") Ordering.gt above),
        (introduced refl (ordered (codes "4.0-beta") Ordering.gt above_beta), tt),
      ),
    )
