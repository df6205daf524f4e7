-- ===== src/Osv/RangeLaws.antt =====
-- Which versions `evaluate_range_events` of src/malicious.rs finds in a range, against a description
-- without a running flag.
use osv_proxy.Common.{
  ◌≡◌, ◌↔◌, ◌⊎◌, refl, ◌∙◌, ap, Bool, true, false, not, ◌||◌, Ordering, List, [], ◌∷◌, ◌++◌, arith,
  inl, inr, Bool-cases, Text, codes, text_eq, if◌then◌else◌, In,
}
use osv_proxy.Artifact.{Artifact}
use osv_proxy.Osv.{
  Evaluated, ok, RangeEvent, is_less, is_greater, apply_event, apply_events, evaluate_range_events,
}

-- `order` is what the comparison returns on the boundaries that it accepts.
module _ (artifact : Artifact) (compare_boundary : Text → Evaluated Ordering)
    (order : Text → Ordering) where
  abbrev Compares : RangeEvent → Type 0
  Compares e = compare_boundary e.version ≡ ok (order e.version)

  -- An event of a kind that OSV defines, at a boundary that is a version, or at the start of all.
  pub data IsKnown (e : RangeEvent) : Type 0 where
    from_start : e.event_type ≡ codes "introduced" → e.version ≡ codes "0" → IsKnown e
    introduced : e.event_type ≡ codes "introduced" → Compares e → IsKnown e
    fixed : e.event_type ≡ codes "fixed" → Compares e → IsKnown e
    limited : e.event_type ≡ codes "limit" → Compares e → IsKnown e
    last_affected : e.event_type ≡ codes "last_affected" → Compares e → IsKnown e

  abbrev is_fix : RangeEvent → Bool
  is_fix e = text_eq e.event_type (codes "fixed") || text_eq e.event_type (codes "limit")

  -- The version has reached the introduction, and the fix or the end of the range.
  abbrev pub opens : RangeEvent → Bool
  opens e =
      if text_eq e.event_type (codes "introduced")
      then (if text_eq e.version (codes "0") then true else not (is_less (order e.version)))
      else false

  abbrev pub closes : RangeEvent → Bool
  closes e =
      if text_eq e.event_type (codes "introduced")
      then false
      else if is_fix e
      then not (is_less (order e.version))
      else is_greater (order e.version)

  abbrev pub NeverCloses : List RangeEvent → Type 0
  NeverCloses events = (x : RangeEvent) → In x events → closes x ≡ false

  -- An event is open after the last one that closes.
  abbrev pub IsOpen : List RangeEvent → Type 0
  IsOpen events =
      (a : List RangeEvent) × (e : RangeEvent) × (b : List RangeEvent) × (events ≡ a ++ e ∷ b)
      × (opens e ≡ true)
      × NeverCloses b

  abbrev after : RangeEvent → Bool → Bool
  after e affected = if opens e then true else if closes e then false else affected

  apply_event-after :
      (e : RangeEvent) (affected : Bool)
      → IsKnown e
      → apply_event artifact compare_boundary e affected ≡ ok (after e affected)
  unfolding apply_event text_eq
  apply_event-after e false (from_start k z) = rw (k, z) refl
  apply_event-after e true (from_start k z) = rw (k, z) refl
  apply_event-after e false (introduced k h) = rw k (ground (arith, h))
  apply_event-after e true (introduced k h) = rw k (ground (arith, h))
  apply_event-after e false (fixed k h) = rw k (ground (arith, h))
  apply_event-after e true (fixed k h) = rw k (ground (arith, h))
  apply_event-after e false (limited k h) = rw k (ground (arith, h))
  apply_event-after e true (limited k h) = rw k (ground (arith, h))
  apply_event-after e false (last_affected k h) = rw k (ground (arith, h))
  apply_event-after e true (last_affected k h) = rw k (ground (arith, h))

  abbrev final : List RangeEvent → Bool → Bool
  final [] affected = affected
  final (e ∷ events) affected = final events (after e affected)

  abbrev pub AreKnown : List RangeEvent → Type 0
  AreKnown [] = Unit
  AreKnown (e ∷ events) = IsKnown e × AreKnown events

  apply_events-final :
      (events : List RangeEvent) (affected : Bool)
      → AreKnown events
      → apply_events artifact compare_boundary events affected ≡ ok (final events affected)
  unfolding apply_events
  apply_events-final [] affected k = refl
  apply_events-final (e ∷ events) affected (k, ks) =
      rw (apply_event-after e affected k) (apply_events-final events (after e affected) ks)

  final-stays : (events : List RangeEvent) → NeverCloses events → final events true ≡ true
  final-stays [] n = refl
  final-stays (e ∷ events) n =
      let kept : after e true ≡ true = ground (arith, n e (inl refl)) in
      rw kept (final-stays events (λ x i. n x (inr i)))

  final-opens :
      (a : List RangeEvent) (e : RangeEvent) (b : List RangeEvent) (affected : Bool)
      → opens e ≡ true
      → NeverCloses b
      → final (a ++ e ∷ b) affected ≡ true
  final-opens [] e b affected o n =
      let open_now : after e affected ≡ true = rw o refl in ap (final b) open_now ∙ final-stays b n
  final-opens (x ∷ a) e b affected o n = final-opens a e b (after x affected) o n

  -- After an event that leaves the range open.
  kept_by :
      (e : RangeEvent) (events : List RangeEvent) (affected : Bool)
      → after e affected ≡ true
      → NeverCloses events
      → IsOpen (e ∷ events) ⊎ ((affected ≡ true) × NeverCloses (e ∷ events))
  kept_by e events affected h n = elim (Bool-cases (opens e)) [
    | inl o ↦ inl ([], e, events, refl, o, n)
    | inr o ↦ elim (Bool-cases (closes e)) [
      | inl c ↦ absurd (ground (arith, o, c))
      | inr c ↦ inr (ground (arith, o, c), (λ x i. elim i [ inl q ↦ rw q c | inr j ↦ n x j ]))
    ]
  ]

  final-IsOpen :
      (events : List RangeEvent) (affected : Bool)
      → final events affected ≡ true
      → IsOpen events ⊎ ((affected ≡ true) × NeverCloses events)
  final-IsOpen [] affected h = inr (h, (λ x i. elim i [ ]))
  final-IsOpen (e ∷ events) affected h = elim (final-IsOpen events (after e affected) h) [
    | inl (a, x, b, q, o, n) ↦ inl (e ∷ a, x, b, ap (λ l. e ∷ l) q, o, n)
    | inr (k, n) ↦ kept_by e events affected k n
  ]

  -- Over events of the kinds that OSV defines, where each boundary is a version that compares, or is
  -- the 0 of an introduction, the evaluation returns a verdict, and it is that the version is affected exactly when the version has reached
  -- an introduction after which no event closes the range: no fix or limit that the version has
  -- reached, and no last affected version that it is beyond.
  pub evaluate_range_events_iff :
      (events : List RangeEvent)
      → AreKnown events
      → (affected : Bool) × (evaluate_range_events artifact compare_boundary events ≡ ok affected)
        × ((affected ≡ true) ↔ IsOpen events)
  unfolding evaluate_range_events
  evaluate_range_events_iff events k = (
    final events false,
    apply_events-final events false k,
    (
      (λ h. elim (final-IsOpen events false h) [
        | inl o ↦ o
        | inr (c, n) ↦ absurd (ground (arith, c))
      ]),
      (λ (a, e, b, q, o, n). rw q (final-opens a e b false o n)),
    ),
  )
