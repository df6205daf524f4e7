-- ===== src/Platform.antt =====
-- What the program takes from outside its own sources in the modules that this library models:
-- `f64` (over the carrier `F`), the Unicode tables, chrono's times and the printing of these.
-- A `Duration` is a number of nanoseconds; a `DateTime<Utc>` is a number of nanoseconds since the
-- earliest time that chrono represents.
use osv_proxy.Common.{
  ℕ, Bool, true, false, Option, none, some, Ordering, Text, ◌+◌, leb, if◌then◌else◌,
}

pub record Platform (F : Type 0) : Type 0 where
  -- `char::to_lowercase`.
  pub lowercase : ℕ → Text
  -- `f64::partial_cmp`, `0.0`, `10.0`, `f64::is_finite` and `format!("{:.1}")`.
  pub partial_cmp : F → F → Option Ordering
  pub zero_score : F
  pub ten_score : F
  pub is_finite : F → Bool
  pub show_score : F → Text
  -- `DateTime<Utc>`'s last time and its `Display`, and the longest `chrono::Duration`.
  pub max_time : ℕ
  pub show_time : ℕ → Text
  pub max_delta : ℕ

module _ {F : Type 0} (std : Platform F) where
  -- `a >= b` and `a == b` on `f64`.
  abbrev pub score_ge : F → F → Bool
  score_ge a b = elim (std.partial_cmp a b) [
    | none ↦ false
    | some o ↦ elim o [ Ordering.lt ↦ false | Ordering.eq ↦ true | Ordering.gt ↦ true ]
  ]

  abbrev pub score_eq : F → F → Bool
  score_eq a b = elim (std.partial_cmp a b) [
    | none ↦ false
    | some o ↦ elim o [ Ordering.lt ↦ false | Ordering.eq ↦ true | Ordering.gt ↦ false ]
  ]

  -- `ChronoDuration::from_std`.
  abbrev pub delta_from_std : ℕ → Option ℕ
  delta_from_std d = if leb d std.max_delta then some d else none

  -- `DateTime<Utc> + ChronoDuration`; `none` is the panic on a time that chrono does not represent.
  abbrev pub time_add : ℕ → ℕ → Option ℕ
  time_add t d = if leb (t + d) std.max_time then some (t + d) else none
