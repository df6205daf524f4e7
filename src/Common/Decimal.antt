-- ===== src/Common/Decimal.antt =====
-- Decimal numbers of 64 bits: `str::parse::<u64>` on texts of digits, and `u64::to_string`.
use Prim.Native.Nat.{ℕ, zero, suc, ◌+◌, ◌-◌, ◌*◌, ◌/◌, ◌%◌}
use mathlib.Core.Bool.{◌&&◌, not}
use mathlib.Core.Option.{Option, none, some}
use mathlib.Core.List.{[], ◌∷◌, ◌++◌}
use osv_proxy.Common.Tests.{ltb, if◌then◌else◌}
use osv_proxy.Common.Lists.{all}
use osv_proxy.Common.Chars.{Text, is_ascii_digit, is_empty}

abbrev pub u64_mod : ℕ
u64_mod = 18446744073709551616

-- The number that a text of digits stands for, after the digits that `acc` has read.
unfoldable pub digits_value : ℕ → Text → ℕ
digits_value acc [] = acc
digits_value acc (c ∷ s) = digits_value (acc * 10 + (c - 48)) s

-- `parse::<u64>` where the text is not empty and all its bytes are digits; `none` on overflow too.
unfoldable pub parse_u64_digits : Text → Option ℕ
parse_u64_digits s =
    if not (is_empty s) && all is_ascii_digit s
    then (if ltb (digits_value 0 s) u64_mod then some (digits_value 0 s) else none)
    else none

-- A number of 64 bits has at most twenty digits.
unfoldable pub show_digits : ℕ → ℕ → Text
show_digits zero n = []
show_digits (suc f) n =
    let longer = show_digits f (n / 10) ++ (n % 10 + 48) ∷ [] in
    if ltb n 10 then (n + 48) ∷ [] else longer

-- `u64::to_string`.
unfoldable pub show_u64 : ℕ → Text
unfolding show_digits
show_u64 n = show_digits 20 n
