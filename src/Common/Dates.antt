-- ===== src/Common/Dates.antt =====
-- What the code uses of JavaScript's `Date` and `Number`, and of the texts that hold a date.
-- An instant is the count of milliseconds after the earliest time that a `Date` can hold, so that
-- a `Date` before that earliest time is a subtraction that does not go through.
-- Dates stored as ISO-8601 text are the instants that they stand for, and the text order of two
-- such columns is the order of the instants.
use Prim.Native.Nat.{ℕ, ◌+◌, ◌-◌}
use mathlib.Core.Bool.{Bool, false}
use mathlib.Core.Option.{Option, none, some}
use rewind_app.Common.Tests.{leb, if◌then◌else◌}
use rewind_app.Common.Results.{Result, ok, err}

-- `new Date(value).getTime()`; `none` is NaN.
abbrev pub DateValue : Type 0
DateValue = Option ℕ

-- A `Date` reaches 8.64e15 ms on either side of the epoch.
abbrev pub latest : ℕ
latest = 17_280_000_000_000_000

-- Instants are written by `toISOString`, which throws a RangeError outside of that range.
abbrev pub plus {ℓ} : {E : Type ℓ} → E → ℕ → ℕ → Result E ℕ
plus range_error t ms = if leb (t + ms) latest then ok (t + ms) else err range_error

abbrev pub minus {ℓ} : {E : Type ℓ} → E → ℕ → ℕ → Result E ℕ
minus range_error t ms = if leb ms t then ok (t - ms) else err range_error

-- `t <= u` for an instant that may be NaN: a comparison with NaN is false.
abbrev pub date_le : DateValue → ℕ → Bool
date_le none u = false
date_le (some t) u = leb t u

-- A JavaScript number where the code only accepts a whole number from 0 up; `other` is a negative,
-- fractional or infinite number, or NaN.
pub data Number : Type 0 where
  whole : ℕ → Number
  other : Number

abbrev pub max_safe_integer : ℕ
max_safe_integer = 9_007_199_254_740_991

-- `Number.isSafeInteger(x) && lo <= x && x <= hi`, with the number that it lets through.
abbrev pub safe_within : ℕ → ℕ → Number → Option ℕ
safe_within lo hi other = none
safe_within lo hi (whole n) =
    if leb n max_safe_integer
    then (if leb lo n then (if leb n hi then some n else none) else none)
    else none
