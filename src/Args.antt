-- ===== src/Args.antt =====
-- include/args/Args.h: the values that the command line gave, by key, and the words without one.
-- A floating-point number is of a type that is an argument, as are the casts into it.
pub mod Number
pub mod Parser
pub mod Scan
pub mod Words
pub mod Grammar
pub mod Faults
pub mod Typed
mod Tests
use reckoning.Common.{
  ℕ, suc, ◌+◌, ◌-◌, ◌%◌, ◌^◌, Bool, true, false, Option, none, some, List, [], ◌∷◌, leb,
  if◌then◌else◌, Bytes, length, get_elem?,
}
use reckoning.Common.Maps.{lookup}
use mathlib.Core.Option

-- `negsuc n` is -(n + 1).
pub data ℤ : Type 0 where
  pos : ℕ → ℤ
  negsuc : ℕ → ℤ

-- A `std::any` as the parser makes it.
pub data Any (D : Type 0) : Type 0 where
  bool : Bool → Any D
  int64 : ℤ → Any D
  double : D → Any D
  string : Bytes → Any D

pub record Args (D : Type 0) : Type 0 where
  pub values : List (Bytes × Any D)
  pub freeform : List Bytes

abbrev pub no_args : {D : Type 0} → Args D
no_args = record { values = []; freeform = [] }

-- `has(key)`.
unfoldable pub has : {D : Type 0} → Bytes → Args D → Bool
unfolding lookup
has key args = elim (lookup key args.values) [ none ↦ false | some v ↦ true ]

-- The types that `has<T>` and `value<T>` are asked for.
pub data Ask : Type 0 where
  as_bool as_int32 as_int64 as_float as_double as_string : Ask

-- What `has<T>` answers of a value that is there.
unfoldable pub has_type : {D : Type 0} → Ask → Any D → Bool
has_type as_bool (bool b) = true
has_type as_int64 (int64 n) = true
has_type as_double (double d) = true
has_type as_string (string s) = true
has_type as_int32 (int64 n) = true
has_type as_float (int64 n) = true
has_type as_double (int64 n) = true
has_type as_float (double d) = true
has_type _ _ = false

unfoldable pub has_as : {D : Type 0} → Ask → Bytes → Args D → Bool
has_as t key args = elim (lookup key args.values) [ none ↦ false | some v ↦ has_type t v ]

-- static_cast<int32_t> of an int64_t: the low 32 bits, read as a signed number.
unfoldable pub to_int32 : ℤ → ℤ
to_int32 (pos n) =
    let low = n % 2 ^ 32 in if leb (2 ^ 31) low then negsuc (2 ^ 32 - low - 1) else pos low
to_int32 (negsuc n) =
    let low = n % 2 ^ 32 in if leb (2 ^ 31) low then pos (2 ^ 32 - low - 1) else negsuc low

module _ {D : Type 0} (to_float : D → D) (float_of_int double_of_int : ℤ → D) where
  -- `value<T>` of a value that is there; `none` where it returns the default. `to_float` narrows a
  -- double to a float, the other two convert an integer.
  unfoldable pub value_type : Ask → Any D → Option (Any D)
  unfolding to_int32
  value_type as_bool (bool b) = some (bool b)
  value_type as_int64 (int64 n) = some (int64 n)
  value_type as_string (string s) = some (string s)
  value_type as_int32 (int64 n) = some (int64 (to_int32 n))
  value_type as_double (double d) = some (double d)
  value_type as_float (double d) = some (double (to_float d))
  value_type as_double (int64 n) = some (double (double_of_int n))
  value_type as_float (int64 n) = some (double (float_of_int n))
  value_type _ _ = none

  unfoldable pub value : Ask → Bytes → Any D → Args D → Any D
  value t key default args = elim (lookup key args.values) [
    | none ↦ default
    | some v ↦ Option.get_or (value_type t v) default
  ]

-- `freeformSize()` and `freeformValue(idx)`.
unfoldable pub freeform_size : {D : Type 0} → Args D → ℕ
freeform_size args = length args.freeform

unfoldable pub freeform_value : {D : Type 0} → ℕ → Args D → Bytes
freeform_value idx args =
    if leb (length args.freeform) idx then [] else Option.get_or (get_elem? args.freeform idx) []
