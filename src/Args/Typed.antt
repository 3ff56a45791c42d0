-- ===== src/Args/Typed.antt =====
-- `has<T>` and `value<T>` agree.
use reckoning.Common.{
  Bool, true, false, Option, none, some, ◌≡◌, ◌⊎◌, inl, inr, refl, arith, Bytes, Option-cases,
}
use reckoning.Common.Maps.{lookup}
use reckoning.Args.{
  ℤ, Any, bool, int64, double, string, Args, Ask, as_bool, as_int32, as_int64, as_float, as_double,
  as_string, has_type, has_as, value_type, value,
}

module _ {D : Type 0} (to_float : D → D) (float_of_int double_of_int : ℤ → D) where
  abbrev typed : Ask → Any D → Option (Any D)
  typed = value_type to_float float_of_int double_of_int

  abbrev Agrees : Bool → Option (Any D) → Type 0
  Agrees h o = ((h ≡ true) × ((v : Any D) × (o ≡ some v))) ⊎ ((h ≡ false) × (o ≡ none))

  has_type-Agrees : (t : Ask) (v : Any D) → Agrees (has_type t v) (typed t v)
  unfolding has_type value_type
  has_type-Agrees as_bool (bool b) = inl (refl, (_, refl))
  has_type-Agrees as_int64 (int64 n) = inl (refl, (_, refl))
  has_type-Agrees as_double (double d) = inl (refl, (_, refl))
  has_type-Agrees as_string (string s) = inl (refl, (_, refl))
  has_type-Agrees as_int32 (int64 n) = inl (refl, (_, refl))
  has_type-Agrees as_float (int64 n) = inl (refl, (_, refl))
  has_type-Agrees as_double (int64 n) = inl (refl, (_, refl))
  has_type-Agrees as_float (double d) = inl (refl, (_, refl))
  has_type-Agrees _ _ = inr (refl, refl)

  -- If `has<T>(key)` holds, `value<T>(key)` is a value stored under the key, whatever the
  -- default; if it does not hold, `value<T>(key)` is the default.
  pub has_as-value :
      (t : Ask) (key : Bytes) (args : Args D)
      → ((has_as t key args ≡ true)
          × ((stored v : Any D) × (lookup key args.values ≡ some stored)
              × (typed t stored ≡ some v)
              × ((default : Any D)
                  → value to_float float_of_int double_of_int t key default args ≡ v)))
        ⊎ ((has_as t key args ≡ false)
            × ((default : Any D)
                → value to_float float_of_int double_of_int t key default args ≡ default))
  unfolding has_as value
  has_as-value t key args = elim (Option-cases (lookup key args.values)) [
    | inl missing ↦ inr (ground arith, λ default. ground arith)
    | inr (s, found) ↦ elim (has_type-Agrees t s) [
      | inl (h, (v, e)) ↦ inl (ground arith, (s, v, found, e, λ default. ground arith))
      | inr (h, e) ↦ inr (ground arith, λ default. ground arith)
    ]
  ]
