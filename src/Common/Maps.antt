-- ===== src/Common/Maps.antt =====
-- Byte strings as keys, and maps as association lists without a key twice.
use Prim.Native.Char.{code}
use Prim.Native.String.{String}
use mathlib.Core.Path.{◌≡◌, refl}
use mathlib.Core.Logic.{◌↔◌}
use mathlib.Core.Bool.{Bool, true, false, ◌&&◌}
use mathlib.Core.Option.{Option, none, some}
use mathlib.Core.List.{List, [], ◌∷◌}
use native.Mathlib.Omega.{arith}
use reckoning.Common.Tests.{◌==◌, if◌then◌else◌}
use reckoning.Common.Lists.{Bytes}

-- The bytes of an ASCII text.
abbrev pub codes : String → Bytes
codes String.[] = []
codes (String.◌∷◌ c s) = code c ∷ codes s

infix 50 ◌=bytes◌
unfoldable pub ◌=bytes◌ : Bytes → Bytes → Bool
[] =bytes [] = true
(x ∷ xs) =bytes (y ∷ ys) = x == y && xs =bytes ys
_ =bytes _ = false

pub =bytes_iff : (a b : Bytes) → ((a =bytes b) ≡ true) ↔ (a ≡ b)
unfolding ◌=bytes◌
=bytes_iff (x ∷ a) (y ∷ b) = ground (arith, =bytes_iff a b)
=bytes_iff _ _ = ground arith

module _ {ℓ} {V : Type ℓ} where
  unfoldable pub lookup : Bytes → List (Bytes × V) → Option V
  lookup k [] = none
  lookup k ((j, v) ∷ m) = if j =bytes k then some v else lookup k m

  unfoldable pub insert : Bytes → V → List (Bytes × V) → List (Bytes × V)
  insert k v [] = (k, v) ∷ []
  insert k v ((j, w) ∷ m) = if j =bytes k then (k, v) ∷ m else (j, w) ∷ insert k v m

  pub lookup-insert :
      (k j : Bytes) (v : V) (m : List (Bytes × V))
      → lookup j (insert k v m) ≡ (if k =bytes j then some v else lookup j m)
  unfolding lookup insert
  lookup-insert k j v [] = refl
  lookup-insert k j v ((i, w) ∷ m) =
      ground (arith, =bytes_iff k j, =bytes_iff i k, =bytes_iff i j, lookup-insert k j v m)
