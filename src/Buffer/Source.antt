-- ===== src/Buffer/Source.antt =====
-- What the other parts of the program rely on when they take a buffer from the thread's pool
-- `Pool<N, size>` (include/buffer/Pool.h), and that the pool keeps it in every state.
use reckoning.Common.{ℕ, List, [], ◌∷◌, ◌≡◌, zero, suc}
use reckoning.Buffer.{Buffer, max}
use reckoning.Buffer.Slots.{Slot, Got, pooled, created, buffer_of, get, take_ref, IsPool, get-max}

-- `get` in a state of the pool; the new state counts the caller's reference.
pub record BufferSource (size : ℕ) (S : Type 0) : Type 0 where
  pub get : S → ℕ → Buffer × S
  pub get_max : (s : S) (sz : ℕ) → max (get s sz).0 ≡ Prim.Native.Nat.max sz size

abbrev pub PoolState : ℕ → Type 0
PoolState size = (slots : List Slot) × IsPool size slots

pub take_ref-IsPool :
    (size : ℕ) (g : Got) (slots : List Slot) → IsPool size slots → IsPool size (take_ref g slots)
unfolding take_ref
take_ref-IsPool size (created b) slots p = p
take_ref-IsPool size (pooled i b) [] p = p
take_ref-IsPool size (pooled zero b) (s ∷ ss) p = p
take_ref-IsPool size (pooled (suc i) b) (s ∷ ss) p = (p.0, take_ref-IsPool size (pooled i b) ss p.1)

-- The pool is such a source, whatever it has lent.
abbrev pub pool_source : (size junk : ℕ) → BufferSource size (PoolState size)
pool_source size junk = record {
  get = λ s sz.
      let g = get size junk sz s.0 in
      (buffer_of g, (take_ref g s.0, take_ref-IsPool size g s.0 s.1));
  get_max = λ s sz. (get-max size junk sz s.0 s.1).0;
}
