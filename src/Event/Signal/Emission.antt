-- ===== src/Event/Signal/Emission.antt =====
-- Whom `emit` of include/event/Signal.h calls.
use reckoning.Common.{
  ℕ, true, false, Option, List, [], ◌∷◌, ◌≡◌, inl, inr, refl, ap, ◌∙◌, arith, ◌==◌, if◌then◌else◌,
  Bool-cases, All,
}
use reckoning.Event.Signal.{
  Connections, Delivery, disconnect, disconnect_all, sweep, is_here, deliver, invoke, invoke_all,
  emit,
}

-- A connection that is not connected stays so.
disconnect-stays :
    (n m : ℕ) (s : Connections) → (s m).connected ≡ false → (disconnect n s m).connected ≡ false
unfolding disconnect
disconnect-stays n m s e = ground arith

disconnect_all-stays :
    (ns : List ℕ) (m : ℕ) (s : Connections)
    → (s m).connected ≡ false
    → (disconnect_all ns s m).connected ≡ false
unfolding disconnect_all
disconnect_all-stays [] m s e = e
disconnect_all-stays (n ∷ ns) m s e =
    disconnect_all-stays ns m (disconnect n s) (disconnect-stays n m s e)

differ :
    (n m : ℕ) (s : Connections)
    → (s n).connected ≡ true
    → (s m).connected ≡ false
    → (n == m) ≡ false
differ n m s c e = elim (Bool-cases (n == m)) [ inl same ↦ ground arith | inr other ↦ other ]

disconnect_self : (m : ℕ) (s : Connections) → (disconnect m s m).connected ≡ false
unfolding disconnect
disconnect_self m s = ground arith

-- Nothing is delivered to the connection.
abbrev pub IsSilent : ℕ → List (ℕ × Delivery) → Type 0
IsSilent m = All (λ d. (d.0 == m) ≡ false)

module _ (here : Option ℕ) (run : ℕ → List ℕ) where
  invoke-stays :
      (n m : ℕ) (s : Connections)
      → (s m).connected ≡ false
      → ((invoke here run n s).1 m).connected ≡ false
  unfolding invoke
  invoke-stays n m s e = elim (Bool-cases (is_here here (s n).loop)) [
    | inl h ↦ rw h (disconnect_all-stays (run (s n).function) m s e)
    | inr h ↦ rw h e
  ]

  invoke_all-IsSilent :
      (s : Connections) (ns : List ℕ) (m : ℕ)
      → (s m).connected ≡ false
      → IsSilent m (invoke_all here run s ns).0
  unfolding invoke_all
  invoke_all-IsSilent s [] m e = tt
  invoke_all-IsSilent s (n ∷ ns) m e = elim (Bool-cases (s n).connected) [
    | inl c ↦
        rw c (
          differ n m s c e,
          invoke_all-IsSilent (invoke here run n s).1 ns m (invoke-stays n m s e),
        )
    | inr c ↦ rw c (invoke_all-IsSilent s ns m e)
  ]

  sweep-absent :
      (s : Connections) (ns : List ℕ) (m : ℕ)
      → (s m).connected ≡ false
      → All (λ n. (n == m) ≡ false) (sweep s ns)
  unfolding sweep
  sweep-absent s [] m e = tt
  sweep-absent s (n ∷ ns) m e = elim (Bool-cases (s n).connected) [
    | inl c ↦ rw c (differ n m s c e, sweep-absent s ns m e)
    | inr c ↦ rw c (sweep-absent s ns m e)
  ]

  -- Once a connection is disconnected, a signal that is emitted delivers nothing to it, whatever
  -- the connected functions disconnect, and the signal no longer holds it.
  pub emit-disconnect :
      (s : Connections) (signal : List ℕ) (m : ℕ)
      → IsSilent m (emit here run (disconnect m s) signal).0
        × All (λ n. (n == m) ≡ false) (emit here run (disconnect m s) signal).2
  unfolding emit
  emit-disconnect s signal m =
      let e : (disconnect m s m).connected ≡ false = disconnect_self m s in
      (
        invoke_all-IsSilent (disconnect m s) (sweep (disconnect m s) signal) m e,
        sweep-absent (disconnect m s) signal m e,
      )

  invoke-quiet :
      (n : ℕ) (s : Connections)
      → run (s n).function ≡ []
      → invoke here run n s ≡ (deliver here n (s n).loop, s)
  unfolding invoke disconnect_all
  invoke-quiet n s q = elim (Bool-cases (is_here here (s n).loop)) [
    | inl h ↦ rw (h, q) refl
    | inr h ↦ rw h refl
  ]

  invoke_all-connected :
      (s : Connections) (n : ℕ) (ns : List ℕ)
      → (s n).connected ≡ true
      → run (s n).function ≡ []
      → invoke_all here run s (n ∷ ns) ≡ (
        (n, deliver here n (s n).loop) ∷ (invoke_all here run s ns).0,
        (invoke_all here run s ns).1,
      )
  unfolding invoke_all
  invoke_all-connected s n ns c q = rw c (
      ap (λ i. ((n, i.0) ∷ (invoke_all here run i.1 ns).0, (invoke_all here run i.1 ns).1))
        (invoke-quiet n s q))

  -- The connected ones of a list, each with its delivery.
  pub deliveries : Connections → List ℕ → List (ℕ × Delivery)
  deliveries s [] = []
  deliveries s (n ∷ ns) =
      if (s n).connected then (n, deliver here n (s n).loop) ∷ deliveries s ns else deliveries s ns

  invoke_all-sweep :
      (s : Connections) (ns : List ℕ)
      → ((f : ℕ) → run f ≡ [])
      → invoke_all here run s (sweep s ns) ≡ (deliveries s ns, s)
  unfolding sweep deliveries
  invoke_all-sweep s [] q = unfold invoke_all in refl
  invoke_all-sweep s (n ∷ ns) q = elim (Bool-cases (s n).connected) [
    | inl c ↦ rw c (
        invoke_all-connected s n (sweep s ns) c (q (s n).function)
        ∙ ap (λ r. ((n, deliver here n (s n).loop) ∷ r.0, r.1)) (invoke_all-sweep s ns q))
    | inr c ↦ rw c (invoke_all-sweep s ns q)
  ]

  -- Where the functions disconnect nothing, every connection that is connected has one delivery, in
  -- the order in which they were connected: a call on the spot if it has no loop or the loop of the
  -- thread, and an event for its loop else.
  pub emit-deliveries :
      (s : Connections) (signal : List ℕ)
      → ((f : ℕ) → run f ≡ [])
      → emit here run s signal ≡ (deliveries s signal, s, sweep s signal)
  unfolding emit
  emit-deliveries s signal q = rw (invoke_all-sweep s signal q) refl
