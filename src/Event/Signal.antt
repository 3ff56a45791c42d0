-- ===== src/Event/Signal.antt =====
-- The signals of include/event/Signal.h: the connections are objects that a signal and the holders
-- of a Connection share, so they are names into a store, and a signal is its list of names. What a
-- connected function does is code of the program's user: `run` says which connections it
-- disconnects, and `here` which loop runs on the thread that emits.
pub mod Emission
use reckoning.Common.{
  ℕ, Bool, true, false, Option, none, some, List, [], ◌∷◌, ◌++◌, ◌==◌, if◌then◌else◌,
}

pub record Connection : Type 0 where
  pub function : ℕ
  pub loop : Option ℕ
  pub connected : Bool

abbrev pub Connections : Type 0
Connections = ℕ → Connection

-- What `invoke` does with the arguments: the function is called, or posted to the loop's thread.
pub data Delivery : Type 0 where
  called : ℕ → Delivery
  posted : ℕ → ℕ → Delivery

-- `connect(func)` makes a new connection, whose name is `n`, on the loop of the thread.
unfoldable pub connect : Option ℕ → ℕ → ℕ → Connections → List ℕ → Connections × List ℕ
connect loop function n s signal = (
  λ m. if m == n then record { function = function; loop = loop; connected = true } else s m,
  signal ++ n ∷ [],
)

-- `Connection::disconnect()`, whose object is there as long as the signal holds it.
unfoldable pub disconnect : ℕ → Connections → Connections
disconnect n s m = if m == n then record (s m) { connected = false } else s m

unfoldable pub disconnect_all : List ℕ → Connections → Connections
unfolding disconnect
disconnect_all [] s = s
disconnect_all (n ∷ ns) s = disconnect_all ns (disconnect n s)

-- `Signal::disconnect()`: no connection is left.
unfoldable pub clear : List ℕ → List ℕ
clear signal = []

-- The first loop of `emit`: what is not connected leaves the signal.
unfoldable pub sweep : Connections → List ℕ → List ℕ
sweep s [] = []
sweep s (n ∷ ns) = if (s n).connected then n ∷ sweep s ns else sweep s ns

-- Is `send` on this loop a call on the spot?
abbrev pub is_here : Option ℕ → Option ℕ → Bool
is_here here none = true
is_here none (some l) = false
is_here (some h) (some l) = h == l

abbrev pub deliver : Option ℕ → ℕ → Option ℕ → Delivery
deliver here n none = called n
deliver none n (some l) = posted l n
deliver (some h) n (some l) = if h == l then called n else posted l n

module _ (here : Option ℕ) (run : ℕ → List ℕ) where
  -- `invoke`: the delivery, and the connections after it.
  unfoldable pub invoke : ℕ → Connections → Delivery × Connections
  unfolding disconnect_all
  invoke n s = (
    deliver here n (s n).loop,
    if is_here here (s n).loop then disconnect_all (run (s n).function) s else s,
  )

  -- The second loop of `emit`: whoever is still connected is invoked.
  unfoldable pub invoke_all : Connections → List ℕ → List (ℕ × Delivery) × Connections
  unfolding invoke
  invoke_all s [] = ([], s)
  invoke_all s (n ∷ ns) =
      let (d, s') = invoke n s in
      let (ds, s'') = invoke_all s' ns in
      let skipped = invoke_all s ns in if (s n).connected then ((n, d) ∷ ds, s'') else skipped

  -- `emit`: the deliveries by connection, the connections, and the signal.
  unfoldable pub emit : Connections → List ℕ → List (ℕ × Delivery) × Connections × List ℕ
  unfolding sweep invoke_all
  emit s signal = let (ds, s') = invoke_all s (sweep s signal) in (ds, s', sweep s signal)
