-- ===== src/Then/Tests.antt =====
-- Promises at concrete inputs: the values are numbers, and the value of a Then<void> is 0.
use reckoning.Common.{
  ℕ, ◌+◌, ◌≡◌, refl, ◌≢◌, ◌==◌, if◌then◌else◌, true, false, some, [], ◌∷◌, arith, Bytes,
}
use reckoning.Then.Promise.{MaybeFail, holds, fails, given, resolved, World, pending, put}
use reckoning.Then.Steps.{done, settle, do_next, do_resolve, do_reject}
use reckoning.Then.Promise.{next_then, next_value}
use reckoning.Then.Steps.Chains.{value, maybe, settled, outcome, Linked}
use reckoning.Then.Steps.Frame.{waiting}
use reckoning.Then.Steps.Built.{IsFresh, then_all, then_all-Settles}
use reckoning.Then.Steps.Late.{then_all-late}
use reckoning.Then.Steps.Elsewhere.{conclude, conclude-elsewhere}
use reckoning.Then.Steps.Inner.{returned-Settles}
use reckoning.Then.Steps.Inner.Lost.{given-lost}

abbrev same : ℕ → ℕ
same v = v

abbrev same_bytes : Bytes → Bytes
same_bytes e = e

-- `n` promises, none of which is settled.
abbrev new_promises : ℕ → World ℕ
new_promises n = record {
  promises = λ m. pending;
  fresh = n;
  posted = [];
  calls = [];
  has_loop = true;
}

-- Doubles, and then fails on 8.
abbrev double : ℕ → ℕ
double v = v + v

abbrev picky : ℕ → MaybeFail ℕ
picky v = if v == 8 then fails (110 ∷ 111 ∷ []) else holds (v + 1)

fresh : (n : ℕ) → IsFresh (new_promises n)
unfolding IsFresh
fresh n m le = refl

then_all-Settles_example :
    (last : ℕ) × (w' w'' : World ℕ) × (then_all same same_bytes 0
        (value double ∷ maybe picky ∷ value double ∷ [])
        (new_promises 1)
      ≡ some (last, w'))
    × (settle same same_bytes 0 7 (do_resolve 0 4 ∷ []) w' ≡ done w'')
    × (w''.promises last ≡ record pending { failed = true; failure = 110 ∷ 111 ∷ [] })
    × (w''.calls ≡ [])
unfolding then_all outcome settled
then_all-Settles_example =
    then_all-Settles same same_bytes 0 0 0 (value double ∷ maybe picky ∷ value double ∷ [])
      (holds 4) (new_promises 1) (omega arith) refl (fresh 1) refl

-- The first promise has the value 4 already.
abbrev one_settled : World ℕ
one_settled = record (new_promises 1) {
  promises = put 0 (record pending { arg = some 4 }) (λ m. pending);
}

one_settled-IsFresh : IsFresh one_settled
unfolding IsFresh put
one_settled-IsFresh m le = ground arith

then_all-late_example :
    (last : ℕ) × (w' w'' : World ℕ) × (then_all same same_bytes 0
        (maybe picky ∷ value double ∷ [])
        one_settled
      ≡ some (last, w'))
    × (settle same same_bytes 0 5 [] w' ≡ done w'')
    × (w''.promises last ≡ record pending { arg = some 10 })
    × (w''.calls ≡ [])
unfolding then_all outcome settled put
then_all-late_example =
    then_all-late same same_bytes 0 0 0 (maybe picky) (value double ∷ []) (holds 4) one_settled
      (omega arith) refl one_settled-IsFresh refl refl

-- The promise 0 waits with a functor for the promise 1.
abbrev one_waits : World ℕ
one_waits = record (new_promises 2) {
  promises = put 0 (waiting (next_value 1 double) 1 true) (λ m. pending);
}

one_waits-Linked : Linked true one_waits.promises 0 (value double ∷ []) 1
unfolding Linked put
one_waits-Linked = (1, omega arith, refl, (refl, refl))

conclude-elsewhere_example :
    (w' w'' : World ℕ) × (conclude false 0 (holds 4) one_waits ≡ (w', []))
    × (settle same same_bytes 0 3 [] w' ≡ done w'')
    × (w''.promises 1 ≡ record pending { arg = some 8 })
    × (w''.calls ≡ [])
unfolding outcome settled
conclude-elsewhere_example =
    conclude-elsewhere same same_bytes 0 0 0 1 (value double) [] (holds 4) one_waits refl refl
      one_waits-Linked

alone : (n : ℕ) → Linked true (new_promises n).promises 0 [] 0
unfolding Linked
alone n = (refl, refl)

returned-Settles_example :
    (w' : World ℕ) × (settle same same_bytes 0 7
        (do_next (next_then 0 (λ v. resolved (double v))) 4 ∷ [])
        (new_promises 1)
      ≡ done w')
    × (w'.promises 0 ≡ record pending { arg = some 8 })
    × (w'.calls ≡ [])
unfolding outcome settled
returned-Settles_example =
    returned-Settles same same_bytes 0 0 0 0 (λ v. resolved (double v)) 4 [] (holds 8)
      (new_promises 1) refl (omega arith) refl refl (alone 1)

given-lost_example :
    (w' : World ℕ) × (settle same same_bytes 0 4
        (do_next (next_then 0 (λ v. given 1)) 4 ∷ do_reject 1 (110 ∷ []) ∷ [])
        (new_promises 2)
      ≡ done w')
    × ((z : ℕ) → z ≢ 1 → z ≢ 2 → w'.promises z ≡ pending)
    × (w'.calls ≡ [])
given-lost_example =
    given-lost same same_bytes 0 0 0 1 (λ v. given 1) 4 (110 ∷ []) (new_promises 2) refl
      (omega arith) refl refl refl
