-- ===== src/Net/HttpClient/Multi/Balance.antt =====
-- What a transfer of lib/net/HttpClient.cpp makes, it frees.
use reckoning.Common.{
  ℕ, ◌+◌, ◌≤◌, ◌≡◌, sym, ap, subst, Bool, true, false, Option, none, some, List, [], ◌∷◌, ◌++◌,
  arith,
}
use reckoning.Net.HttpClient.Multi.Transfers.{
  Call, made_connection, made_easy, deleted_connection, cleaned_up, made_headers, freed_headers,
  Connection, Client, connect, init_from, init, emit_end, finish,
}

-- The connection, the handle, and the list of headers.
pub data Resource : Type 0 where
  connection easy headers : Resource

-- Is it made, and is it freed, by a call?
abbrev pub makes : Resource → Call → ℕ
makes connection made_connection = 1
makes easy made_easy = 1
makes headers (made_headers hs) = 1
makes _ _ = 0

abbrev pub frees : Resource → Call → ℕ
frees connection deleted_connection = 1
frees easy cleaned_up = 1
frees headers freed_headers = 1
frees _ _ = 0

abbrev pub made : Resource → List Call → ℕ
made r [] = 0
made r (c ∷ cs) = makes r c + made r cs

abbrev pub freed : Resource → List Call → ℕ
freed r [] = 0
freed r (c ∷ cs) = frees r c + freed r cs

-- The calls from `init` to the end of the transfer that it began, if it began one.
abbrev pub ended : Bool → Option Connection → List Call
ended ok none = []
ended ok (some x) = finish ok x

-- Every call once, or none.
abbrev Balanced : Resource → List Call → Type 0
Balanced r cs = (made r cs ≡ freed r cs) × (made r cs ≤ 1)

connect-Balanced :
    (added_ok ok : Bool)
    → (c : Client) → (r : Resource) → c.connection ≡ none
    → Balanced r ((connect added_ok c).0 ++ ended ok (connect added_ok c).1.connection)
unfolding connect finish emit_end
connect-Balanced false ok c connection e = rw e (ground arith)
connect-Balanced false ok c easy e = rw e (ground arith)
connect-Balanced false ok c headers e = rw e (ground arith)
connect-Balanced true ok c connection e = ground arith
connect-Balanced true ok c easy e = ground arith
connect-Balanced true ok c headers e = ground arith

-- All that `init` makes for a transfer, it makes once, and it is freed once: by `init`, if the
-- transfer cannot be added, or when the transfer ends, whatever its result. It holds for a client
-- without a transfer.
pub init-Balanced :
    (added_ok ok : Bool)
    → (c : Client) → (r : Resource) → c.connection ≡ none
    → Balanced r ((init added_ok c).0 ++ ended ok (init added_ok c).1.connection)
unfolding init init_from
init-Balanced added_ok ok c r e =
    let same : init added_ok c ≡ connect added_ok c = ap (λ x. init_from x added_ok c) e in
    subst (λ p. Balanced r (p.0 ++ ended ok p.1.connection)) (sym same)
      (connect-Balanced added_ok ok c r e)
