-- ===== src/Net/WebSocketClient/Upgrade/Search.antt =====
-- The search for the key in `attemptUpgrade` of lib/net/WebSocketClient.cpp ends.
use reckoning.Common.{
  ℕ, zero, suc, ◌+◌, ◌<◌, ◌≡◌, refl, ◌≢◌, ◌⊎◌, inl, inr, Bool, true, false, Option, none, some, [],
  ◌∷◌, ltb, ◌==◌, if◌then◌else◌, length, length-drop, drop, Bytes, arith, Bool-cases,
}
use reckoning.Buffer.Wait.{memmem, memmem_from, begins}
use reckoning.Net.WebSocketClient.Upgrade.{
  Found, case_begins, behind, absent, out_of_fuel, find, find_accept, accept_header,
}

IsDone : Found → Type 0
IsDone f = f ≢ out_of_fuel

guarded-IsDone :
    (a b : Bool)
    → (rest : Bytes) → (f : Found) → IsDone f
    → IsDone (if a then absent else if b then behind rest else f)
unfolding IsDone
guarded-IsDone true b rest f h = ground arith
guarded-IsDone false true rest f h = ground arith
guarded-IsDone false false rest f h = h

next_line-IsDone :
    (look : Bytes → Found)
    → (text : Bytes) → (o : Option ℕ) → ((at : ℕ) → IsDone (look (drop (at + 2) text)))
    → IsDone (elim o [
      | none ↦ absent
      | some at ↦ if at + 2 == length text then absent else look (drop (at + 2) text)
    ])
unfolding IsDone
next_line-IsDone look text none h = ground arith
next_line-IsDone look text (some at) h = elim (Bool-cases (at + 2 == length text)) [
  | inl e ↦ rw e (ground arith)
  | inr e ↦ rw e (h at)
]

absent-IsDone : IsDone absent
unfolding IsDone
absent-IsDone = ground arith

find-nil : (fuel : ℕ) → (header : Bytes) → IsDone (find (suc fuel) header [])
unfolding find memmem memmem_from begins
find-nil fuel header =
    guarded-IsDone (ltb 0 (length header)) (case_begins header []) (drop (length header) []) absent
      absent-IsDone

-- `find` does not run out of fuel that is more than the length of the text.
find-total :
    (fuel : ℕ) → (header text : Bytes) → length text < fuel → IsDone (find fuel header text)
unfolding find
find-total zero header text lt = absurd (omega arith)
find-total (suc fuel) header [] lt = find-nil fuel header
find-total (suc fuel) header (c ∷ cs) lt =
    guarded-IsDone (ltb (length (c ∷ cs)) (length header)) (case_begins header (c ∷ cs))
      (drop (length header) (c ∷ cs)) _
      (next_line-IsDone (find fuel header) (c ∷ cs) (memmem (c ∷ cs) (13 ∷ 10 ∷ [])) (λ at.
        find-total fuel header (drop (at + 2) (c ∷ cs))
          (omega (arith, length-drop (at + 2) (c ∷ cs)))))

-- The header has the line of the key or not: the search ends.
pub find_accept-cases :
    (header : Bytes)
    → (find_accept header ≡ absent) ⊎ ((rest : Bytes) × (find_accept header ≡ behind rest))
unfolding find_accept IsDone
find_accept-cases header =
    split (find (suc (length header)) accept_header header)
      (find-total (suc (length header)) accept_header header (omega arith))
  where
    split : (f : Found) → IsDone f → (f ≡ absent) ⊎ ((rest : Bytes) × (f ≡ behind rest))
    split absent h = inl refl
    split (behind rest) h = inr (rest, refl)
    split out_of_fuel h = absurd (h refl)
