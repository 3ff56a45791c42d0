-- ===== src/Buffer/Wait/Search.antt =====
-- The needle is found at its first occurrence in all bytes that came so far, also across the
-- buffers that brought them.
use reckoning.Common.{
  ℕ, zero, suc, ◌+◌, ◌≤◌, ◌<◌, true, false, Option, none, some, [], ◌∷◌, ◌≡◌, ◌⊎◌, inl, inr, refl,
  ◌∙◌, arith, leb, Bool-cases, Bytes, length, drop, length-drop,
}
use reckoning.Buffer.Wait.{begins, memmem_from, memmem, search_needle}

-- The first place at which the needle stands in the text, or that there is none.
abbrev pub First : Bytes → Bytes → Option ℕ → Type 0
First needle text r =
    ((r ≡ none) × ((k : ℕ) → k ≤ length text → begins needle (drop k text) ≡ false))
    ⊎ ((k : ℕ) × (r ≡ some k)
        × (begins needle (drop k text) ≡ true)
        × ((j : ℕ) → j < k → begins needle (drop j text) ≡ false))

begins_short : (needle text : Bytes) → length text < length needle → begins needle text ≡ false
unfolding begins
begins_short [] text h = absurd (omega arith)
begins_short (n ∷ ns) [] h = refl
begins_short (n ∷ ns) (c ∷ cs) h = ground (arith, begins_short ns cs (omega arith))

abbrev FirstFrom : ℕ → Bytes → Bytes → Option ℕ → Type 0
FirstFrom i needle text r =
    ((r ≡ none) × ((k : ℕ) → k ≤ length text → begins needle (drop k text) ≡ false))
    ⊎ ((k : ℕ) × (r ≡ some (i + k))
        × (begins needle (drop k text) ≡ true)
        × ((j : ℕ) → j < k → begins needle (drop j text) ≡ false))

memmem_from-FirstFrom :
    (i : ℕ) (needle text : Bytes) → FirstFrom i needle text (memmem_from i needle text)
unfolding memmem_from
memmem_from-FirstFrom i needle [] = elim (Bool-cases (begins needle [])) [
  | inl here ↦ rw here (inr (0, ground arith, here, λ j h. absurd (omega arith)))
  | inr no_match ↦ rw no_match (inl (refl, at_end no_match))
]
  where
    at_end : begins needle [] ≡ false → (k : ℕ) → k ≤ 0 → begins needle (drop k []) ≡ false
    at_end e zero h = e
    at_end e (suc k) h = absurd (omega arith)
memmem_from-FirstFrom i needle (c ∷ cs) = elim (Bool-cases (begins needle (c ∷ cs))) [
  | inl here ↦ rw here (inr (0, ground arith, here, λ j h. absurd (omega arith)))
  | inr no_match ↦ rw no_match (elim (memmem_from-FirstFrom (suc i) needle cs) [
    | inl (e, all) ↦ inl (e, below no_match all)
    | inr (k, e, at, before) ↦ inr (suc k, e ∙ ground arith, at, earlier no_match k before)
  ])
]
  where
    below :
        begins needle (c ∷ cs) ≡ false
        → ((k : ℕ) → k ≤ length cs → begins needle (drop k cs) ≡ false)
        → (k : ℕ) → k ≤ suc (length cs)
        → begins needle (drop k (c ∷ cs)) ≡ false
    below e all zero h = e
    below e all (suc k) h = all k (omega arith)

    earlier :
        begins needle (c ∷ cs) ≡ false
        → (k : ℕ) → ((j : ℕ) → j < k → begins needle (drop j cs) ≡ false)
        → (j : ℕ) → j < suc k
        → begins needle (drop j (c ∷ cs)) ≡ false
    earlier e k before zero h = e
    earlier e k before (suc j) h = before j (omega arith)

-- The search of `feed`, with its guard on the sizes, gives the first place at which the needle
-- stands in the text, or no place, if it stands nowhere.
pub search_needle-First : (needle text : Bytes) → First needle text (search_needle needle text)
unfolding search_needle memmem
search_needle-First needle text = elim (Bool-cases (leb (length needle) (length text))) [
  | inl long ↦ rw long (elim (memmem_from-FirstFrom 0 needle text) [
    | inl none_found ↦ inl none_found
    | inr (k, e, at, before) ↦ inr (k, e ∙ ground arith, at, before)
  ])
  | inr short ↦
      rw short
        (inl (refl, λ k h. begins_short needle (drop k text) (ground (arith, length-drop k text))))
]
