-- ===== src/Net/WebSocketClient/Merged.antt =====
-- What `mergeReadBuffers` of lib/net/WebSocketClient.cpp leaves of the buffers.
use reckoning.Common.{
  ℕ, zero, suc, ◌≤◌, ◌<◌, ◌≡◌, refl, ap, ◌∙◌, false, List, [], ◌∷◌, ◌++◌, ◌==◌, length,
  length-append, length-take, length-drop, take, drop, concat, Bytes, arith, take-append,
}
use reckoning.Buffer.{copy_to}
use reckoning.Net.WebSocketClient.{copy_all, merge}

copy_to-front : (memory b : Bytes) → copy_to memory 0 b ≡ b ++ drop (length b) memory
copy_to-front memory b = ap (λ k. b ++ drop k memory) (omega arith)

length-copy_to :
    (memory b : Bytes) → length b ≤ length memory → length (copy_to memory 0 b) ≡ length memory
length-copy_to memory b le =
    ap length (copy_to-front memory b)
    ∙ length-append b (drop (length b) memory)
    ∙ omega (arith, length-drop (length b) memory)

length-copy_all :
    (memory : Bytes)
    → (bs : List Bytes) → length (concat bs) ≤ length memory
    → length (copy_all memory bs) ≡ length memory
length-copy_all memory [] le = refl
length-copy_all memory (b ∷ bs) le =
    let sum = length-append b (concat bs) in
    let same : length (copy_to memory 0 b) ≡ length memory =
      length-copy_to memory b (omega (arith, sum)) in
    length-copy_all (copy_to memory 0 b) bs (omega (arith, sum, same)) ∙ same

copy_all-snoc :
    (memory : Bytes)
    → (bs : List Bytes) → (b : Bytes)
    → copy_all memory (bs ++ b ∷ []) ≡ copy_to (copy_all memory bs) 0 b
copy_all-snoc memory [] b = refl
copy_all-snoc memory (c ∷ cs) b = copy_all-snoc (copy_to memory 0 c) cs b

merge-many :
    (memory b c : Bytes)
    → (bs : List Bytes) → 0 < length (concat (b ∷ c ∷ bs))
    → merge memory (b ∷ c ∷ bs)
      ≡ take (length (concat (b ∷ c ∷ bs))) (copy_all memory (b ∷ c ∷ bs)) ∷ []
unfolding merge
merge-many memory b c bs lt =
    let some_bytes : (length (concat (b ∷ c ∷ bs)) == 0) ≡ false = ground arith in rw some_bytes

merge-snoc :
    (memory b : Bytes)
    → (bs : List Bytes) → (l : Bytes) → 0 < length (concat (b ∷ (bs ++ l ∷ [])))
    → merge memory (b ∷ (bs ++ l ∷ []))
      ≡ take (length (concat (b ∷ (bs ++ l ∷ [])))) (copy_all memory (b ∷ (bs ++ l ∷ []))) ∷ []
merge-snoc memory b [] l lt = merge-many memory b l [] lt
merge-snoc memory b (c ∷ cs) l lt = merge-many memory b c (cs ++ l ∷ []) lt

take-take_le : (m n : ℕ) → (xs : Bytes) → m ≤ n → take m (take n xs) ≡ take m xs
take-take_le zero n xs le = refl
take-take_le (suc m) zero xs le = absurd (omega arith)
take-take_le (suc m) (suc n) [] le = refl
take-take_le (suc m) (suc n) (x ∷ xs) le = ap (λ r. x ∷ r) (take-take_le m n xs (omega arith))

length-concat_last : (bs : List Bytes) → (l : Bytes) → length l ≤ length (concat (bs ++ l ∷ []))
length-concat_last [] l = omega (arith, length-append l [])
length-concat_last (b ∷ bs) l =
    omega (arith, length-append b (concat (bs ++ l ∷ [])), length-concat_last bs l)

-- Two buffers or more are merged to one of their whole size that begins with the last of them,
-- where the last is not empty and the buffer of the pool has room for all.
pub merge-last :
    (memory b : Bytes)
    → (bs : List Bytes) → (l : Bytes) → 0 < length l
    → length (concat (b ∷ (bs ++ l ∷ []))) ≤ length memory
    → (m : Bytes) × (merge memory (b ∷ (bs ++ l ∷ [])) ≡ m ∷ [])
      × (length m ≡ length (concat (b ∷ (bs ++ l ∷ []))))
      × (take (length l) m ≡ l)
merge-last memory b bs l lt room =
    let all : List Bytes = b ∷ (bs ++ l ∷ []) in
    let sz : ℕ = length (concat all) in
    let at_most : length l ≤ sz = length-concat_last (b ∷ bs) l in
    let whole : length (copy_all memory all) ≡ length memory = length-copy_all memory all room in
    (
      take sz (copy_all memory all),
      merge-snoc memory b bs l (omega arith),
      length-take sz (copy_all memory all) ∙ omega arith,
      take-take_le (length l) sz (copy_all memory all) at_most
          ∙ ap (take (length l))
              (copy_all-snoc memory (b ∷ bs) l ∙ copy_to-front (copy_all memory (b ∷ bs)) l)
          ∙ take-append (length l) l (drop (length l) (copy_all memory (b ∷ bs))) refl,
    )
