-- ===== src/Net/HttpClient/Upload/Delivered.antt =====
-- What the read callback of lib/net/HttpClient.cpp gives to libcurl, as a queue of bytes.
use reckoning.Common.{
  ℕ, zero, suc, ◌+◌, ◌-◌, ◌≤◌, ◌<◌, min, ◌≡◌, refl, sym, ap, subst, ◌∙◌, ◌≢◌, ◌⊎◌, inl, inr, Bool,
  true, some, List, [], ◌∷◌, ◌++◌, append_assoc, ◌==◌, length, take, drop, get_elem?, concat, All,
  Bytes, arith, Bool-cases, length-drop, length-take, take-append-drop, drop-drop, drop_all,
}
use reckoning.Net.HttpClient.Upload.{Upload, Answer, gives, pauses, advance, read_buffer, easy_read}

-- The bytes that are still to be read.
unfoldable pub contents : Upload → Bytes
contents s = drop s.buffer_offset (concat (drop s.buffer_pos s.buffers))

-- Nothing is written, or the position is in a buffer, behind which no buffer is empty.
unfoldable pub IsValid : Upload → Type 0
IsValid s =
    ((s.buffers ≡ []) × (s.buffer_pos ≡ 0) × (s.buffer_offset ≡ 0))
    ⊎ ((b : Bytes) × (bs : List Bytes) × (drop s.buffer_pos s.buffers ≡ b ∷ bs)
        × (s.buffer_offset < length b)
        × All (λ c. 0 < length c) bs)

module _ {A : Type 0} where
  pub get_elem?-drop :
      (n : ℕ)
      → (xs : List A) → (y : A) → (ys : List A) → drop n xs ≡ y ∷ ys
      → get_elem? xs n ≡ some y
  get_elem?-drop zero (x ∷ xs) y ys e = ground arith
  get_elem?-drop zero [] y ys e = ground arith
  get_elem?-drop (suc n) (x ∷ xs) y ys e = get_elem?-drop n xs y ys e
  get_elem?-drop (suc n) [] y ys e = ground arith

  pub drop-suc :
      (n : ℕ) → (xs : List A) → (y : A) → (ys : List A) → drop n xs ≡ y ∷ ys → drop (suc n) xs ≡ ys
  drop-suc zero (x ∷ xs) y ys e = ground arith
  drop-suc zero [] y ys e = ground arith
  drop-suc (suc n) (x ∷ xs) y ys e = drop-suc n xs y ys e
  drop-suc (suc n) [] y ys e = ground arith

  pub drop-append_le :
      (n : ℕ) → (xs ys : List A) → n ≤ length xs → drop n (xs ++ ys) ≡ drop n xs ++ ys
  drop-append_le zero xs ys h = refl
  drop-append_le (suc n) [] ys h = absurd (omega arith)
  drop-append_le (suc n) (x ∷ xs) ys h = drop-append_le n xs ys (omega arith)

  pub length-from :
      (n : ℕ)
      → (xs : List A) → (y : A) → (ys : List A) → drop n xs ≡ y ∷ ys
      → length xs ≡ suc (n + length ys)
  length-from n xs y ys e =
      let h : length (drop n xs) ≡ length (y ∷ ys) = ap length e in
      omega (arith, h, length-drop n xs)

abbrev pub bytes_of : Answer → Bytes
bytes_of (gives bs) = bs
bytes_of pauses = []

-- What one call of the callback promises.
abbrev pub Reads : ℕ → Upload → Type 0
Reads room s =
    (a : Answer) × (s' : Upload) × (easy_read true room s ≡ some (a, s'))
    × (bytes_of a ++ contents s' ≡ contents s)
    × IsValid s'
    × (s'.connected ≡ s.connected)
    × (length (bytes_of a) ≤ room)
    × (contents s ≢ [] → 0 < length (bytes_of a))

empty-contents :
    (s : Upload) → s.buffers ≡ [] → s.buffer_pos ≡ 0 → s.buffer_offset ≡ 0 → contents s ≡ []
unfolding contents
empty-contents s e p o = rw (e, p, o)

easy_read-none :
    (room : ℕ)
    → (s : Upload) → s.buffers ≡ []
    → (a : Answer) × (b : Bool) × (easy_read true room s ≡ some (a, record s { paused = b }))
      × (bytes_of a ≡ [])
unfolding easy_read
easy_read-none room s e = elim (Bool-cases s.write_end) [
  | inl h ↦ (gives [], s.paused, rw (e, h), refl)
  | inr h ↦ (pauses, true, rw (e, h), refl)
]

easy_read-empty :
    (room : ℕ)
    → (s : Upload) → s.buffers ≡ []
    → s.buffer_pos ≡ 0
    → s.buffer_offset ≡ 0
    → Reads room s
unfolding IsValid contents
easy_read-empty room s e p o =
    let (a, b, run, nothing) = easy_read-none room s e in
    (
      a,
      record s { paused = b },
      run,
      ap (λ xs. xs ++ contents s) nothing,
      inl (e, p, o),
      refl,
      rw nothing (omega arith),
      (λ ne. absurd (ne (empty-contents s e p o))),
    )

nonempty :
    {A : Type 0}
    → (n : ℕ) → (xs : List A) → (y : A) → (ys : List A) → drop n xs ≡ y ∷ ys
    → (z : A) × (zs : List A) × (xs ≡ z ∷ zs)
nonempty n (x ∷ xs) y ys e = (x, xs, refl)
nonempty zero [] y ys e = ground arith
nonempty (suc n) [] y ys e = ground arith

easy_read-buffer :
    (room : ℕ)
    → (s : Upload) → (c : Bytes) → (cs : List Bytes) → s.buffers ≡ c ∷ cs
    → easy_read true room s ≡ read_buffer room s
unfolding easy_read
easy_read-buffer room s c cs e = rw e

read_buffer-part :
    (room : ℕ)
    → (s : Upload) → (b : Bytes) → get_elem? s.buffers s.buffer_pos ≡ some b
    → s.buffer_offset < length b
    → read_buffer room s
      ≡ some (
        gives (take (min room (length b - s.buffer_offset)) (drop s.buffer_offset b)),
        advance (min room (length b - s.buffer_offset)) (length b) s,
      )
unfolding read_buffer
read_buffer-part room s b e lt = ground arith

contents-at :
    (s : Upload)
    → (b : Bytes) → (bs : List Bytes) → drop s.buffer_pos s.buffers ≡ b ∷ bs
    → s.buffer_offset ≤ length b
    → contents s ≡ drop s.buffer_offset b ++ concat bs
unfolding contents
contents-at s b bs e le =
    ap (λ cs. drop s.buffer_offset (concat cs)) e ∙ drop-append_le s.buffer_offset b (concat bs) le

advance-within :
    (n size : ℕ)
    → (s : Upload) → s.buffer_offset + n ≢ size
    → advance n size s ≡ record s { buffer_offset = s.buffer_offset + n }
unfolding advance
advance-within n size s ne = ground arith

advance-last :
    (n size : ℕ)
    → (s : Upload) → s.buffer_offset + n ≡ size
    → suc s.buffer_pos ≡ length s.buffers
    → advance n size s ≡ record s { buffers = []; buffer_pos = 0; buffer_offset = 0 }
unfolding advance
advance-last n size s e e' = ground arith

advance-next :
    (n size : ℕ)
    → (s : Upload) → s.buffer_offset + n ≡ size
    → suc s.buffer_pos ≢ length s.buffers
    → advance n size s ≡ record s { buffer_pos = suc s.buffer_pos; buffer_offset = 0 }
unfolding advance
advance-next n size s e ne = ground arith

-- The state behind a part that was read: `rest` is still to be read.
abbrev Behind : Bytes → Upload → Upload → Type 0
Behind rest s s' = IsValid s' × (contents s' ≡ rest) × (s'.connected ≡ s.connected)

Behind-whole :
    (n : ℕ)
    → (s : Upload) → (b : Bytes) → (bs : List Bytes) → drop s.buffer_pos s.buffers ≡ b ∷ bs
    → All (λ c. 0 < length c) bs
    → s.buffer_offset + n ≡ length b
    → Behind (concat bs) s (advance n (length b) s)
unfolding IsValid contents
Behind-whole n s b [] e all end =
    let h : length s.buffers ≡ suc (s.buffer_pos + 0) = length-from s.buffer_pos s.buffers b [] e in
    subst (Behind [] s) (sym (advance-last n (length b) s end (omega arith)))
      (inl (refl, refl, refl), refl, refl)
Behind-whole n s b (c ∷ cs) e (some_bytes, all) end =
    let h : length s.buffers ≡ suc (s.buffer_pos + length (c ∷ cs)) =
      length-from s.buffer_pos s.buffers b (c ∷ cs) e in
    let e' = drop-suc s.buffer_pos s.buffers b (c ∷ cs) e in
    subst (Behind (c ++ concat cs) s) (sym (advance-next n (length b) s end (omega arith)))
      (inr (c, cs, e', some_bytes, all), ap concat e', refl)

Behind-part :
    (n : ℕ)
    → (s : Upload) → (b : Bytes) → (bs : List Bytes) → drop s.buffer_pos s.buffers ≡ b ∷ bs
    → s.buffer_offset < length b
    → All (λ c. 0 < length c) bs
    → n ≤ length b - s.buffer_offset
    → Behind (drop n (drop s.buffer_offset b) ++ concat bs) s (advance n (length b) s)
unfolding IsValid
Behind-part n s b bs e lt all le = elim (Bool-cases (s.buffer_offset + n == length b)) [
  | inl h ↦
      let end : s.buffer_offset + n ≡ length b = ground arith in
      subst (λ r. Behind (r ++ concat bs) s (advance n (length b) s))
        (sym
          (drop_all n (drop s.buffer_offset b) (omega (arith, end, length-drop s.buffer_offset b))))
        (Behind-whole n s b bs e all end)
  | inr h ↦
      let ne : s.buffer_offset + n ≢ length b = ground arith in
      let s' : Upload = record s { buffer_offset = s.buffer_offset + n } in
      subst (Behind (drop n (drop s.buffer_offset b) ++ concat bs) s)
        (sym (advance-within n (length b) s ne))
        (
          inr (b, bs, e, omega arith, all),
          contents-at s' b bs e (omega arith)
              ∙ ap (λ r. r ++ concat bs)
                  (sym (drop-drop s.buffer_offset n (s.buffer_offset + n) b refl)),
          refl,
        )
]

-- With room for at least one byte, the callback gives libcurl the next bytes that were written,
-- at least one if there is one and no more than there is room for; no assertion fails, and the
-- bytes that are left are those behind them.
pub easy_read-Reads : (room : ℕ) → (s : Upload) → 0 < room → IsValid s → Reads room s
unfolding IsValid
easy_read-Reads room s some_room (inl (e, p, o)) = easy_read-empty room s e p o
easy_read-Reads room s some_room (inr (b, bs, e, lt, all)) =
    let n : ℕ = min room (length b - s.buffer_offset) in
    let (c, cs, ne) = nonempty s.buffer_pos s.buffers b bs e in
    let (ok, rest, same) = Behind-part n s b bs e lt all (omega arith) in
    let size : length (take n (drop s.buffer_offset b)) ≡ n =
      length-take n (drop s.buffer_offset b) ∙ omega (arith, length-drop s.buffer_offset b) in
    (
      gives (take n (drop s.buffer_offset b)),
      advance n (length b) s,
      easy_read-buffer room s c cs ne
          ∙ read_buffer-part room s b (get_elem?-drop s.buffer_pos s.buffers b bs e) lt,
      ap (λ r. take n (drop s.buffer_offset b) ++ r) rest
          ∙ sym (
              append_assoc (take n (drop s.buffer_offset b)) (drop n (drop s.buffer_offset b))
                (concat bs))
          ∙ ap (λ r. r ++ concat bs) (take-append-drop n (drop s.buffer_offset b))
          ∙ sym (contents-at s b bs e (omega arith)),
      ok,
      same,
      omega (arith, size),
      (λ _. omega (arith, size)),
    )
