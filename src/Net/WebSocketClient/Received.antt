-- ===== src/Net/WebSocketClient/Received.antt =====
-- What the receive callback of lib/net/WebSocketClient.cpp gives to wslay.
use reckoning.Common.{
  ℕ, zero, suc, ◌-◌, ◌≤◌, ◌<◌, min, ◌≡◌, refl, sym, ap, ap₂, ◌∙◌, true, false, Option, none, some,
  List, [], ◌∷◌, ◌++◌, leb, ◌==◌, length, take, drop, concat, Bytes, arith, Bool-cases, inl, inr,
  take_all, take-append_le,
}
use reckoning.Net.WebSocketClient.{WebSocket, gives, before, recv_loop, recv}

module _ {A : Type 0} where
  take-append_ge :
      (n : ℕ) → (xs ys : List A) → length xs ≤ n → take n (xs ++ ys) ≡ xs ++ take (n - length xs) ys
  take-append_ge n [] ys h = ap (λ k. take k ys) (omega arith)
  take-append_ge zero (x ∷ xs) ys h = absurd (omega arith)
  take-append_ge (suc n) (x ∷ xs) ys h =
      ap (λ r. x ∷ r)
        (take-append_ge n xs ys (omega arith) ∙ ap (λ k. xs ++ take k ys) (omega arith))

  drop-append_ge :
      (n : ℕ) → (xs ys : List A) → length xs ≤ n → drop n (xs ++ ys) ≡ drop (n - length xs) ys
  drop-append_ge n [] ys h = ap (λ k. drop k ys) (omega arith)
  drop-append_ge zero (x ∷ xs) ys h = absurd (omega arith)
  drop-append_ge (suc n) (x ∷ xs) ys h =
      drop-append_ge n xs ys (omega arith) ∙ ap (λ k. drop k ys) (omega arith)

  take-nil : (n : ℕ) → take {A = A} n [] ≡ []
  take-nil zero = refl
  take-nil (suc n) = refl

  drop-nil : (n : ℕ) → drop {A = A} n [] ≡ []
  drop-nil zero = refl
  drop-nil (suc n) = refl

-- What a loop from the beginning of a buffer comes to.
abbrev Gives : ℕ → List Bytes → Option (Bytes × ℕ × List Bytes) → Type 0
Gives room bs r =
    (offset : ℕ) × (bs' : List Bytes) × (r ≡ some (take room (concat bs), offset, bs'))
    × (drop offset (concat bs') ≡ drop room (concat bs))

recv_loop-whole :
    (room : ℕ)
    → (b : Bytes) → (bs : List Bytes) → length b ≤ suc room
    → recv_loop (suc room) 0 (b ∷ bs) ≡ before b (recv_loop (suc room - length b) 0 bs)
unfolding recv_loop
recv_loop-whole room b bs le =
    let n : min (suc room) (length b - 0) ≡ length b = omega arith in
    let e : take (length b) b ≡ b = take_all (length b) b (omega arith) in
    let all : (length b == length b) ≡ true = ground arith in rw n (rw (all, e))

recv_loop-part :
    (room offset : ℕ)
    → (b : Bytes) → (bs : List Bytes) → suc room ≤ length b - offset
    → suc room < length b
    → recv_loop (suc room) offset (b ∷ bs)
      ≡ some (take (suc room) (drop offset b), suc room, b ∷ bs)
unfolding recv_loop
recv_loop-part room offset b bs le lt =
    let n : min (suc room) (length b - offset) ≡ suc room = omega arith in
    let less : (suc room == length b) ≡ false = ground arith in
    let none_left : (suc room - suc room == 0) ≡ true = ground arith in rw n (rw (less, none_left))

-- A buffer that was read in part, where there is room for more than is left of it.
recv_loop-more :
    (room offset : ℕ)
    → (b : Bytes) → (bs : List Bytes) → 0 < offset
    → offset < length b
    → length b - offset < suc room
    → recv_loop (suc room) offset (b ∷ bs) ≡ none
unfolding recv_loop
recv_loop-more room offset b bs some_read in_it more =
    let n : min (suc room) (length b - offset) ≡ length b - offset = omega arith in
    let less : (length b - offset == length b) ≡ false = ground arith in
    let left : (suc room - (length b - offset) == 0) ≡ false = ground arith in
    rw n (rw (less, left))

recv_loop-Gives : (room : ℕ) → (bs : List Bytes) → Gives room bs (recv_loop room 0 bs)
recv_loop-Gives room [] = (
  0,
  [],
  unfold recv_loop in ap (λ r. some (r, 0, [])) (sym (take-nil room)),
  sym (drop-nil room),
)
recv_loop-Gives zero (b ∷ bs) = (0, b ∷ bs, unfold recv_loop in refl, refl)
recv_loop-Gives (suc room) (b ∷ bs) = elim (Bool-cases (leb (length b) (suc room))) [
  | inl h ↦
      let le : length b ≤ suc room = ground arith in
      let (offset, bs', run, left) = recv_loop-Gives (suc room - length b) bs in
      (
        offset,
        bs',
        recv_loop-whole room b bs le
            ∙ ap (before b) run
            ∙ ap (λ r. some (r, offset, bs')) (sym (take-append_ge (suc room) b (concat bs) le)),
        left ∙ sym (drop-append_ge (suc room) b (concat bs) le),
      )
  | inr h ↦
      let lt : suc room < length b = ground arith in
      (
        suc room,
        b ∷ bs,
        recv_loop-part room 0 b bs (omega arith) lt
            ∙ ap (λ r. some (r, suc room, b ∷ bs))
                (sym (take-append_le (suc room) b (concat bs) (omega arith))),
        refl,
      )
]

-- The bytes that came and that wslay has not been given.
abbrev pub contents : WebSocket → Bytes
contents s = drop s.buffer_offset (concat s.read_buffers)

recv-loop :
    (room : ℕ)
    → (s : WebSocket) → (b : Bytes) → (bs : List Bytes) → (x : Bytes) → (offset : ℕ)
    → (bs' : List Bytes) → s.has_tcp ≡ true
    → s.read_buffers ≡ b ∷ bs
    → recv_loop room s.buffer_offset s.read_buffers ≡ some (x, offset, bs')
    → recv room s ≡ some (gives x, record s { buffer_offset = offset; read_buffers = bs' })
unfolding recv
recv-loop room s b bs x offset bs' tcp e run = ground arith

recv-fault :
    (room : ℕ)
    → (s : WebSocket) → (b : Bytes) → (bs : List Bytes) → s.has_tcp ≡ true
    → s.read_buffers ≡ b ∷ bs
    → recv_loop room s.buffer_offset s.read_buffers ≡ none
    → recv room s ≡ none
unfolding recv
recv-fault room s b bs tcp e run = ground arith

-- Where no buffer was read in part, wslay gets the next bytes that came, as many as it has room
-- for or as there are, across buffers, and those behind them are left: for a client with a socket
-- and at least one buffer.
pub recv-gives :
    (room : ℕ)
    → (s : WebSocket) → (b : Bytes) → (bs : List Bytes) → s.has_tcp ≡ true
    → s.read_buffers ≡ b ∷ bs
    → s.buffer_offset ≡ 0
    → (s' : WebSocket) × (recv room s ≡ some (gives (take room (contents s)), s'))
      × (contents s' ≡ drop room (contents s))
recv-gives room s b bs tcp e at_start =
    let (offset, bs', run, left) = recv_loop-Gives room (b ∷ bs) in
    let same : concat (b ∷ bs) ≡ contents s = sym (ap₂ (λ o xs. drop o (concat xs)) at_start e) in
    (
      record s { buffer_offset = offset; read_buffers = bs' },
      recv-loop room s b bs (take room (contents s)) offset bs' tcp e
          (ap₂ (recv_loop room) at_start e ∙ run ∙ ap (λ r. some (take room r, offset, bs')) same),
      left ∙ ap (drop room) same,
    )

-- Where the first buffer was read in part, wslay gets the next bytes of it, if it has room for no
-- more than those, but the offset becomes their number instead of advancing by it; if it has room
-- for more, an assertion fails, even if more has come.
pub recv-partly :
    (room : ℕ)
    → (s : WebSocket) → (b : Bytes) → (bs : List Bytes) → s.has_tcp ≡ true
    → s.read_buffers ≡ b ∷ bs
    → 0 < s.buffer_offset
    → s.buffer_offset < length b
    → (suc room ≤ length b - s.buffer_offset
        → recv (suc room) s
          ≡ some (
            gives (take (suc room) (drop s.buffer_offset b)),
            record s { buffer_offset = suc room },
          ))
      × (length b - s.buffer_offset < suc room → recv (suc room) s ≡ none)
recv-partly room s b bs tcp e some_read in_it = (
  (λ le.
      recv-loop (suc room) s b bs (take (suc room) (drop s.buffer_offset b)) (suc room) (b ∷ bs) tcp
        e
        (ap (recv_loop (suc room) s.buffer_offset) e
          ∙ recv_loop-part room s.buffer_offset b bs le (omega arith))
      ∙ ap
          (λ xs. some (
            gives (take (suc room) (drop s.buffer_offset b)),
            record s { buffer_offset = suc room; read_buffers = xs },
          ))
          (sym e)),
  (λ more. recv-fault (suc room) s b bs tcp e (
      ap (recv_loop (suc room) s.buffer_offset) e
      ∙ recv_loop-more room s.buffer_offset b bs some_read in_it more)),
)
