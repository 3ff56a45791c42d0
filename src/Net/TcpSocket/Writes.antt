-- ===== src/Net/TcpSocket/Writes.antt =====
-- One run of the loop of `processWrite` in lib/net/TcpSocket.cpp.
use reckoning.Common.{
  ℕ, ◌+◌, ◌-◌, true, false, Option, none, some, List, [], ◌∷◌, ◌++◌, ◌≡◌, ◌⊎◌, inl, inr, refl, sym,
  ap, ◌∙◌, arith, ltb, Bool-cases, length, take, drop, concat, Bytes, take-append-drop, drop-drop,
  take_all, length-drop, append_assoc,
}
use reckoning.Net.TcpSocket.{
  Mode, plain, SslWaitState, Answer, wrote, Attempt, took, blocks, breaks, attempt, finished,
  blocked, broken, Flush, advance, sending, flush,
}

-- The bytes from the offset on in the buffers from the iterator on.
pub remaining : ℕ → List Bytes → Bytes
remaining off [] = []
remaining off (b ∷ bs) = drop off b ++ concat bs

pub remaining-zero : (bs : List Bytes) → remaining 0 bs ≡ concat bs
unfolding remaining
remaining-zero [] = refl
remaining-zero (b ∷ bs) = refl

remaining-advance :
    (n off : ℕ) (b : Bytes) (bs : List Bytes)
    → take n (drop off b) ++ remaining (advance n off b bs).0 (advance n off b bs).1
      ≡ remaining off (b ∷ bs)
unfolding advance remaining
remaining-advance n off b bs = elim (Bool-cases (ltb n (length b - off))) [
  | inl part ↦
      rw (part, sym (drop-drop off n (off + n) b (omega arith)))
        (sym (append_assoc (take n (drop off b)) (drop n (drop off b)) (concat bs))
          ∙ ap (λ l. l ++ concat bs) (take-append-drop n (drop off b)))
  | inr whole ↦
      let l : length (drop off b) ≡ length b - off = length-drop off b in
      rw (whole, take_all n (drop off b) (ground arith), remaining-zero bs) refl
]

-- What holds of a run, if there were answers enough for it.
abbrev pub Holds : (Flush → Type 0) → Option Flush → Type 0
Holds P none = Unit {0}
Holds P (some f) = P f

Holds-sending :
    (P Q : Flush → Type 0) (bytes : Bytes) (o : Option Flush)
    → ((f : Flush) → P f → Q (record f { sent = bytes ++ f.sent }))
    → Holds P o
    → Holds Q (sending bytes o)
Holds-sending P Q bytes none k h = tt
Holds-sending P Q bytes (some f) k h = k f h

Attempt-cases :
    (o : Option (Attempt × SslWaitState))
    → (o ≡ none)
      ⊎ (((n : ℕ) × (w : SslWaitState) × (o ≡ some (took n, w)))
          ⊎ (((w : SslWaitState) × (o ≡ some (blocks, w)))
              ⊎ ((w : SslWaitState) × (o ≡ some (breaks, w)))))
Attempt-cases none = inl refl
Attempt-cases (some (took n, w)) = inr (inl (n, w, refl))
Attempt-cases (some (blocks, w)) = inr (inr (inl (w, refl)))
Attempt-cases (some (breaks, w)) = inr (inr (inr (w, refl)))

flush-none :
    (mode : Mode) (a : Answer) (answers : List Answer) (off : ℕ) (w : SslWaitState) (b : Bytes)
    (bs : List Bytes)
    → attempt mode w a ≡ none
    → flush mode (a ∷ answers) off w (b ∷ bs) ≡ none
unfolding flush
flush-none mode a answers off w b bs e = rw (e, flush) refl

flush-took :
    (mode : Mode) (a : Answer) (answers : List Answer) (off : ℕ) (w w' : SslWaitState) (b : Bytes)
    (bs : List Bytes) (n : ℕ)
    → attempt mode w a ≡ some (took n, w')
    → flush mode (a ∷ answers) off w (b ∷ bs)
      ≡ sending
          (take n (drop off b))
          (flush mode answers (advance n off b bs).0 w' (advance n off b bs).1)
unfolding flush
flush-took mode a answers off w w' b bs n e = rw (e, flush) refl

flush-blocks :
    (mode : Mode) (a : Answer) (answers : List Answer) (off : ℕ) (w w' : SslWaitState) (b : Bytes)
    (bs : List Bytes)
    → attempt mode w a ≡ some (blocks, w')
    → flush mode (a ∷ answers) off w (b ∷ bs)
      ≡ some (record {
        sent = [];
        write_offset = off;
        write_wait = w';
        exit = blocked;
        answers = answers;
      })
unfolding flush
flush-blocks mode a answers off w w' b bs e = rw (e, flush) refl

flush-breaks :
    (mode : Mode) (a : Answer) (answers : List Answer) (off : ℕ) (w w' : SslWaitState) (b : Bytes)
    (bs : List Bytes)
    → attempt mode w a ≡ some (breaks, w')
    → flush mode (a ∷ answers) off w (b ∷ bs)
      ≡ some (record {
        sent = [];
        write_offset = off;
        write_wait = w';
        exit = broken;
        answers = answers;
      })
unfolding flush
flush-breaks mode a answers off w w' b bs e = rw (e, flush) refl

-- A run that comes to the end has written all that remained.
pub flush-finished :
    (mode : Mode) (answers : List Answer) (off : ℕ) (w : SslWaitState) (bs : List Bytes)
    → Holds (λ f. f.exit ≡ finished → f.sent ≡ remaining off bs) (flush mode answers off w bs)
unfolding flush
flush-finished mode answers off w [] = λ e. unfold remaining in refl
flush-finished mode [] off w (b ∷ bs) = tt
flush-finished mode (a ∷ answers) off w (b ∷ bs) = elim (Attempt-cases (attempt mode w a)) [
  | inl o ↦ rw (flush-none mode a answers off w b bs o) tt
  | inr (inl (n, w', o)) ↦ rw (flush-took mode a answers off w w' b bs n o) (
      Holds-sending
        (λ f. f.exit ≡ finished → f.sent ≡ remaining (advance n off b bs).0 (advance n off b bs).1)
        (λ f. f.exit ≡ finished → f.sent ≡ remaining off (b ∷ bs)) (take n (drop off b))
        (flush mode answers (advance n off b bs).0 w' (advance n off b bs).1)
        (λ f k e. ap (λ l. take n (drop off b) ++ l) (k e) ∙ remaining-advance n off b bs)
        (flush-finished mode answers (advance n off b bs).0 w' (advance n off b bs).1))
  | inr (inr (inl (w', o))) ↦ rw (flush-blocks mode a answers off w w' b bs o) (λ e. ground arith)
  | inr (inr (inr (w', o))) ↦ rw (flush-breaks mode a answers off w w' b bs o) (λ e. ground arith)
]

advance-part :
    (n off : ℕ) (b : Bytes) (bs : List Bytes)
    → ltb n (length b - off) ≡ true
    → advance n off b bs ≡ (off + n, b ∷ bs)
unfolding advance
advance-part n off b bs h = rw h refl

advance-whole :
    (n off : ℕ) (b : Bytes) (bs : List Bytes)
    → ltb n (length b - off) ≡ false
    → advance n off b bs ≡ (0, bs)
unfolding advance
advance-whole n off b bs h = rw h refl

-- What holds of one buffer that is not written to its end: the offset tells what of it remains.
abbrev pub Splits : Bytes → ℕ → Flush → Type 0
Splits b off f = (f.exit ≡ finished) ⊎ (f.sent ++ drop f.write_offset b ≡ drop off b)

Splits-more :
    (b : Bytes) (n off : ℕ) (f : Flush)
    → Splits b (off + n) f
    → Splits b off (record f { sent = take n (drop off b) ++ f.sent })
Splits-more b n off f (inl e) = inl e
Splits-more b n off f (inr e) = inr (
    append_assoc (take n (drop off b)) f.sent (drop f.write_offset b)
    ∙ ap (λ l. take n (drop off b) ++ l) (e ∙ sym (drop-drop off n (off + n) b refl))
    ∙ take-append-drop n (drop off b))

flush-end :
    (mode : Mode) (answers : List Answer) (off k : ℕ) (w : SslWaitState) (b bytes : Bytes)
    → Holds (Splits b off) (sending bytes (flush mode answers k w []))
unfolding flush
flush-end mode answers off k w b bytes = inl refl

pub flush-single :
    (mode : Mode) (answers : List Answer) (off : ℕ) (w : SslWaitState) (b : Bytes)
    → Holds (Splits b off) (flush mode answers off w (b ∷ []))
unfolding flush
flush-single mode [] off w b = tt
flush-single mode (a ∷ answers) off w b = elim (Attempt-cases (attempt mode w a)) [
  | inl o ↦ rw (flush-none mode a answers off w b [] o) tt
  | inr (inl (n, w', o)) ↦ elim (Bool-cases (ltb n (length b - off))) [
    | inl part ↦
        rw (flush-took mode a answers off w w' b [] n o, advance-part n off b [] part)
          (Holds-sending (Splits b (off + n)) (Splits b off) (take n (drop off b))
            (flush mode answers (off + n) w' (b ∷ [])) (Splits-more b n off)
            (flush-single mode answers (off + n) w' b))
    | inr whole ↦
        rw (flush-took mode a answers off w w' b [] n o, advance-whole n off b [] whole)
          (flush-end mode answers off 0 w' b (take n (drop off b)))
  ]
  | inr (inr (inl (w', o))) ↦ rw (flush-blocks mode a answers off w w' b [] o) (inr refl)
  | inr (inr (inr (w', o))) ↦ rw (flush-breaks mode a answers off w w' b [] o) (inr refl)
]

-- Answers that take each buffer at once.
pub at_once : List Bytes → List Answer
at_once [] = []
at_once (b ∷ bs) = wrote (length b) ∷ at_once bs

sending-sending :
    (xs ys : Bytes) (o : Option Flush) → sending xs (sending ys o) ≡ sending (xs ++ ys) o
sending-sending xs ys none = refl
sending-sending xs ys (some f) =
    ap (λ l. some (record f { sent = l })) (sym (append_assoc xs ys f.sent))

sending-nil : (o : Option Flush) → sending [] o ≡ o
sending-nil none = refl
sending-nil (some f) = refl

pub flush-at_once :
    (bs more : List Bytes) (answers : List Answer) (w : SslWaitState)
    → flush plain (at_once bs ++ answers) 0 w (bs ++ more)
      ≡ sending (concat bs) (flush plain answers 0 w more)
unfolding flush at_once
flush-at_once [] more answers w = sym (sending-nil _)
flush-at_once (b ∷ bs) more answers w =
    rw
      (
        advance-whole (length b) 0 b (bs ++ more) (ground arith),
        take_all (length b) b (omega arith),
        flush-at_once bs more answers w,
      )
      (sending-sending b (concat bs) (flush plain answers 0 w more))

pub flush-all :
    (bs : List Bytes) (w : SslWaitState)
    → flush plain (at_once bs) 0 w bs
      ≡ some (record {
        sent = concat bs;
        write_offset = 0;
        write_wait = w;
        exit = finished;
        answers = [];
      })
unfolding flush at_once
flush-all [] w = refl
flush-all (b ∷ bs) w =
    rw
      (
        advance-whole (length b) 0 b bs (ground arith),
        take_all (length b) b (omega arith),
        flush-all bs w,
      )
      refl
