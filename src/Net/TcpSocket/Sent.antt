-- ===== src/Net/TcpSocket/Sent.antt =====
-- Which bytes `processWrite` and `write` of lib/net/TcpSocket.cpp hand to the connection.
use reckoning.Common.{
  ℕ, Option, none, some, List, [], ◌∷◌, ◌++◌, ◌≡◌, ◌⊎◌, inl, inr, refl, sym, ap, subst, ◌∙◌, arith,
  Option-cases, drop, concat, Bytes, append_assoc, append-nil,
}
use reckoning.Net.TcpSocket.{
  Mode, plain, SslWaitState, Answer, again, Exit, finished, blocked, broken, Flush, flush, Socket,
  close, change_state, end_write, process_write,
}
use reckoning.Net.TcpSocket.Writes.{
  remaining, Holds, Splits, flush-finished, flush-single, at_once, flush-at_once, flush-all,
}

pub Exit-cases : (e : Exit) → (e ≡ finished) ⊎ ((e ≡ blocked) ⊎ (e ≡ broken))
Exit-cases finished = inl refl
Exit-cases blocked = inr (inl refl)
Exit-cases broken = inr (inr refl)

end_write-finished :
    (s : Socket) (fd : ℕ) (f : Flush) → f.exit ≡ finished → (end_write s fd f).pending_writes ≡ []
unfolding end_write
end_write-finished s fd f e = rw e refl

-- A run that does not come to the end leaves all that was pending.
end_write-pending :
    (s : Socket) (fd : ℕ) (f : Flush)
    → (f.exit ≡ finished) ⊎ ((end_write s fd f).pending_writes ≡ s.pending_writes)
unfolding end_write close change_state
end_write-pending s fd f = elim (Exit-cases f.exit) [
  | inl e ↦ inl e
  | inr (inl e) ↦ inr (rw e refl)
  | inr (inr e) ↦ inr (rw e refl)
]

end_write-offset :
    (s : Socket) (fd : ℕ) (f : Flush) → (end_write s fd f).write_offset ≡ f.write_offset
unfolding end_write close change_state
end_write-offset s fd f = elim (Exit-cases f.exit) [
  | inl e ↦ rw e refl
  | inr (inl e) ↦ rw e refl
  | inr (inr e) ↦ rw e refl
]

-- What holds of the socket and of the bytes, if a run has a result.
abbrev Result : (Socket → Bytes → Type 0) → Option (Socket × Bytes × List Answer) → Type 0
Result P none = Unit {0}
Result P (some (s, sent, left)) = P s sent

flush-nil :
    (mode : Mode) (answers : List Answer) (off : ℕ) (w : SslWaitState)
    → Holds (λ f. (f.exit ≡ finished)) (flush mode answers off w [])
unfolding flush
flush-nil mode answers off w = refl

process_write-Result :
    (P : Socket → Bytes → Type 0) (s : Socket) (fd : ℕ) (answers : List Answer)
    → Holds
        (λ f. P (end_write s fd f) f.sent)
        (flush s.mode answers s.write_offset s.write_wait s.pending_writes)
    → Result P (process_write s fd answers)
unfolding process_write
process_write-Result P s fd answers h =
    elim (Option-cases (flush s.mode answers s.write_offset s.write_wait s.pending_writes)) [
      | inl e ↦ rw e tt
      | inr (f, e) ↦ rw e (subst (Holds (λ g. P (end_write s fd g) g.sent)) e h)
    ]

Holds-map :
    (P Q : Flush → Type 0) (o : Option Flush) → ((f : Flush) → P f → Q f) → Holds P o → Holds Q o
Holds-map P Q none k h = tt
Holds-map P Q (some f) k h = k f h

Holds-ap :
    (P Q R : Flush → Type 0) (o : Option Flush)
    → Holds (λ f. P f → Q f) o
    → Holds (λ f. Q f → R f) o
    → Holds (λ f. P f → R f) o
Holds-ap P Q R none h k = tt
Holds-ap P Q R (some f) h k = λ p. k (h p)

Splits-end :
    (s : Socket) (fd : ℕ) (b : Bytes) (f : Flush)
    → Splits b s.write_offset f
    → (end_write s fd f).pending_writes ≡ b ∷ []
    → f.sent ++ drop (end_write s fd f).write_offset b ≡ drop s.write_offset b
Splits-end s fd b f (inl x) p =
    let e : (end_write s fd f).pending_writes ≡ [] = end_write-finished s fd f x in ground arith
Splits-end s fd b f (inr e) p = rw (end_write-offset s fd f) e

pending-finished :
    (s : Socket) (fd : ℕ) (answers : List Answer)
    → Holds
        (λ f. (end_write s fd f).pending_writes ≡ [] → f.exit ≡ finished)
        (flush s.mode answers s.write_offset s.write_wait s.pending_writes)
pending-finished s fd answers =
    elim (Option-cases (flush s.mode answers s.write_offset s.write_wait s.pending_writes)) [
      | inl e ↦ rw e tt
      | inr (f, e) ↦ rw e (λ p. elim (end_write-pending s fd f) [
        | inl x ↦ x
        | inr q ↦
            subst (Holds (λ g. g.exit ≡ finished))
              (sym (ap (flush s.mode answers s.write_offset s.write_wait) (sym q ∙ p)) ∙ e)
              (flush-nil s.mode answers s.write_offset s.write_wait)
      ])
    ]

-- When `processWrite` leaves nothing pending, over TLS or not, it has handed the connection
-- exactly the bytes that were pending from the write offset on, in order, whatever parts they
-- were taken in.
pub process_write-finished :
    (s : Socket) (fd : ℕ) (answers left : List Answer) (s' : Socket) (sent : Bytes)
    → process_write s fd answers ≡ some (s', sent, left)
    → s'.pending_writes ≡ []
    → sent ≡ remaining s.write_offset s.pending_writes
process_write-finished s fd answers left s' sent e p =
    subst
      (Result
        (λ t bytes. t.pending_writes ≡ [] → bytes ≡ remaining s.write_offset s.pending_writes))
      e
      (process_write-Result
        (λ t bytes. t.pending_writes ≡ [] → bytes ≡ remaining s.write_offset s.pending_writes) s fd
        answers
        (Holds-ap (λ f. (end_write s fd f).pending_writes ≡ []) (λ f. f.exit ≡ finished)
          (λ f. f.sent ≡ remaining s.write_offset s.pending_writes)
          (flush s.mode answers s.write_offset s.write_wait s.pending_writes)
          (pending-finished s fd answers)
          (flush-finished s.mode answers s.write_offset s.write_wait s.pending_writes)))
      p

-- When one buffer is pending and `processWrite` leaves it pending, the bytes that it has handed
-- over and those from the new write offset on are those from the old write offset on: nothing is
-- lost and nothing is to be sent twice.
pub process_write-single :
    (s : Socket) (fd : ℕ) (answers left : List Answer) (s' : Socket) (b sent : Bytes)
    → s.pending_writes ≡ b ∷ []
    → process_write s fd answers ≡ some (s', sent, left)
    → s'.pending_writes ≡ b ∷ []
    → sent ++ drop s'.write_offset b ≡ drop s.write_offset b
process_write-single s fd answers left s' b sent single e p =
    subst
      (Result (λ t bytes.
        t.pending_writes ≡ b ∷ [] → bytes ++ drop t.write_offset b ≡ drop s.write_offset b))
      e
      (process_write-Result
        (λ t bytes.
          t.pending_writes ≡ b ∷ [] → bytes ++ drop t.write_offset b ≡ drop s.write_offset b)
        s fd answers
        (Holds-map (Splits b s.write_offset)
          (λ f.
            (end_write s fd f).pending_writes ≡ b ∷ []
            → f.sent ++ drop (end_write s fd f).write_offset b ≡ drop s.write_offset b)
          (flush s.mode answers s.write_offset s.write_wait s.pending_writes) (Splits-end s fd b)
          (rw single (flush-single s.mode answers s.write_offset s.write_wait b))))
      p

flush-blocked :
    (bs : List Bytes) (w : SslWaitState) (b : Bytes) (more : List Bytes)
    → flush plain (at_once bs ++ again ∷ []) 0 w (bs ++ b ∷ more)
      ≡ some (record {
        sent = concat bs;
        write_offset = 0;
        write_wait = w;
        exit = blocked;
        answers = [];
      })
unfolding flush
flush-blocked bs w b more =
    flush-at_once bs (b ∷ more) (again ∷ []) w
    ∙ ap
        (λ l.
          some
            (record { sent = l; write_offset = 0; write_wait = w; exit = blocked; answers = [] }))
        (append-nil (concat bs))

process_write-flush :
    (s : Socket) (fd : ℕ) (answers : List Answer) (f : Flush)
    → flush s.mode answers s.write_offset s.write_wait s.pending_writes ≡ some f
    → process_write s fd answers ≡ some (end_write s fd f, f.sent, f.answers)
unfolding process_write
process_write-flush s fd answers f e = rw e refl

pub concat-append : (xs ys : List Bytes) → concat (xs ++ ys) ≡ concat xs ++ concat ys
concat-append [] ys = refl
concat-append (x ∷ xs) ys =
    ap (λ l. x ++ l) (concat-append xs ys) ∙ sym (append_assoc x (concat xs) (concat ys))

-- When a plain connection takes the first buffers whole and then would block, `processWrite` keeps
-- those buffers pending at offset 0, so that the next run, if all goes through, hands them over a
-- second time.
pub process_write-resends :
    (s : Socket) (fd : ℕ) (bs more : List Bytes) (b : Bytes)
    → s.mode ≡ plain
    → s.write_offset ≡ 0
    → s.pending_writes ≡ bs ++ b ∷ more
    → (s' : Socket) × (s'' : Socket) × (process_write s fd (at_once bs ++ again ∷ [])
        ≡ some (s', concat bs, []))
      × (process_write s' fd (at_once (bs ++ b ∷ more))
          ≡ some (s'', concat bs ++ concat (b ∷ more), []))
unfolding end_write
process_write-resends s fd bs more b m o p =
    let w : SslWaitState = s.write_wait in
    let f : Flush = record {
      sent = concat bs;
      write_offset = 0;
      write_wait = w;
      exit = blocked;
      answers = [];
    } in
    let g : Flush = record {
      sent = concat (bs ++ b ∷ more);
      write_offset = 0;
      write_wait = w;
      exit = finished;
      answers = [];
    } in
    let s' : Socket = end_write s fd f in
    (
      s',
      end_write s' fd g,
      process_write-flush s fd (at_once bs ++ again ∷ []) f
          (rw (m, o, p) (flush-blocked bs w b more)),
      process_write-flush s' fd (at_once (bs ++ b ∷ more)) g
            (rw (m, p) (flush-all (bs ++ b ∷ more) w))
          ∙ ap (λ l. some (end_write s' fd g, l, [])) (concat-append bs (b ∷ more)),
    )
