-- ===== src/Net/TcpSocket/Opening/Single.antt =====
-- A socket of lib/net/TcpSocket.cpp that is connected has one of its two descriptors open.
use reckoning.Common.{
  ℕ, Option, none, some, List, [], ◌≡◌, ◌⊎◌, inl, inr, refl, sym, subst, ◌∙◌, arith, ◌>>=◌,
  Option-cases, Bytes,
}
use reckoning.Net.TcpSocket.{
  Mode, plain, tls, Ssl, with_bio, without_bio, no_session, handshaking, connected, error, Socket,
  Answer, Flush, flush, close, change_state, end_write, process_write,
}
use reckoning.Net.TcpSocket.Sent.{Exit-cases}
use reckoning.Net.TcpSocket.Opening.{
  Family, v4, v6, other, fd_of, forget, succeeded, refused, Handshake, done, wants_write,
  wants_read, zero_return, fails, connect_tls, attached, attach_bio, opened, give_up,
  internal_connect,
}

-- The socket is not connected, or the family has the descriptor.
abbrev pub Has : Family → ℕ → Option (Socket × Bytes × List Answer) → Type 0
Has family fd none = Unit {0}
Has family fd (some (s, sent, left)) = s.state ≡ connected → fd_of family s ≡ some fd

-- `processWrite` keeps the descriptors unless it fails.
end_write-fds :
    (s : Socket) (fd : ℕ) (f : Flush)
    → ((end_write s fd f).state ≡ error)
      ⊎ (((end_write s fd f).fd4 ≡ s.fd4) × ((end_write s fd f).fd6 ≡ s.fd6))
unfolding end_write close change_state
end_write-fds s fd f = elim (Exit-cases f.exit) [
  | inl e ↦ inr (rw e (refl, refl))
  | inr (inl e) ↦ inr (rw e (refl, refl))
  | inr (inr e) ↦ inl (rw e refl)
]

end_write-Has :
    (s : Socket) (family : Family) (fd fd' : ℕ) (f : Flush) (left : List Answer)
    → fd_of family s ≡ some fd
    → Has family fd (some (end_write s fd' f, f.sent, left))
end_write-Has s v4 fd fd' f left h c = elim (end_write-fds s fd' f) [
  | inl e ↦ ground arith
  | inr e ↦ e.0 ∙ h
]
end_write-Has s v6 fd fd' f left h c = elim (end_write-fds s fd' f) [
  | inl e ↦ ground arith
  | inr e ↦ e.1 ∙ h
]

process_write-Has :
    (s : Socket) (family : Family) (fd fd' : ℕ) (answers : List Answer)
    → fd_of family s ≡ some fd
    → Has family fd (process_write s fd' answers)
unfolding process_write
process_write-Has s family fd fd' answers h =
    elim (Option-cases (flush s.mode answers s.write_offset s.write_wait s.pending_writes)) [
      | inl e ↦ rw e tt
      | inr (f, e) ↦ rw e (end_write-Has s family fd fd' f f.answers h)
    ]

connect_tls-Has :
    (s : Socket) (family : Family) (fd fd' : ℕ) (handshake : Handshake) (answers : List Answer)
    → fd_of family s ≡ some fd
    → s.state ≡ handshaking
    → Has family fd (connect_tls s fd' handshake answers)
unfolding connect_tls change_state close
connect_tls-Has s v4 fd fd' done answers h c = process_write-Has _ v4 fd fd' answers h
connect_tls-Has s v6 fd fd' done answers h c = process_write-Has _ v6 fd fd' answers h
connect_tls-Has s v4 fd fd' wants_write answers h c = λ _. h
connect_tls-Has s v6 fd fd' wants_write answers h c = λ _. h
connect_tls-Has s v4 fd fd' wants_read answers h c = λ _. h
connect_tls-Has s v6 fd fd' wants_read answers h c = λ _. h
connect_tls-Has s family fd fd' zero_return answers h c = λ e. ground arith
connect_tls-Has s family fd fd' fails answers h c = λ e. ground arith

attached-cases :
    (ssl : Ssl) (s : Socket)
    → (attached ssl s ≡ none) ⊎ (attached ssl s ≡ some (record s { ssl = with_bio }))
attached-cases no_session s = inl refl
attached-cases without_bio s = inr refl
attached-cases with_bio s = inl refl

handshake-Has :
    (s : Socket) (family : Family) (fd fd' : ℕ) (handshake : Handshake) (answers : List Answer)
    → fd_of family s ≡ some fd
    → s.state ≡ handshaking
    → Has family fd (attach_bio s >>= λ s'. connect_tls s' fd' handshake answers)
handshake-Has s v4 fd fd' handshake answers h c = elim (attached-cases s.ssl s) [
  | inl e ↦ rw e tt
  | inr e ↦ rw e (connect_tls-Has (record s { ssl = with_bio }) v4 fd fd' handshake answers h c)
]
handshake-Has s v6 fd fd' handshake answers h c = elim (attached-cases s.ssl s) [
  | inl e ↦ rw e tt
  | inr e ↦ rw e (connect_tls-Has (record s { ssl = with_bio }) v6 fd fd' handshake answers h c)
]

opened-Has :
    (mode : Mode) (s : Socket) (family : Family) (fd fd' : ℕ) (handshake : Handshake)
    (answers : List Answer)
    → fd_of family s ≡ some fd
    → Has family fd (opened mode s fd' handshake answers)
unfolding opened change_state
opened-Has plain s v4 fd fd' handshake answers h = process_write-Has _ v4 fd fd' answers h
opened-Has plain s v6 fd fd' handshake answers h = process_write-Has _ v6 fd fd' answers h
opened-Has tls s v4 fd fd' handshake answers h = handshake-Has _ v4 fd fd' handshake answers h refl
opened-Has tls s v6 fd fd' handshake answers h = handshake-Has _ v6 fd fd' handshake answers h refl

forget-kept :
    (family : Family) (s : Socket)
    → (fd_of family (forget (other family) s) ≡ fd_of family s)
      × (fd_of (other family) (forget (other family) s) ≡ none)
      × ((forget (other family) s).state ≡ s.state)
unfolding forget
forget-kept v4 s = (refl, refl, refl)
forget-kept v6 s = (refl, refl, refl)

-- The socket is not connected, or the family has the descriptor and the other family has none.
abbrev pub HasOnly : Family → ℕ → Option (Socket × Bytes × List Answer) → Type 0
HasOnly family fd none = Unit {0}
HasOnly family fd (some (s, sent, left)) =
    s.state ≡ connected → (fd_of family s ≡ some fd) × (fd_of (other family) s ≡ none)

closing-HasOnly :
    (family : Family) (fd : ℕ) (o : Option (Socket × Bytes × List Answer))
    → Has family fd o
    → HasOnly family fd (o >>= λ (s, sent, left). some (forget (other family) s, sent, left))
closing-HasOnly family fd none h = tt
closing-HasOnly family fd (some (s, sent, left)) h =
    let (k, o, e) = forget-kept family s in λ c. (k ∙ h (sym e ∙ c), o)

-- When a connection attempt succeeds at once, over TLS or not, and leaves the socket connected, the
-- descriptor of the attempt is open and that of the other family is not.
pub internal_connect-single :
    (family : Family) (fd : ℕ) (handshake : Handshake) (s s' : Socket) (sent : Bytes)
    (answers left : List Answer)
    → fd_of family s ≡ some fd
    → internal_connect succeeded family fd handshake s answers ≡ some (s', sent, left)
    → s'.state ≡ connected
    → (fd_of family s' ≡ some fd) × (fd_of (other family) s' ≡ none)
unfolding internal_connect
internal_connect-single family fd handshake s s' sent answers left h e c =
    subst (HasOnly family fd) e
      (closing-HasOnly family fd (opened s.mode s fd handshake answers)
        (opened-Has s.mode s family fd fd handshake answers h))
      c

give_up-none :
    (family : Family) (s : Socket)
    → ((give_up family none s).state ≡ error)
      × (fd_of family (give_up family none s) ≡ none)
      × (fd_of (other family) (give_up family none s) ≡ fd_of (other family) s)
unfolding give_up forget change_state
give_up-none v4 s = (refl, refl, refl)
give_up-none v6 s = (refl, refl, refl)

give_up-some :
    (family : Family) (fd : ℕ) (s : Socket)
    → ((give_up family (some fd) s).state ≡ s.state)
      × (fd_of family (give_up family (some fd) s) ≡ none)
      × (fd_of (other family) (give_up family (some fd) s) ≡ fd_of (other family) s)
unfolding give_up forget
give_up-some v4 fd s = (refl, refl, refl)
give_up-some v6 fd s = (refl, refl, refl)

-- When the attempt of one family is refused while that of the other is under way, the state stays
-- and the other's descriptor stays open; when that attempt is refused as well, the state is Error
-- and no descriptor is open.
pub internal_connect-refused :
    (family : Family) (fd fd' : ℕ) (handshake : Handshake) (s : Socket) (answers : List Answer)
    → fd_of (other family) s ≡ some fd'
    → (s' : Socket) × (s'' : Socket) × (internal_connect refused family fd handshake s answers
        ≡ some (s', [], answers))
      × (s'.state ≡ s.state)
      × (fd_of (other family) s' ≡ some fd')
      × (internal_connect refused (other family) fd' handshake s' answers ≡ some (s'', [], answers))
      × (s''.state ≡ error)
      × (fd_of v4 s'' ≡ none)
      × (fd_of v6 s'' ≡ none)
unfolding internal_connect
internal_connect-refused v4 fd fd' handshake s answers h =
    let (a, b, c) = give_up-some v4 fd' s in
    let s' : Socket = give_up v4 (some fd') s in
    let (d, e, f) = give_up-none v6 s' in
    (s', give_up v6 none s', rw h refl, a, c ∙ h, rw b refl, d, f ∙ b, e)
internal_connect-refused v6 fd fd' handshake s answers h =
    let (a, b, c) = give_up-some v6 fd' s in
    let s' : Socket = give_up v6 (some fd') s in
    let (d, e, f) = give_up-none v4 s' in
    (s', give_up v4 none s', rw h refl, a, c ∙ h, rw b refl, d, e, f ∙ b)
