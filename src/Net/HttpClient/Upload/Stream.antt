-- ===== src/Net/HttpClient/Upload/Stream.antt =====
-- Any sequence of writes and reads of HttpClient in lib/net/HttpClient.cpp.
use reckoning.Common.{
  ℕ, suc, ◌+◌, ◌<◌, ◌≡◌, refl, sym, ap, subst, ◌∙◌, inl, inr, true, false, Option, none, some, List,
  [], ◌∷◌, ◌++◌, append_assoc, append-nil, ◌>>=◌, length, drop, concat, All, length-append, Bytes,
  arith, Bool-cases,
}
use reckoning.Net.HttpClient.Upload.{Upload, resume, write, end_write, easy_read, read_buffer}
use reckoning.Net.HttpClient.Upload.Delivered.{
  contents, IsValid, drop-append_le, length-from, bytes_of, easy_read-Reads,
}

-- What is called on the client, and by libcurl.
pub data Operation : Type 0 where
  writes : Bytes → Operation
  ends : Operation
  reads : ℕ → Operation

-- The bytes that the reads give.
unfoldable pub run : List Operation → Upload → Option (Bytes × Upload)
unfolding write end_write easy_read
run [] s = some ([], s)
run (writes b ∷ ops) s = run ops (write b s)
run (ends ∷ ops) s = run ops (end_write s)
run (reads room ∷ ops) s = do
  (a, s') ← easy_read true room s
  (bytes, s'') ← run ops s'
  some (bytes_of a ++ bytes, s'')

abbrev pub written : List Operation → Bytes
written [] = []
written (writes b ∷ ops) = b ++ written ops
written (ends ∷ ops) = written ops
written (reads room ∷ ops) = written ops

-- No empty buffer is written, and libcurl has room for a byte.
abbrev pub IsProper : Operation → Type 0
IsProper (writes b) = 0 < length b
IsProper ends = Unit {0}
IsProper (reads room) = 0 < room

-- The state holds these bytes and is connected.
abbrev Has : Bytes → Upload → Type 0
Has bytes s = IsValid s × (contents s ≡ bytes) × (s.connected ≡ true)

resume-Has : (bytes : Bytes) → (s : Upload) → Has bytes s → Has bytes (resume s)
unfolding IsValid contents
resume-Has bytes s h = elim (Bool-cases s.paused) [
  | inl e ↦ subst (Has bytes) (sym (resumed e)) h
  | inr e ↦ subst (Has bytes) (sym (left e)) h
]
  where
    resumed : s.paused ≡ true → resume s ≡ record s { paused = false; resumed = suc s.resumed }
    resumed e = rw e

    left : s.paused ≡ false → resume s ≡ s
    left e = rw e

concat-snoc : (xs : List Bytes) → (b : Bytes) → concat (xs ++ b ∷ []) ≡ concat xs ++ b
concat-snoc [] b = append-nil b
concat-snoc (x ∷ xs) b = ap (λ ys. x ++ ys) (concat-snoc xs b) ∙ sym (append_assoc x (concat xs) b)

All-snoc :
    (xs : List Bytes)
    → (b : Bytes) → All (λ c. 0 < length c) xs
    → 0 < length b
    → All (λ c. 0 < length c) (xs ++ b ∷ [])
All-snoc [] b all lt = (lt, tt)
All-snoc (x ∷ xs) b (lt', all) lt = (lt', All-snoc xs b all lt)

appended-Has :
    (b : Bytes)
    → (s : Upload) → 0 < length b
    → IsValid s
    → s.connected ≡ true
    → Has (contents s ++ b) (record s { buffers = s.buffers ++ b ∷ [] })
unfolding IsValid contents
appended-Has b s lt (inl (e, p, o)) on =
    let e' : drop s.buffer_pos (s.buffers ++ b ∷ []) ≡ b ∷ [] = rw (e, p) in
    (
      inr (b, [], e', omega arith, tt),
      ap (λ xs. drop s.buffer_offset (concat xs)) e' ∙ rw (e, p, o) (append-nil b),
      on,
    )
appended-Has b s lt (inr (c, cs, e, lt', all)) on =
    let h : length s.buffers ≡ suc (s.buffer_pos + length cs) =
      length-from s.buffer_pos s.buffers c cs e in
    let e' : drop s.buffer_pos (s.buffers ++ b ∷ []) ≡ c ∷ (cs ++ b ∷ []) =
      drop-append_le s.buffer_pos s.buffers (b ∷ []) (omega arith) ∙ ap (λ xs. xs ++ b ∷ []) e in
    (
      inr (c, cs ++ b ∷ [], e', lt', All-snoc cs b all lt),
      ap (λ xs. drop s.buffer_offset (concat xs)) e'
          ∙ ap (drop s.buffer_offset) (concat-snoc (c ∷ cs) b)
          ∙ drop-append_le s.buffer_offset (c ++ concat cs) b
              (omega (arith, length-append c (concat cs)))
          ∙ ap (λ xs. drop s.buffer_offset (concat xs) ++ b) (sym e),
      on,
    )

write-Has :
    (b : Bytes)
    → (bytes : Bytes) → (s : Upload) → 0 < length b
    → Has bytes s
    → Has (bytes ++ b) (write b s)
unfolding write
write-Has b bytes s lt (ok, e, on) = subst (Has (bytes ++ b)) (sym (written_on on)) (
    subst (λ x. Has (x ++ b) (resume (record s { buffers = s.buffers ++ b ∷ [] }))) e
      (resume-Has (contents s ++ b) (record s { buffers = s.buffers ++ b ∷ [] })
        (appended-Has b s lt ok on)))
  where
    written_on :
        s.connected ≡ true → write b s ≡ resume (record s { buffers = s.buffers ++ b ∷ [] })
    written_on e = rw e

end_write-Has : (bytes : Bytes) → (s : Upload) → Has bytes s → Has bytes (end_write s)
unfolding end_write IsValid contents
end_write-Has bytes s (ok, e, on) =
    subst (Has bytes) (sym (ended on))
      (resume-Has bytes (record s { write_end = true }) (ok, e, on))
  where
    ended : s.connected ≡ true → end_write s ≡ resume (record s { write_end = true })
    ended e = rw e

-- For any sequence of writes, reads and an end of writing, on a connected client whose position
-- is in its buffers, no assertion fails, and the bytes that libcurl reads are those that were
-- waiting and then those written, in order, with what it has not read still waiting: if no empty
-- buffer is written and every read has room for a byte.
pub run-stream :
    (ops : List Operation)
    → (s : Upload) → All IsProper ops
    → IsValid s
    → s.connected ≡ true
    → (bytes : Bytes) × (s' : Upload) × (run ops s ≡ some (bytes, s'))
      × (bytes ++ contents s' ≡ contents s ++ written ops)
      × IsValid s'
unfolding run
run-stream [] s all ok on = ([], s, refl, sym (append-nil (contents s)), ok)
run-stream (writes b ∷ ops) s (lt, all) ok on =
    let (ok', e', on') = write-Has b (contents s) s lt (ok, refl, on) in
    let (bytes, s'', go, e, ok'') = run-stream ops (write b s) all ok' on' in
    (
      bytes,
      s'',
      go,
      e ∙ ap (λ x. x ++ written ops) e' ∙ append_assoc (contents s) b (written ops),
      ok'',
    )
run-stream (ends ∷ ops) s (_, all) ok on =
    let (ok', e', on') = end_write-Has (contents s) s (ok, refl, on) in
    let (bytes, s'', go, e, ok'') = run-stream ops (end_write s) all ok' on' in
    (bytes, s'', go, e ∙ ap (λ x. x ++ written ops) e', ok'')
run-stream (reads room ∷ ops) s (lt, all) ok on =
    let (a, s', read, e', ok', same, _, _) = easy_read-Reads room s lt ok in
    let (bytes, s'', go, e, ok'') = run-stream ops s' all ok' (same ∙ on) in
    (
      bytes_of a ++ bytes,
      s'',
      rw read (rw go),
      append_assoc (bytes_of a) bytes (contents s'')
          ∙ ap (λ x. bytes_of a ++ x) e
          ∙ sym (append_assoc (bytes_of a) (contents s') (written ops))
          ∙ ap (λ x. x ++ written ops) e',
      ok'',
    )

-- An empty buffer that is written to a connected client with nothing left to read fails an
-- assertion of the next read.
pub write-empty :
    (room : ℕ)
    → (s : Upload) → s.connected ≡ true
    → s.buffers ≡ []
    → s.buffer_pos ≡ 0
    → easy_read true room (write [] s) ≡ none
unfolding write easy_read read_buffer
write-empty room s on e p = ground arith
