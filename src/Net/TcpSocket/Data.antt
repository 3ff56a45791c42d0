-- ===== src/Net/TcpSocket/Data.antt =====
-- The buffers that `write` of lib/net/TcpSocket.cpp cuts data into.
use reckoning.Common.{
  ℕ, zero, suc, ◌-◌, ◌≤◌, false, some, List, [], ◌∷◌, ◌++◌, ◌≡◌, refl, sym, ap, ◌∙◌, arith, length,
  take, drop, concat, Bytes, append_assoc, append-nil, take-append-drop, length-drop,
}
use reckoning.Net.TcpSocket.{Answer, Socket, write, write_data, is_connected}
use reckoning.Net.TcpSocket.Sent.{concat-append}

-- The buffers that data is cut into.
pub chunks : ℕ → ℕ → Bytes → List Bytes
chunks size fuel [] = []
chunks size zero (x ∷ xs) = []
chunks size (suc fuel) (x ∷ xs) = take size (x ∷ xs) ∷ chunks size fuel (drop size (x ∷ xs))

concat-chunks :
    (size fuel : ℕ) (xs : Bytes) → length xs ≤ fuel → concat (chunks (suc size) fuel xs) ≡ xs
unfolding chunks
concat-chunks size fuel [] h = refl
concat-chunks size zero (x ∷ xs) h = ground arith
concat-chunks size (suc fuel) (x ∷ xs) h =
    let l : length (drop size xs) ≡ length xs - size = length-drop size xs in
    ap (λ l. x ∷ take size xs ++ l) (concat-chunks size fuel (drop size xs) (omega arith))
    ∙ ap (λ l. x ∷ l) (take-append-drop size xs)

write-waits :
    (s : Socket) (bytes : Bytes) (answers : List Answer)
    → is_connected s.state ≡ false
    → write s bytes answers
      ≡ some (record s { pending_writes = s.pending_writes ++ bytes ∷ [] }, [], answers)
unfolding write
write-waits s bytes answers c = rw c refl

write_data-chunks :
    (size fuel : ℕ) (s : Socket) (xs : Bytes) (answers : List Answer)
    → is_connected s.state ≡ false
    → length xs ≤ fuel
    → write_data (suc size) fuel s xs answers
      ≡ some
          (record s { pending_writes = s.pending_writes ++ chunks (suc size) fuel xs }, [], answers)
unfolding write_data chunks
write_data-chunks size fuel s [] answers c h =
    ap (λ l. some (record s { pending_writes = l }, [], answers))
      (sym (append-nil s.pending_writes))
write_data-chunks size zero s (x ∷ xs) answers c h = ground arith
write_data-chunks size (suc fuel) s (x ∷ xs) answers c h =
    let l : length (drop size xs) ≡ length xs - size = length-drop size xs in
    let s' : Socket = record s { pending_writes = s.pending_writes ++ (x ∷ take size xs) ∷ [] } in
    rw
      (
        write-waits s (x ∷ take size xs) answers c,
        write_data-chunks size fuel s' (drop size xs) answers c (omega arith),
      )
      (ap (λ l. some (record s { pending_writes = l }, [], answers))
        (append_assoc s.pending_writes ((x ∷ take size xs) ∷ [])
          (chunks (suc size) fuel (drop size xs))))

-- Data that is written before the socket is connected comes to wait in buffers behind what waits
-- already: nothing is handed to the connection yet, and the buffers hold the data, all of it and in
-- order.
pub write_data-waits :
    (size fuel : ℕ) (s : Socket) (xs : Bytes) (answers : List Answer)
    → is_connected s.state ≡ false
    → length xs ≤ fuel
    → (s' : Socket) × (write_data (suc size) fuel s xs answers ≡ some (s', [], answers))
      × (concat s'.pending_writes ≡ concat s.pending_writes ++ xs)
      × (s'.write_offset ≡ s.write_offset)
write_data-waits size fuel s xs answers c h = (
  record s { pending_writes = s.pending_writes ++ chunks (suc size) fuel xs },
  write_data-chunks size fuel s xs answers c h,
  concat-append s.pending_writes (chunks (suc size) fuel xs)
      ∙ ap (λ l. concat s.pending_writes ++ l) (concat-chunks size fuel xs h),
  refl,
)
