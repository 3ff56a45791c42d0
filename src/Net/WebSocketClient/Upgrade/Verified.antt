-- ===== src/Net/WebSocketClient/Upgrade/Verified.antt =====
-- The upgrade of lib/net/WebSocketClient.cpp takes place if the server answers the right key.
use reckoning.Common.{
  ℕ, ◌+◌, ◌-◌, ◌≡◌, refl, sym, ap, ◌∙◌, ◌≢◌, ◌⊎◌, inl, inr, Bool, true, false, ◌&&◌, none, some, [],
  ◌∷◌, ◌++◌, ◌==◌, if◌then◌else◌, length, take, drop, take_all, Bytes, All, arith, Bool-cases,
  Option-cases,
}
use reckoning.Common.Maps.{◌=bytes◌, =bytes_iff}
use reckoning.Buffer.Wait.{memmem}
use reckoning.Util.Base64.{inflation}
use reckoning.Util.Base64.Reference.{reference, IsByte}
use reckoning.Util.Base64.Encoded.{encode-reference, length-reference}
use reckoning.Net.WebSocketClient.{WebSocket, merge, flush}
use reckoning.Net.WebSocketClient.Upgrade.Search.{find_accept-cases}
use reckoning.Net.WebSocketClient.Upgrade.{
  behind, absent, find_accept, magic, left, give_up, expected, verify, upgrade, attempt_merged,
  attempt_upgrade,
}

module _ (sha1 : Bytes → Bytes)
    (digests : (text : Bytes) → (length (sha1 text) ≡ 20) × All IsByte (sha1 text)) where
  -- The key that the server has to answer, in base 64.
  abbrev pub key_text : Bytes → Bytes
  key_text key = reference (sha1 (key ++ magic))

  length-key_text : (key : Bytes) → length (key_text key) ≡ 28
  unfolding inflation
  length-key_text key =
      length-reference (sha1 (key ++ magic)) ∙ ap inflation (digests (key ++ magic)).0

  expected-key_text : (key : Bytes) → expected sha1 key ≡ (28, key_text key)
  unfolding expected inflation
  expected-key_text key =
      elim (encode-reference (sha1 (key ++ magic)) 28 (digests (key ++ magic)).1) [
        | inl (fits, e) ↦ e ∙ ap (λ n. (inflation n, key_text key)) (digests (key ++ magic)).0
        | inr (small, e) ↦
            let size : inflation (length (sha1 (key ++ magic))) ≡ 28 =
              ap inflation (digests (key ++ magic)).0 in
            absurd (omega arith)
      ]

  -- The key was compared: the client is upgraded and writes what waits, or lets the socket go.
  abbrev pub Verifies : Bytes → Bytes → WebSocket → WebSocket → Type 0
  Verifies key accept s s' =
      ((accept ≡ key_text key) × (s' ≡ flush (record s { upgraded = true })))
      ⊎ ((accept ≢ key_text key) × (s' ≡ give_up s))

  unfoldable pub same_key : (key accept : Bytes) → Bool
  same_key key accept = 28 == length accept && key_text key =bytes take 28 accept

  pub same_key_iff :
      (key accept : Bytes)
      → (same_key key accept ≡ true → accept ≡ key_text key)
        × (same_key key accept ≡ false → accept ≢ key_text key)
  unfolding same_key
  same_key_iff key accept = (
    (λ e.
        let size : length accept ≡ 28 = ground arith in
        let text : (key_text key =bytes take 28 accept) ≡ true = ground arith in
        sym
          ((=bytes_iff (key_text key) (take 28 accept)).0 text ∙ take_all 28 accept (omega arith))),
    (λ e same.
        let size : length accept ≡ 28 = ap length same ∙ length-key_text key in
        let text : (key_text key =bytes take 28 accept) ≡ true =
          (=bytes_iff (key_text key) (take 28 accept)).1
            (sym (take_all 28 accept (omega arith) ∙ same)) in
        ground arith),
  )

  pub verify-key :
      (key accept : Bytes)
      → (s : WebSocket)
      → verify sha1 key accept s
        ≡ some (if same_key key accept then flush (record s { upgraded = true }) else give_up s)
  unfolding verify same_key
  verify-key key accept s = rw (expected-key_text key) refl

  verify-Verifies :
      (key accept : Bytes)
      → (s : WebSocket)
      → (s' : WebSocket) × (verify sha1 key accept s ≡ some s') × Verifies key accept s s'
  verify-Verifies key accept s = elim (Bool-cases (same_key key accept)) [
    | inl e ↦ (
      flush (record s { upgraded = true }),
      verify-key key accept s ∙ rw e,
      inl ((same_key_iff key accept).0 e, refl),
    )
    | inr e ↦ (give_up s, verify-key key accept s ∙ rw e, inr ((same_key_iff key accept).1 e, refl))
  ]

  -- The answer has no key, or the key behind its header line was compared.
  abbrev pub Answers : Bytes → Bytes → ℕ → WebSocket → WebSocket → Type 0
  Answers key buffer size s s' =
      (s' ≡ give_up s)
      ⊎ ((rest : Bytes) × (end : ℕ) × (find_accept (take size buffer) ≡ behind rest)
          × (memmem (drop (size - length rest) buffer) (13 ∷ 10 ∷ []) ≡ some end)
          × Verifies key (take end (drop (size - length rest) buffer))
              (record s { read_buffers = left size buffer }) s')

  upgrade-absent :
      (key buffer : Bytes)
      → (size : ℕ) → (s : WebSocket) → find_accept (take size buffer) ≡ absent
      → upgrade sha1 key buffer size s ≡ some (give_up s)
  unfolding upgrade
  upgrade-absent key buffer size s e = rw (e, upgrade) refl

  upgrade-endless :
      (key buffer : Bytes)
      → (size : ℕ) → (s : WebSocket) → (rest : Bytes) → find_accept (take size buffer) ≡ behind rest
      → memmem (drop (size - length rest) buffer) (13 ∷ 10 ∷ []) ≡ none
      → upgrade sha1 key buffer size s ≡ some (give_up s)
  unfolding upgrade
  upgrade-endless key buffer size s rest e e' = rw (e, upgrade, e') refl

  pub upgrade-verify :
      (key buffer : Bytes)
      → (size : ℕ) → (s : WebSocket) → (rest : Bytes) → (end : ℕ)
      → find_accept (take size buffer) ≡ behind rest
      → memmem (drop (size - length rest) buffer) (13 ∷ 10 ∷ []) ≡ some end
      → upgrade sha1 key buffer size s
        ≡ verify sha1 key
            (take end (drop (size - length rest) buffer))
            (record s { read_buffers = left size buffer })
  unfolding upgrade
  upgrade-verify key buffer size s rest end e e' = rw (e, upgrade, e') refl

  upgrade-Answers :
      (key buffer : Bytes)
      → (size : ℕ) → (s : WebSocket)
      → (s' : WebSocket) × (upgrade sha1 key buffer size s ≡ some s') × Answers key buffer size s s'
  upgrade-Answers key buffer size s = elim (find_accept-cases (take size buffer)) [
    | inl e ↦ (give_up s, upgrade-absent key buffer size s e, inl refl)
    | inr (rest, e) ↦
        elim (Option-cases (memmem (drop (size - length rest) buffer) (13 ∷ 10 ∷ []))) [
          | inl e' ↦ (give_up s, upgrade-endless key buffer size s rest e e', inl refl)
          | inr (end, e') ↦
              let accept : Bytes = take end (drop (size - length rest) buffer) in
              let (s', run, ok) =
                verify-Verifies key accept (record s { read_buffers = left size buffer }) in
              (s', upgrade-verify key buffer size s rest end e e' ∙ run, inr (rest, end, e, e', ok))
        ]
  ]

  pub attempt_upgrade-one :
      (memory key b : Bytes)
      → (s : WebSocket) → s.read_buffers ≡ b ∷ []
      → attempt_upgrade sha1 memory key s
        ≡ attempt_merged sha1 key (b ∷ []) (record s { read_buffers = b ∷ [] })
  unfolding attempt_upgrade merge
  attempt_upgrade-one memory key b s e =
      ap
        (λ bs.
          attempt_merged sha1 key (merge memory bs) (record s { read_buffers = merge memory bs }))
        e

  attempt-none :
      (key b : Bytes)
      → (s : WebSocket) → memmem b (13 ∷ 10 ∷ 13 ∷ 10 ∷ []) ≡ none
      → attempt_merged sha1 key (b ∷ []) s ≡ some s
  unfolding attempt_merged
  attempt-none key b s e = rw (e, attempt_merged) refl

  pub attempt-some :
      (key b : Bytes)
      → (s : WebSocket) → (at : ℕ) → memmem b (13 ∷ 10 ∷ 13 ∷ 10 ∷ []) ≡ some at
      → attempt_merged sha1 key (b ∷ []) s ≡ upgrade sha1 key b (at + 4) s
  unfolding attempt_merged
  attempt-some key b s at e = rw (e, attempt_merged) refl

  -- The answer to the upgrade request that has come in one buffer: as long as its header has no
  -- end, nothing changes; then the client is upgraded, keeps what is behind the header and writes
  -- what waits, if the header has a line with the base 64 text of the digest of the key sent, and
  -- otherwise lets the socket and wslay go. No assertion fails. It holds for a digest of 20
  -- bytes, as SHA-1 gives.
  pub attempt_upgrade-Answers :
      (memory key b : Bytes)
      → (s : WebSocket) → s.read_buffers ≡ b ∷ []
      → (s' : WebSocket) × (attempt_upgrade sha1 memory key s ≡ some s')
        × (((memmem b (13 ∷ 10 ∷ 13 ∷ 10 ∷ []) ≡ none) × (s' ≡ record s { read_buffers = b ∷ [] }))
            ⊎ ((at : ℕ) × (memmem b (13 ∷ 10 ∷ 13 ∷ 10 ∷ []) ≡ some at)
                × Answers key b (at + 4) (record s { read_buffers = b ∷ [] }) s'))
  attempt_upgrade-Answers memory key b s e =
      elim (Option-cases (memmem b (13 ∷ 10 ∷ 13 ∷ 10 ∷ []))) [
        | inl e' ↦ (
          record s { read_buffers = b ∷ [] },
          attempt_upgrade-one memory key b s e
              ∙ attempt-none key b (record s { read_buffers = b ∷ [] }) e',
          inl (e', refl),
        )
        | inr (at, e') ↦
            let (s', run, ok) =
              upgrade-Answers key b (at + 4) (record s { read_buffers = b ∷ [] }) in
            (
              s',
              attempt_upgrade-one memory key b s e
                  ∙ attempt-some key b (record s { read_buffers = b ∷ [] }) at e'
                  ∙ run,
              inr (at, e', ok),
            )
      ]
