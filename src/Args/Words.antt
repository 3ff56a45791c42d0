-- ===== src/Args/Words.antt =====
-- How the parser passes over the words of keys and values, and over words by themselves.
use reckoning.Common.{
  ℕ, ◌+◌, ◌-◌, ◌<◌, Bool, true, [], ◌∷◌, ◌++◌, append_assoc, append-nil, ◌≡◌, ◌≢◌, refl, sym, ap,
  ◌∙◌, arith, if◌then◌else◌, Bytes, length, take, drop, All, length-append,
}
use reckoning.Args.{bool, Args}
use reckoning.Args.Number.{guess_value}
use reckoning.Args.Parser.{
  State, normal, dash, dash_dash, value, freeform, freeform_only, Parser, ok, ◌>>=◌, slice,
  put_guess, on_end, on_byte, scan,
}
use reckoning.Args.Scan.{slice_middle, Quiet, scan_dash_dash, scan-Quiet_end, scan-Quiet, Ready}

module _ {D : Type 0} (strtod : Bytes → D × Bytes) where
  All-Quiet :
      (st : State) → st ≢ normal → st ≢ dash → st ≢ dash_dash → (cs : Bytes) → All (Quiet st) cs
  All-Quiet normal n d dd cs = absurd (n refl)
  All-Quiet dash n d dd cs = absurd (d refl)
  All-Quiet dash_dash n d dd cs = absurd (dd refl)
  All-Quiet value n d dd [] = tt
  All-Quiet value n d dd (c ∷ cs) = (tt, All-Quiet value n d dd cs)
  All-Quiet freeform n d dd [] = tt
  All-Quiet freeform n d dd (c ∷ cs) = (tt, All-Quiet freeform n d dd cs)
  All-Quiet freeform_only n d dd [] = tt
  All-Quiet freeform_only n d dd (c ∷ cs) = (tt, All-Quiet freeform_only n d dd cs)

  on_end-value :
      (v before : Bytes) (last : Bool) (off : ℕ) (word : Bytes) (k : ℕ) (p : Parser D)
      → 0 < length v
      → word ≡ before ++ v
      → k ≡ length before + length v
      → p.state ≡ value
      → p.prev ≡ length before
      → on_end strtod p.state last off word (k + 1) p
        ≡ ok (record p {
          prev = k + 1;
          state = normal;
          args = put_guess p.key (guess_value strtod v) p.args;
        })
  unfolding on_end
  on_end-value v before last off word k p nonempty w e s at = ground (arith, part)
    where
      part : slice word p.prev (k + 1) ≡ v
      part =
          ap (λ (t : Bytes). slice t p.prev (k + 1)) (w ∙ ap (◌++◌ before) (sym (append-nil v)))
          ∙ slice_middle before v [] p.prev (k + 1) (omega arith) (omega arith)

  -- Once a value is open, the rest of the word belongs to it.
  scan-value :
      (cs v before : Bytes) (last : Bool) (off : ℕ) (word : Bytes) (pos k : ℕ) (p : Parser D)
      → 0 < length v
      → word ≡ before ++ v
      → k ≡ length before + length v
      → k ≡ pos + length cs
      → 0 < pos
      → p.state ≡ value
      → p.prev ≡ length before
      → scan strtod cs last off word pos p
        ≡ ok (record p {
          prev = k + 1;
          state = normal;
          args = put_guess p.key (guess_value strtod v) p.args;
        })
  scan-value cs v before last off word pos k p nonempty w e f h s at =
      scan-Quiet_end strtod value cs last off word pos k p h
        (All-Quiet value (λ x. cc) (λ x. cc) (λ x. cc) cs) s f
      ∙ on_end-value v before last off word k p nonempty w e s at

  on_byte_equals :
      (off : ℕ) (word : Bytes) (pos : ℕ) (p : Parser D)
      → p.state ≡ dash_dash
      → on_byte strtod b'=' off word (pos + 1) p
        ≡ ok (record p { key = slice word p.prev (pos + 1); prev = pos + 1; state = value })
  unfolding on_byte
  on_byte_equals off word pos p s = ground arith

  scan_equals :
      (v : Bytes) (last : Bool) (off : ℕ) (word : Bytes) (pos : ℕ) (p : Parser D)
      → p.state ≡ dash_dash
      → scan strtod (b'=' ∷ v) last off word pos p
        ≡ scan strtod v last off word
            (pos + 1)
            (record p { key = slice word p.prev (pos + 1); prev = pos + 1; state = value })
  unfolding scan
  scan_equals v last off word pos p s =
      ap (λ m. m >>= scan strtod v last off word (pos + 1)) (on_byte_equals off word pos p s)

  -- A key and its value in one word.
  pub scan_assigned :
      (k v : Bytes) (last : Bool) (off : ℕ) (p : Parser D) (args : Args D)
      → Ready strtod args p
      → All (Quiet dash_dash) k
      → 0 < length v
      → let word = b'-' ∷ b'-' ∷ (k ++ (b'=' ∷ v)) in
        (p' : Parser D) × (scan strtod word last off word 0 p ≡ ok p')
        × (p'.state ≡ normal)
        × (p'.args ≡ put_guess k (guess_value strtod v) args)
  scan_assigned k v last off p args r q nonempty = (
    record (opened k) {
      prev = 2 + length k + 1 + length v + 1;
      state = normal;
      args = put_guess k (guess_value strtod v) args;
    },
    scan_dash_dash strtod (k ++ (b'=' ∷ v)) last off word p args r
        ∙ scan-Quiet strtod dash_dash k (b'=' ∷ v) last off word 2 (2 + length k) _ (omega arith) q
            refl refl
        ∙ scan_equals v last off word (2 + length k) _ refl
        ∙ ap (λ (t : Bytes). scan strtod v last off word (2 + length k + 1) (opened t)) part
        ∙ scan-value v v before last off word (2 + length k + 1) (2 + length k + 1 + length v)
            (opened k) nonempty
            (ap (λ (t : Bytes). b'-' ∷ b'-' ∷ t) (sym (append_assoc k (b'=' ∷ []) v)))
            (omega (arith, len)) refl (omega arith) refl (sym len),
    refl,
    refl,
  )
    where
      before : Bytes
      before = b'-' ∷ b'-' ∷ (k ++ (b'=' ∷ []))

      len : length before ≡ 2 + length k + 1
      len = omega (arith, length-append k (b'=' ∷ []))

      word : Bytes
      word = b'-' ∷ b'-' ∷ (k ++ (b'=' ∷ v))

      opened : Bytes → Parser D
      opened key = record p { key = key; prev = 2 + length k + 1; state = value; args = args }

      part : slice word 2 (2 + length k + 1) ≡ k
      part = slice_middle (b'-' ∷ b'-' ∷ []) k (b'=' ∷ v) 2 (2 + length k + 1) refl (omega arith)

  no_value : (word : Bytes) (a : ℕ) → guess_value strtod (slice word a (a + 1)) ≡ bool true
  no_value word a =
      ap (guess_value strtod)
        (let e : a + 1 - 1 - a ≡ 0 = omega arith in ap (λ (n : ℕ). take n (drop a word)) e)
      ∙ (unfold guess_value in refl)

  on_end_key :
      (k : Bytes) (last : Bool) (off : ℕ) (p : Parser D) (args : Args D)
      → 0 < length k
      → on_end strtod dash_dash last off
          (b'-' ∷ b'-' ∷ k)
          (2 + length k + 1)
          (record p { prev = 2; state = dash_dash; args = args })
        ≡ ok (record p {
          key = k;
          prev = 2 + length k + 1;
          state = if last then normal else value;
          args = if last then put_guess k (bool true) args else args;
        })
  unfolding on_end
  on_end_key k last off p args nonempty =
      ground (arith, part, no_value (b'-' ∷ b'-' ∷ k) (2 + length k + 1))
    where
      part : slice (b'-' ∷ b'-' ∷ k) 2 (2 + length k + 1) ≡ k
      part =
          ap (λ (t : Bytes). slice (b'-' ∷ b'-' ∷ t) 2 (2 + length k + 1)) (sym (append-nil k))
          ∙ slice_middle (b'-' ∷ b'-' ∷ []) k [] 2 (2 + length k + 1) refl (omega arith)

  -- A key alone: open for the next word, or true at the end.
  pub scan_key :
      (k : Bytes) (last : Bool) (off : ℕ) (p : Parser D) (args : Args D)
      → Ready strtod args p
      → All (Quiet dash_dash) k
      → 0 < length k
      → scan strtod (b'-' ∷ b'-' ∷ k) last off (b'-' ∷ b'-' ∷ k) 0 p
        ≡ ok (record p {
          key = k;
          prev = 2 + length k + 1;
          state = if last then normal else value;
          args = if last then put_guess k (bool true) args else args;
        })
  scan_key k last off p args r q nonempty =
      scan_dash_dash strtod k last off (b'-' ∷ b'-' ∷ k) p args r
      ∙ scan-Quiet_end strtod dash_dash k last off (b'-' ∷ b'-' ∷ k) 2 (2 + length k) _
          (omega arith) q refl refl
      ∙ on_end_key k last off p args nonempty

  first_of_value :
      (c off : ℕ) (word : Bytes) (p : Parser D)
      → c ≢ b'-'
      → p.state ≡ value
      → on_byte strtod c off word 1 (record p { prev = 0 }) ≡ ok (record p { prev = 0 })
  unfolding on_byte
  first_of_value c off word p ne s = ground arith

  first_of_free :
      (c off : ℕ) (word : Bytes) (p : Parser D)
      → c ≢ b'-'
      → c ≢ b'='
      → p.state ≡ normal
      → on_byte strtod c off word 1 (record p { prev = 0 })
        ≡ ok (record p { prev = 0; state = freeform })
  unfolding on_byte
  first_of_free c off word p nd ne s = ground arith

  -- A value in a word of its own, which begins with no dash.
  pub scan_separate :
      (c : ℕ) (v : Bytes) (last : Bool) (off : ℕ) (p : Parser D)
      → c ≢ b'-'
      → p.state ≡ value
      → (p' : Parser D) × (scan strtod (c ∷ v) last off (c ∷ v) 0 (record p { prev = 0 }) ≡ ok p')
        × (p'.state ≡ normal)
        × (p'.args ≡ put_guess p.key (guess_value strtod (c ∷ v)) p.args)
  unfolding scan
  scan_separate c v last off p ne s = (
    record p {
      prev = 1 + length v + 1;
      state = normal;
      args = put_guess p.key (guess_value strtod (c ∷ v)) p.args;
    },
    ap (λ m. m >>= scan strtod v last off (c ∷ v) 1) (first_of_value c off (c ∷ v) p ne s)
        ∙ scan-value v (c ∷ v) [] last off (c ∷ v) 1 (1 + length v) (record p { prev = 0 })
            (omega arith) refl (omega arith) refl (omega arith) s refl,
    refl,
    refl,
  )

  -- A word that is neither an option nor the value of one.
  pub scan_free :
      (c : ℕ) (v : Bytes) (last : Bool) (off : ℕ) (p : Parser D)
      → c ≢ b'-'
      → c ≢ b'='
      → p.state ≡ normal
      → (p' : Parser D) × (scan strtod (c ∷ v) last off (c ∷ v) 0 (record p { prev = 0 }) ≡ ok p')
        × (p'.state ≡ normal)
        × (p'.args ≡ record (p.args) { freeform = p.args.freeform ++ (c ∷ v) ∷ [] })
  unfolding scan
  scan_free c v last off p nd ne s = (
    record p {
      prev = 1 + length v + 1;
      state = normal;
      args = record (p.args) { freeform = p.args.freeform ++ (c ∷ v) ∷ [] };
    },
    ap (λ m. m >>= scan strtod v last off (c ∷ v) 1) (first_of_free c off (c ∷ v) p nd ne s)
        ∙ scan-Quiet_end strtod freeform v last off (c ∷ v) 1 (1 + length v)
            (record p { prev = 0; state = freeform }) (omega arith)
            (All-Quiet freeform (λ x. cc) (λ x. cc) (λ x. cc) v) refl refl
        ∙ (unfold on_end in
            ap
              (λ (t : Bytes). ok (record p {
                prev = 1 + length v + 1;
                state = normal;
                args = record (p.args) { freeform = p.args.freeform ++ t ∷ [] };
              }))
              part),
    refl,
    refl,
  )
    where
      part : slice (c ∷ v) 0 (1 + length v + 1) ≡ c ∷ v
      part =
          ap (λ (t : Bytes). slice (c ∷ t) 0 (1 + length v + 1)) (sym (append-nil v))
          ∙ slice_middle [] (c ∷ v) [] 0 (1 + length v + 1) refl (omega arith)
