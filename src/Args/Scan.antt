-- ===== src/Args/Scan.antt =====
-- How the parser passes over the bytes of a word, and over a word of flags.
use reckoning.Common.{
  ℕ, ◌+◌, ◌-◌, ◌<◌, Bool, true, [], ◌∷◌, ◌++◌, append-nil, ◌≡◌, ◌≢◌, refl, sym, ap, ◌∙◌, arith,
  Bytes, length, take, All, take-append, drop-append,
}
use reckoning.Args.{bool, Args}
use reckoning.Args.Number.{guess_value}
use reckoning.Args.Parser.{
  State, normal, dash, dash_dash, value, freeform, freeform_only, Parser, ok, ◌>>=◌, slice,
  put_letters, put_guess, on_dash, on_end, on_byte, scan,
}

-- A part of a word, between the offsets that `add` is given.
pub slice_middle :
    (before middle after : Bytes) (start stop : ℕ)
    → start ≡ length before
    → stop ≡ length before + length middle + 1
    → slice (before ++ (middle ++ after)) start stop ≡ middle
slice_middle before middle after start stop e f =
    ap (take (stop - 1 - start)) (drop-append start before (middle ++ after) e)
    ∙ take-append (stop - 1 - start) middle after (omega arith)

-- The bytes behind the first that leave the machine where it is.
abbrev pub Quiet : State → ℕ → Type 0
Quiet dash c = (c ≢ b'-') × (c ≢ b'=')
Quiet dash_dash c = c ≢ b'='
Quiet normal c = ⊥
Quiet _ c = Unit {0}

module _ {D : Type 0} (strtod : Bytes → D × Bytes) where
  on_byte-Quiet :
      (st : State) (c off : ℕ) (word : Bytes) (pos : ℕ) (p : Parser D)
      → 0 < pos
      → Quiet st c
      → p.state ≡ st
      → on_byte strtod c off word (pos + 1) p ≡ ok p
  unfolding on_byte
  on_byte-Quiet normal c off word pos p h q e = absurd q
  on_byte-Quiet dash c off word pos p h q e = ground arith
  on_byte-Quiet dash_dash c off word pos p h q e = ground arith
  on_byte-Quiet value c off word pos p h q e = ground arith
  on_byte-Quiet freeform c off word pos p h q e = ground arith
  on_byte-Quiet freeform_only c off word pos p h q e = ground arith

  pub scan-Quiet :
      (st : State) (cs rest : Bytes) (last : Bool) (off : ℕ) (word : Bytes) (pos k : ℕ)
      (p : Parser D)
      → 0 < pos
      → All (Quiet st) cs
      → p.state ≡ st
      → k ≡ pos + length cs
      → scan strtod (cs ++ rest) last off word pos p ≡ scan strtod rest last off word k p
  unfolding scan
  scan-Quiet st [] rest last off word pos k p h q e f =
      ap (λ (n : ℕ). scan strtod rest last off word n p) (omega arith)
  scan-Quiet st (c ∷ cs) rest last off word pos k p h q e f =
      rw (on_byte-Quiet st c off word pos p h q.0 e)
        (scan-Quiet st cs rest last off word (pos + 1) k p (omega arith) q.1 e (omega arith))

  pub scan-Quiet_end :
      (st : State) (cs : Bytes) (last : Bool) (off : ℕ) (word : Bytes) (pos k : ℕ) (p : Parser D)
      → 0 < pos
      → All (Quiet st) cs
      → p.state ≡ st
      → k ≡ pos + length cs
      → scan strtod cs last off word pos p ≡ on_end strtod p.state last off word (k + 1) p
  scan-Quiet_end st cs last off word pos k p h q e f =
      ap (λ (t : Bytes). scan strtod t last off word pos p) (sym (append-nil cs))
      ∙ scan-Quiet st cs [] last off word pos k p h q e f
      ∙ (unfold scan in refl)

  -- Where a word that begins with a dash may stand, and the arguments once the dash is read: with
  -- no option open, behind a key that still has no value, or behind "--".
  pub data Ready (args : Args D) (p : Parser D) : Type 0 where
    settled : p.state ≡ normal → p.args ≡ args → Ready args p
    pending : p.state ≡ value → put_guess p.key (bool true) p.args ≡ args → Ready args p
    only : p.state ≡ freeform_only → put_guess p.key (bool true) p.args ≡ args → Ready args p

  on_dash-Ready :
      (off : ℕ) (word : Bytes) (p : Parser D) (args : Args D)
      → Ready args p
      → on_dash strtod p.state off word 1 p ≡ ok (record p { prev = 1; state = dash; args = args })
  unfolding on_dash guess_value
  on_dash-Ready off word p args (settled s a) = ground arith
  on_dash-Ready off word p args (pending s a) = ground arith
  on_dash-Ready off word p args (only s a) = ground arith

  -- A dash at the front of a word gives an open key the value true, and opens an option.
  pub scan_dash :
      (rest : Bytes) (last : Bool) (off : ℕ) (word : Bytes) (p : Parser D) (args : Args D)
      → Ready args p
      → scan strtod (b'-' ∷ rest) last off word 0 p
        ≡ scan strtod rest last off word 1 (record p { prev = 1; state = dash; args = args })
  unfolding scan on_byte
  scan_dash rest last off word p args r =
      ap (λ m. m >>= scan strtod rest last off word 1) (on_dash-Ready off word p args r)

  -- The second dash.
  pub scan_dash_dash :
      (rest : Bytes) (last : Bool) (off : ℕ) (word : Bytes) (p : Parser D) (args : Args D)
      → Ready args p
      → scan strtod (b'-' ∷ b'-' ∷ rest) last off word 0 p
        ≡ scan strtod rest last off word 2 (record p { prev = 2; state = dash_dash; args = args })
  scan_dash_dash rest last off word p args r =
      scan_dash (b'-' ∷ rest) last off word p args r ∙ (unfold scan on_byte in refl)

  -- A word of flags.
  pub scan_flags :
      (ls : Bytes) (last : Bool) (off : ℕ) (p : Parser D) (args : Args D)
      → Ready args p
      → All (Quiet dash) ls
      → (p' : Parser D) × (scan strtod (b'-' ∷ ls) last off (b'-' ∷ ls) 0 p ≡ ok p')
        × (p'.state ≡ normal)
        × (p'.args ≡ put_letters ls args)
  scan_flags ls last off p args r q = (
    record p { prev = 1 + length ls + 1; state = normal; args = put_letters ls args },
    scan_dash ls last off (b'-' ∷ ls) p args r
        ∙ scan-Quiet_end dash ls last off (b'-' ∷ ls) 1 (1 + length ls) _ (omega arith) q refl refl
        ∙ (unfold on_end in
            ap
              (λ (t : Bytes).
                ok (record p {
                  prev = 1 + length ls + 1;
                  state = normal;
                  args = put_letters t args;
                }))
              part),
    refl,
    refl,
  )
    where
      part : slice (b'-' ∷ ls) 1 (1 + length ls + 1) ≡ ls
      part =
          ap (λ (t : Bytes). slice (b'-' ∷ t) 1 (1 + length ls + 1)) (sym (append-nil ls))
          ∙ slice_middle (b'-' ∷ []) ls [] 1 (1 + length ls + 1) refl (omega arith)
