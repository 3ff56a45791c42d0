-- ===== src/Args/Grammar.antt =====
-- Command lines as lists of options, what they mean, and that `parse` gives their meaning.
use reckoning.Common.{
  ℕ, ◌+◌, ◌<◌, true, false, List, [], ◌∷◌, ◌++◌, ◌≡◌, ◌≢◌, refl, ap, ◌∙◌, Bytes, length, All,
}
use reckoning.Args.{bool, Args, no_args}
use reckoning.Args.Number.{guess_value}
use reckoning.Args.Parser.{
  normal, dash, dash_dash, value, Parser, Result, ok, ◌>>=◌, put_letters, put_guess, scan, words,
  is_last, start, parse,
}
use reckoning.Args.Scan.{Quiet, Ready, settled, pending, only, scan_flags}
use reckoning.Args.Words.{scan_assigned, scan_key, scan_separate, scan_free}

pub data Opt : Type 0 where
  -- -abc
  flags : Bytes → Opt
  -- --key=value
  assigned : Bytes → Bytes → Opt
  -- --key value
  separate : Bytes → ℕ → Bytes → Opt
  -- --key, before another option or at the end
  bare : Bytes → Opt
  -- a word by itself
  free : ℕ → Bytes → Opt

abbrev pub render : Opt → List Bytes
render (flags ls) = (b'-' ∷ ls) ∷ []
render (assigned k v) = (b'-' ∷ b'-' ∷ (k ++ (b'=' ∷ v))) ∷ []
render (separate k c v) = (b'-' ∷ b'-' ∷ k) ∷ (c ∷ v) ∷ []
render (bare k) = (b'-' ∷ b'-' ∷ k) ∷ []
render (free c v) = (c ∷ v) ∷ []

abbrev pub render_all : List Opt → List Bytes
render_all [] = []
render_all (o ∷ os) = render o ++ render_all os

abbrev pub BeginsWithDash : List Opt → Type 0
BeginsWithDash [] = Unit {0}
BeginsWithDash (free c v ∷ os) = ⊥
BeginsWithDash (o ∷ os) = Unit {0}

-- Keys and flags hold no byte that the machine takes for the end of them.
abbrev pub IsOption : Opt → List Opt → Type 0
IsOption (flags ls) os = All (Quiet dash) ls
IsOption (assigned k v) os = All (Quiet dash_dash) k × (0 < length v)
IsOption (separate k c v) os = All (Quiet dash_dash) k × (0 < length k) × (c ≢ b'-')
IsOption (bare k) os = All (Quiet dash_dash) k × (0 < length k) × BeginsWithDash os
IsOption (free c v) os = (c ≢ b'-') × (c ≢ b'=')

abbrev pub IsCommandLine : List Opt → Type 0
IsCommandLine [] = Unit {0}
IsCommandLine (o ∷ os) = IsOption o os × IsCommandLine os

module _ {D : Type 0} (strtod : Bytes → D × Bytes) where
  -- What an option adds to the arguments.
  unfoldable pub effect : Opt → Args D → Args D
  effect (flags ls) args = put_letters ls args
  effect (assigned k v) args = put_guess k (guess_value strtod v) args
  effect (separate k c v) args = put_guess k (guess_value strtod (c ∷ v)) args
  effect (bare k) args = put_guess k (bool true) args
  effect (free c v) args = record args { freeform = args.freeform ++ (c ∷ v) ∷ [] }

  unfoldable pub effects : List Opt → Args D → Args D
  unfolding effect
  effects [] args = args
  effects (o ∷ os) args = effects os (effect o args)

  -- A key may be open only where an option or nothing follows.
  abbrev Waits : Args D → Parser D → List Opt → Type 0
  Waits args p [] = (p.state ≡ normal) × (p.args ≡ args)
  Waits args p (free c v ∷ os) = (p.state ≡ normal) × (p.args ≡ args)
  Waits args p (o ∷ os) = Ready strtod args p

  Waits-settled :
      (args : Args D) (p : Parser D) (os : List Opt)
      → p.state ≡ normal
      → p.args ≡ args
      → Waits args p os
  Waits-settled args p [] s a = (s, a)
  Waits-settled args p (flags ls ∷ os) s a = settled s a
  Waits-settled args p (assigned k v ∷ os) s a = settled s a
  Waits-settled args p (separate k c v ∷ os) s a = settled s a
  Waits-settled args p (bare k ∷ os) s a = settled s a
  Waits-settled args p (free c v ∷ os) s a = (s, a)

  Waits-pending :
      (args : Args D) (p : Parser D) (os : List Opt)
      → os ≢ []
      → BeginsWithDash os
      → p.state ≡ value
      → put_guess p.key (bool true) p.args ≡ args
      → Waits args p os
  Waits-pending args p [] ne b s a = absurd (ne refl)
  Waits-pending args p (flags ls ∷ os) ne b s a = pending s a
  Waits-pending args p (assigned k v ∷ os) ne b s a = pending s a
  Waits-pending args p (separate k c v ∷ os) ne b s a = pending s a
  Waits-pending args p (bare k ∷ os) ne b s a = pending s a
  Waits-pending args p (free c v ∷ os) ne b s a = absurd b

  Ready-prev :
      {args : Args D} {p : Parser D}
      → Ready strtod args p
      → Ready strtod args (record p { prev = 0 })
  Ready-prev (settled s a) = settled s a
  Ready-prev (pending s a) = pending s a
  Ready-prev (only s a) = only s a

  is_last-render_all : (o : Opt) (os : List Opt) → is_last strtod (render_all (o ∷ os)) ≡ false
  unfolding is_last
  is_last-render_all (flags ls) os = refl
  is_last-render_all (assigned k v) os = refl
  is_last-render_all (separate k c v) os = refl
  is_last-render_all (bare k) os = refl
  is_last-render_all (free c v) os = refl

  -- A word that the machine takes from `p` to `p'`, and what follows it.
  pub words-cons :
      (w : Bytes) (ws : List Bytes) (off : ℕ) (p p' : Parser D) (r : Result (Parser D))
      → scan strtod w (is_last strtod ws) off w 0 (record p { prev = 0 }) ≡ ok p'
      → words strtod ws (off + length w + 1) p' ≡ r
      → words strtod (w ∷ ws) off p ≡ r
  unfolding words
  words-cons w ws off p p' r e f = ap (λ m. m >>= words strtod ws (off + length w + 1)) e ∙ f

  pub words-nil : (off : ℕ) (p : Parser D) → words strtod [] off p ≡ ok p
  unfolding words
  words-nil off p = refl

  Runs : List Bytes → ℕ → Parser D → Args D → Type 0
  Runs ws off p args = (p' : Parser D) × (words strtod ws off p ≡ ok p') × (p'.args ≡ args)

  abbrev opened : Bytes → Parser D → Args D → Parser D
  opened k p args = record p { state = value; key = k; prev = 2 + length k + 1; args = args }

  words-effects :
      (os : List Opt) (off : ℕ) (p : Parser D) (args : Args D)
      → IsCommandLine os
      → Waits args p os
      → Runs (render_all os) off p (effects os args)
  unfolding effects Runs is_last
  words-effects [] off p args line w = (p, words-nil off p, w.1)
  words-effects (flags ls ∷ os) off p args line w =
      let (q, e, s, a) = scan_flags strtod ls _ off _ args (Ready-prev w) line.0 in
      let (p', f, b) = words-effects os _ q _ line.1 (Waits-settled _ q os s a) in
      (p', words-cons _ _ off p q _ e f, b)
  words-effects (assigned k v ∷ os) off p args line w =
      let (q, e, s, a) = scan_assigned strtod k v _ off _ args (Ready-prev w) line.0.0 line.0.1 in
      let (p', f, b) = words-effects os _ q _ line.1 (Waits-settled _ q os s a) in
      (p', words-cons _ _ off p q _ e f, b)
  words-effects (separate k c v ∷ os) off p args line w =
      let e₁ = scan_key strtod k false off _ args (Ready-prev w) line.0.0 line.0.1 in
      let (q, e, s, a) = scan_separate strtod c v _ _ (opened k p args) line.0.2 refl in
      let (p', f, b) = words-effects os _ q _ line.1 (Waits-settled _ q os s a) in
      (p', words-cons _ _ off p _ _ e₁ (words-cons _ _ _ _ q _ e f), b)
  words-effects (free c v ∷ os) off p args line w =
      let (q, e, s, a) = scan_free strtod c v _ off p line.0.0 line.0.1 w.0 in
      let (p', f, b) = words-effects os _ q _ line.1 (
        Waits-settled _ q os s
          (a ∙ ap (λ (t : Args D). record t { freeform = t.freeform ++ (c ∷ v) ∷ [] }) w.1)) in
      (p', words-cons _ _ off p q _ e f, b)
  words-effects (bare k ∷ []) off p args line w =
      let e = scan_key strtod k true off _ args (Ready-prev w) line.0.0 line.0.1 in
      (_, words-cons (b'-' ∷ b'-' ∷ k) [] off p _ _ e (words-nil _ _), refl)
  words-effects (bare k ∷ o ∷ os) off p args line w =
      let e = scan_key strtod k false off _ args (Ready-prev w) line.0.0 line.0.1 in
      let (p', f, b) =
        words-effects (o ∷ os) _ (opened k p args) (put_guess k (bool true) args) line.1
          (Waits-pending _ _ (o ∷ os) (λ x. cc) line.0.2 refl refl) in
      (p', words-cons _ _ off p _ _ (rw (is_last-render_all o os) e) f, b)

-- The parser gives a command line its meaning: flags set their letters, keys their values, a key
-- with no value is true, and all other words are kept in order. A key does not contain '=', no flag
-- is '-' or '=', a word by itself begins with neither, a value in a word of its own does not begin
-- with '-', and a key without a value is last or stands before another option.
pub parse-effects :
    {D : Type 0} (strtod : Bytes → D × Bytes) (os : List Opt)
    → IsCommandLine os
    → parse strtod (render_all os) ≡ effects strtod os no_args
unfolding parse Runs
parse-effects strtod os line =
    let (p, e, a) =
      words-effects strtod os 0 (start strtod) no_args line
        (Waits-settled strtod no_args (start strtod) os refl refl) in
    rw (e, parse) a
