-- ===== src/Args/Faults.antt =====
-- Where the parser departs from what its state names say.
use reckoning.Common.{true, [], ◌∷◌, ◌≡◌, refl, Bytes, All}
use reckoning.Common.Maps.{codes, insert}
use reckoning.Args.{bool, Args, no_args}
use reckoning.Args.Parser.{
  dash, freeform_only, Parser, ok, put_letters, put_guess, scan, on_byte, on_end, is_last, start,
  parse,
}
use reckoning.Args.Grammar.{words-cons, words-nil}
use reckoning.Args.Scan.{Quiet, only, scan_flags}

-- Behind "--" the machine is in the state FreeformOnly, but a word of flags, which have no '-'
-- and no '=' among them, is still taken for flags, and is not kept as a word. Its dash also sets
-- the key read last, here the empty one, to true.
pub parse_dash_dash_flags :
    {D : Type 0} (strtod : Bytes → D × Bytes) (ls : Bytes)
    → All (Quiet dash) ls
    → parse strtod (codes "--" ∷ (b'-' ∷ ls) ∷ [])
      ≡ put_letters ls (record { values = ([], bool true) ∷ []; freeform = [] })
unfolding parse put_guess insert scan on_byte
parse_dash_dash_flags {D} strtod ls q =
    let (p', e, s, a) = scan_flags strtod ls true 3 opened no_args_but_empty (only refl refl) q in
    let second =
      words-cons strtod (b'-' ∷ ls) [] 3 opened p' _ (unfold is_last in e)
        (words-nil strtod _ p') in
    rw
      (
        words-cons strtod (codes "--") ((b'-' ∷ ls) ∷ []) 0 (start strtod) opened (ok p') first
            second,
        parse,
      )
      a
  where
    no_args_but_empty : Args D
    no_args_but_empty = record { values = ([], bool true) ∷ []; freeform = [] }

    opened : Parser D
    opened = record { state = freeform_only; key = []; prev = 3; args = no_args }

    first :
        scan strtod
          (codes "--")
          (is_last strtod ((b'-' ∷ ls) ∷ []))
          0
          (codes "--")
          0
          (record (start strtod) { prev = 0 })
        ≡ ok opened
    first = unfold scan on_byte on_end in refl
