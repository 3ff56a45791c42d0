-- ===== src/Args/Tests.antt =====
-- Command lines at concrete inputs. The strtod of these tests reads no number.
use reckoning.Common.{true, false, List, [], ◌∷◌, ◌≡◌, refl, arith, Bytes}
use reckoning.Common.Maps.{codes, ◌=bytes◌, insert}
use reckoning.Args.{pos, negsuc, Any, bool, int64, string, Args, no_args, as_int32, value}
use reckoning.Args.Faults.{parse_dash_dash_flags}
use reckoning.Args.Grammar.{
  Opt, flags, assigned, separate, bare, free, render_all, effects, parse-effects,
}
use reckoning.Args.Number.{guess_value}
use reckoning.Args.Parser.{put_letters, on_byte, on_end, scan, words, parse}

abbrev no_double : Bytes → Unit {0} × Bytes
no_double text = (tt, text)

abbrev line : List Opt
line =
    flags (codes "ab")
    ∷ assigned (codes "size") (codes "0x1F")
    ∷ separate (codes "no-color") b't' (codes "rue")
    ∷ free b'f' (codes "ile")
    ∷ bare (codes "last")
    ∷ []

abbrev parsed : Args (Unit {0})
parsed = record {
  values =
      (codes "a", bool true)
      ∷ (codes "b", bool true)
      ∷ (codes "size", int64 (pos 31))
      ∷ (codes "color", bool false)
      ∷ (codes "last", bool true)
      ∷ [];
  freeform = codes "file" ∷ [];
}

parse_runs : parse no_double (render_all line) ≡ parsed
unfolding parse words scan on_byte on_end guess_value ◌=bytes◌ insert
parse_runs = refl

guess_runs :
    (guess_value no_double (codes "-9223372036854775809") ≡ int64 (negsuc 9223372036854775807))
    × (guess_value no_double (codes "017") ≡ int64 (pos 15))
    × (guess_value no_double (codes "08") ≡ string (codes "08"))
unfolding guess_value
guess_runs = (refl, refl, refl)

parse-effects_example : parse no_double (render_all line) ≡ effects no_double line no_args
parse-effects_example = parse-effects no_double line (grind arith)

parse_dash_dash_flags_example :
    parse no_double (codes "--" ∷ codes "-x" ∷ [])
    ≡ put_letters (codes "x") (record { values = ([], bool true) ∷ []; freeform = [] })
parse_dash_dash_flags_example = parse_dash_dash_flags no_double (codes "x") (omega arith)

abbrev wide : Any (Unit {0}) → Any (Unit {0})
wide default = value (λ d. d) (λ n. tt) (λ n. tt) as_int32 (codes "size") default parsed
