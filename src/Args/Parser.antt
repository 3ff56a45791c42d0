-- ===== src/Args/Parser.antt =====
-- include/args/Parser.h, `parse`: a state machine over the bytes of each word. The pointers `prev`
-- and `arg` into a word are offsets from its start; a word holds no zero byte.
use reckoning.Common.{
  ℕ, ◌+◌, ◌-◌, Bool, true, false, not, ◌&&◌, List, [], ◌∷◌, ◌++◌, ltb, ◌==◌, if◌then◌else◌, Bytes,
  length, take, drop,
}
use reckoning.Common.Maps.{codes, ◌=bytes◌, insert}
use reckoning.Args.{Any, bool, Args, no_args}
use reckoning.Args.Number.{guess_value}

pub data State : Type 0 where
  normal dash dash_dash value freeform freeform_only : State

pub data Reason : Type 0 where
  unexpected_dash unexpected_equals missing_value : Reason

pub record Parser (D : Type 0) : Type 0 where
  pub state : State
  pub key : Bytes
  pub prev : ℕ
  pub args : Args D

-- An error is logged with its offset in the command line and the word, and ends the parse.
pub data Result {ℓ} (A : Type ℓ) : Type ℓ where
  ok : A → Result A
  err : Reason → ℕ → Bytes → Result A

infixl 5 ◌>>=◌
abbrev pub ◌>>=◌ {ℓ κ} : {A : Type ℓ} {B : Type κ} → Result A → (A → Result B) → Result B
ok a >>= f = f a
err why n w >>= f = err why n w

-- `std::string(start, end - 1 - start)`.
abbrev pub slice : Bytes → ℕ → ℕ → Bytes
slice word start end = take (end - 1 - start) (drop start word)

abbrev put_value : {D : Type 0} → Bytes → Any D → Args D → Args D
put_value key v args = record args { values = insert key v args.values }

-- Every byte is a key of its own.
unfoldable pub put_letters : {D : Type 0} → Bytes → Args D → Args D
put_letters [] args = args
put_letters (c ∷ cs) args = put_letters cs (put_value (c ∷ []) (bool true) args)

-- `key.size() > n && !strncmp(key, prefix, n)`.
has_prefix : Bytes → Bytes → Bool
has_prefix prefix key = ltb (length prefix) (length key) && (take (length prefix) key =bytes prefix)

-- A boolean under "no-key" or "disable-key" is turned round.
unfoldable pub put_guess : {D : Type 0} → Bytes → Any D → Args D → Args D
unfolding has_prefix ◌=bytes◌
put_guess key (bool b) args =
    if has_prefix (codes "no-") key
    then put_value (drop 3 key) (bool (not b)) args
    else if has_prefix (codes "disable-") key
    then put_value (drop 8 key) (bool (not b)) args
    else put_value key (bool b) args
put_guess key v args = put_value key v args

module _ {D : Type 0} (strtod : Bytes → D × Bytes) where
  -- The lambda `add`. It is never called in the state Normal, which its assertion excludes.
  unfoldable pub add : State → Bytes → ℕ → ℕ → Parser D → Parser D
  unfolding put_letters put_guess
  add dash word start end p = record p { args = put_letters (slice word start end) p.args }
  add dash_dash word start end p = record p { key = slice word start end }
  add value word start end p = record p {
    args = put_guess p.key (guess_value strtod (slice word start end)) p.args;
  }
  add freeform word start end p = record p {
    args = record (p.args) { freeform = p.args.freeform ++ slice word start end ∷ [] };
  }
  add _ word start end p = p

  -- case '-'; `arg` is the offset behind the byte.
  unfoldable pub on_dash : State → ℕ → Bytes → ℕ → Parser D → Result (Parser D)
  unfolding add
  on_dash normal off word arg p = ok (record p { prev = arg; state = dash })
  on_dash dash off word arg p =
      if p.prev == arg - 1
      then ok (record p { prev = p.prev + 1; state = dash_dash })
      else err unexpected_dash (off + arg - 1) word
  on_dash _ off word arg p =
      if arg - 1 == 0
      then ok (record (add value word arg (arg + 1) p) { prev = arg; state = dash })
      else ok p

  -- case '='.
  unfoldable pub on_equals : State → ℕ → Bytes → ℕ → Parser D → Result (Parser D)
  unfolding add
  on_equals freeform off word arg p = ok p
  on_equals freeform_only off word arg p = ok p
  on_equals value off word arg p = ok p
  on_equals dash_dash off word arg p =
      ok (record (add dash_dash word p.prev arg p) { prev = arg; state = value })
  on_equals _ off word arg p = err unexpected_equals (off + arg - 1) word

  -- Any other byte.
  unfoldable pub on_other : State → ℕ → Parser D → Parser D
  on_other normal arg p = if arg - 1 == 0 then record p { prev = arg - 1; state = freeform } else p
  on_other _ arg p = p

  -- case '\0'; `last` says that no word follows.
  unfoldable pub on_end : State → Bool → ℕ → Bytes → ℕ → Parser D → Result (Parser D)
  unfolding add
  on_end normal last off word arg p = ok (record (add freeform word p.prev arg p) { prev = arg })
  on_end dash last off word arg p =
      ok (record (add dash word p.prev arg p) { prev = arg; state = normal })
  on_end dash_dash last off word arg p =
      if arg == 3
      then ok (record p { prev = arg; state = freeform_only })
      else let p' = add dash_dash word p.prev arg p in
        if last
        then ok (record (add value word arg (arg + 1) p') { prev = arg; state = normal })
        else ok (record p' { prev = arg; state = value })
  on_end freeform last off word arg p =
      ok (record (add freeform word p.prev arg p) { prev = arg; state = normal })
  on_end freeform_only last off word arg p =
      ok (record (add freeform word p.prev arg p) { prev = arg })
  on_end value last off word arg p =
      if arg - 1 == p.prev
      then err missing_value (off + arg - 1) word
      else ok (record (add value word p.prev arg p) { prev = arg; state = normal })

  unfoldable pub on_byte : ℕ → ℕ → Bytes → ℕ → Parser D → Result (Parser D)
  unfolding on_dash on_equals on_other
  on_byte c off word arg p =
      if c == b'-'
      then on_dash p.state off word arg p
      else if c == b'='
      then on_equals p.state off word arg p
      else ok (on_other p.state arg p)

  -- The bytes of a word from offset `pos` on, and the zero byte behind them.
  unfoldable pub scan : Bytes → Bool → ℕ → Bytes → ℕ → Parser D → Result (Parser D)
  scan [] last off word pos p = on_end p.state last off word (pos + 1) p
  scan (c ∷ cs) last off word pos p = do
    p' ← on_byte c off word (pos + 1) p
    scan cs last off word (pos + 1) p'

  unfoldable pub is_last : List Bytes → Bool
  is_last [] = true
  is_last (w ∷ ws) = false

  -- `for (int i = 1; i < argc; ++i)`; `off` grows by a word's size and its zero byte.
  unfoldable pub words : List Bytes → ℕ → Parser D → Result (Parser D)
  unfolding is_last
  words [] off p = ok p
  words (w ∷ ws) off p = do
    p' ← scan w (is_last ws) off w 0 (record p { prev = 0 })
    words ws (off + length w + 1) p'

  abbrev pub start : Parser D
  start = record { state = normal; key = []; prev = 0; args = no_args }

  -- `parse(argc, argv)` of the words behind the program's name: nothing at all after an error.
  unfoldable pub parse : List Bytes → Args D
  parse ws = elim (words ws 0 start) [ ok p ↦ p.args | err why n w ↦ no_args ]
