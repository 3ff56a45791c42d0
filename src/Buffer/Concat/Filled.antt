-- ===== src/Buffer/Concat/Filled.antt =====
-- What the two `Buffer::concat` of include/buffer/Buffer.h leave in their block.
use reckoning.Common.{
  ℕ, zero, suc, ◌+◌, ◌-◌, ◌*◌, ◌≤◌, ◌<◌, true, false, Option, none, some, List, [], ◌∷◌, ◌++◌,
  append_assoc, append-nil, ◌≡◌, ◌⊎◌, inl, inr, refl, ap, ◌∙◌, arith, Bytes, length, take,
  replicate, length-append, length-replicate, take-append_le,
}
use reckoning.Buffer.{Buffer, contents, IsValid, create, set_size}
use reckoning.Buffer.Contents.{length-copy_to, take-copy_to}
use reckoning.Buffer.Concat.{
  Joined, source, write_at, give_up, grow, join_one, join, concat, concat_into, joined,
}

-- What has been written so far stands at the front of the block.
pub record Wrote (done : Bytes) (s : Joined) : Type 0 where
  pub fits : s.used ≤ s.size
  pub block : length s.blob ≡ s.size
  pub front : take s.used s.blob ≡ done
  pub counted : s.used ≡ length done
  pub nothing : s.null ≡ true → s.size ≡ 0

write_at-Wrote :
    (src done : Bytes) (s : Joined)
    → Wrote done s
    → s.used + length src ≤ s.size
    → Wrote (done ++ src) (write_at src s)
unfolding write_at
write_at-Wrote src done s w h = record {
  fits = h;
  block = length-copy_to s.blob s.used src (omega arith) ∙ w.block;
  front = take-copy_to s.blob s.used src (omega arith) ∙ ap (λ (t : Bytes). t ++ src) w.front;
  counted = omega (arith, length-append done src);
  nothing = w.nothing;
}

grow-Wrote :
    (junk fsz : ℕ) (done : Bytes) (s : Joined) → Wrote done s → Wrote done (grow junk fsz s)
unfolding grow
grow-Wrote junk fsz done s w = record {
  fits = omega arith;
  block = omega (
    arith,
    length-append s.blob (replicate (s.size + fsz * 2 - length s.blob) junk),
    length-replicate (s.size + fsz * 2 - length s.blob) junk,
  );
  front = take-append_le s.used s.blob _ (omega arith) ∙ w.front;
  counted = w.counted;
  nothing = λ e. cc;
}

-- One argument of the growing version is written in full, and its block is then no null pointer.
join_one_grows :
    (junk : ℕ) (src done : Bytes) (s : Joined)
    → Wrote done s
    → ((join_one 0 junk src s).1 ≡ true)
      × Wrote (done ++ src) (join_one 0 junk src s).0
      × (0 < length src → (join_one 0 junk src s).0.null ≡ false)
      × (s.null ≡ false → (join_one 0 junk src s).0.null ≡ false)
      × (length src ≡ 0 → (join_one 0 junk src s).0 ≡ s)
unfolding join_one
join_one_grows junk [] done s w =
    (refl, rw append-nil w, λ h. absurd (omega arith), λ e. e, λ e. refl)
join_one_grows junk (x ∷ xs) done s w = ground (
  arith,
  write_at-Wrote (x ∷ xs) done s w,
  write_at-Wrote (x ∷ xs) done _ (grow-Wrote junk (length (x ∷ xs)) done s w),
)

zero_or_pos : (n : ℕ) → (n ≡ 0) ⊎ (0 < n)
zero_or_pos zero = inl refl
zero_or_pos (suc n) = inr (omega arith)

-- The whole argument list is written, and the block is a null pointer only if nothing was.
join_grows :
    (junk : ℕ) (args : List (Option Buffer)) (done : Bytes) (s : Joined)
    → Wrote done s
    → Wrote (done ++ joined args) (join 0 junk args s)
      × (0 < length (joined args) → (join 0 junk args s).null ≡ false)
      × (s.null ≡ false → (join 0 junk args s).null ≡ false)
      × (length (joined args) ≡ 0 → join 0 junk args s ≡ s)
unfolding join
join_grows junk [] done s w = (rw append-nil w, λ h. absurd (omega arith), λ e. e, λ e. refl)
join_grows junk (first ∷ rest) done s w =
    let (on, w1, n1, k1, z1) = join_one_grows junk (source first) done s w in
    let (w2, n2, k2, z2) = join_grows junk rest (done ++ source first) _ w1 in
    let total = length-append (source first) (joined rest) in
    rw on (
      rw append_assoc at w2,
      λ h. elim (zero_or_pos (length (source first))) [
        | inl z ↦ n2 (omega arith)
        | inr p ↦ k2 (n1 p)
      ],
      λ e. k2 (k1 e),
      λ e. z2 (omega arith) ∙ z1 (omega arith),
    )

-- One argument of the fixed version is written if it fits, and otherwise gives the blob up.
join_one_fills :
    (max_size : ℕ) (src done : Bytes) (s : Joined)
    → 0 < max_size
    → s.null ≡ false
    → Wrote done s
    → ((length done + length src ≤ s.size)
        × ((join_one max_size 0 src s).1 ≡ true)
        × Wrote (done ++ src) (join_one max_size 0 src s).0
        × ((join_one max_size 0 src s).0.null ≡ false)
        × ((join_one max_size 0 src s).0.size ≡ s.size))
      ⊎ ((s.size < length done + length src)
          × ((join_one max_size 0 src s).1 ≡ false)
          × ((join_one max_size 0 src s).0.null ≡ true))
unfolding join_one give_up write_at
join_one_fills max_size [] done s pos live w = inl (omega arith, refl, rw append-nil w, live, refl)
join_one_fills max_size (x ∷ xs) done s pos live w =
    ground (arith, write_at-Wrote (x ∷ xs) done s w)

join_fills :
    (max_size : ℕ) (args : List (Option Buffer)) (done : Bytes) (s : Joined)
    → 0 < max_size
    → s.null ≡ false
    → Wrote done s
    → ((length done + length (joined args) ≤ s.size)
        × Wrote (done ++ joined args) (join max_size 0 args s)
        × ((join max_size 0 args s).null ≡ false)
        × ((join max_size 0 args s).size ≡ s.size))
      ⊎ ((s.size < length done + length (joined args)) × ((join max_size 0 args s).null ≡ true))
unfolding join
join_fills max_size [] done s pos live w = inl (omega arith, rw append-nil w, live, refl)
join_fills max_size (first ∷ rest) done s pos live w =
    let total = length-append (source first) (joined rest) in
    let before = length-append done (source first) in
    elim (join_one_fills max_size (source first) done s pos live w) [
      | inl (fits, on, w1, live1, same) ↦
          rw on (elim (join_fills max_size rest (done ++ source first) _ pos live1 w1) [
            | inl (f, w2, l, z) ↦ inl (omega arith, rw append_assoc at w2, l, z ∙ same)
            | inr (over, l) ↦ inr (omega arith, l)
          ])
      | inr (over, off, dead) ↦ rw off (inr (omega arith, dead))
    ]

-- Concatenating into a new block gives a valid buffer that holds the bytes of all arguments, null
-- pointers skipped, in order; without a single byte among them the assertion fails.
pub concat-contents :
    (junk : ℕ) (args : List (Option Buffer))
    → ((length (joined args) ≡ 0) × (concat junk args ≡ none))
      ⊎ ((b : Buffer) × (0 < length (joined args))
          × (concat junk args ≡ some b)
          × (contents b ≡ joined args)
          × (b.size ≡ length (joined args))
          × IsValid b)
unfolding concat set_size create
concat-contents junk args =
    let (w, live, keeps, empty) = join_grows junk args [] start start-Wrote in
    elim (zero_or_pos (length (joined args))) [
      | inl z ↦ inl (z, rw (empty z))
      | inr p ↦ inr (
        record (create (join 0 junk args start).blob) { size = (join 0 junk args start).used },
        p,
        rw (live p) (ground arith),
        w.front,
        w.counted,
        omega arith,
      )
    ]
  where
    start : Joined
    start = record { blob = []; null = true; used = 0; size = 0 }

    start-Wrote : Wrote [] start
    start-Wrote = record {
      fits = omega arith;
      block = refl;
      front = refl;
      counted = refl;
      nothing = λ e. refl;
    }

-- Filling a given block of a positive size gives the length of all bytes of the arguments, which
-- then stand at its front, or 0 exactly if they do not fit or there are none.
pub concat_into-fills :
    (max_size : ℕ) (block : Bytes) (args : List (Option Buffer))
    → 0 < max_size
    → length block ≡ max_size
    → ((length (joined args) ≤ max_size)
        × ((concat_into max_size block args).0 ≡ length (joined args))
        × (take (length (joined args)) (concat_into max_size block args).1 ≡ joined args)
        × (length (concat_into max_size block args).1 ≡ max_size))
      ⊎ ((max_size < length (joined args)) × ((concat_into max_size block args).0 ≡ 0))
unfolding concat_into
concat_into-fills max_size block args pos e =
    elim (join_fills max_size args [] start pos refl start-Wrote) [
      | inl (fits, w, live, z) ↦
          rw live (inl (omega arith, omega arith, rw (← w.counted) w.front, w.block ∙ z))
      | inr (over, dead) ↦ rw dead (inr (omega arith, refl))
    ]
  where
    start : Joined
    start = record { blob = block; null = false; used = 0; size = max_size }

    start-Wrote : Wrote [] start
    start-Wrote = record {
      fits = omega arith;
      block = e;
      front = refl;
      counted = refl;
      nothing = λ h. cc;
    }
