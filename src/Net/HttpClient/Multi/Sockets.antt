-- ===== src/Net/HttpClient/Multi/Sockets.antt =====
-- The descriptors that lib/net/HttpClient.cpp adds to the loop for libcurl.
use reckoning.Common.{
  ℕ, suc, ◌+◌, pred, ◌≤◌, ◌≡◌, refl, ap₂, ◌∙◌, ◌≢◌, ◌⊎◌, inl, inr, true, false, Option, none, some,
  List, [], ◌∷◌, ◌++◌, ◌==◌, if◌then◌else◌, arith,
}
use reckoning.Event.Fds.{
  Fds, Flags, Handler, add_fd, update_fd, remove_fd, erase_handler, erase_removed,
}
use reckoning.Net.HttpClient.Multi.{
  Poll, poll_none, poll_in, poll_out, poll_inout, poll_remove, curl_to_reckoning, watch,
  multi_socket,
}

-- How often a descriptor is among the handlers.
unfoldable pub count : ℕ → List Handler → ℕ
count n [] = 0
count n (h ∷ hs) = if h.fd == n then suc (count n hs) else count n hs

count-append : (n : ℕ) → (hs gs : List Handler) → count n (hs ++ gs) ≡ count n hs + count n gs
unfolding count
count-append n [] gs = omega arith
count-append n (h ∷ hs) gs = ground (arith, count-append n hs gs)

count-erase_handler :
    (n : ℕ) → (hs : List Handler) → count n (erase_handler n hs) ≡ pred (count n hs)
unfolding count erase_handler
count-erase_handler n [] = omega arith
count-erase_handler n (h ∷ hs) = ground (arith, count-erase_handler n hs)

count-erase_other :
    (n m : ℕ) → m ≢ n → (hs : List Handler) → count m (erase_handler n hs) ≡ count m hs
unfolding count erase_handler
count-erase_other n m ne [] = refl
count-erase_other n m ne (h ∷ hs) = ground (arith, count-erase_other n m ne hs)

-- The handlers of a descriptor, registered or pending.
abbrev pub watched : ℕ → Fds → ℕ
watched n s = count n s.fds + count n s.pending

no_error : (what : Poll) → (curl_to_reckoning what).error ≡ false
no_error poll_none = refl
no_error poll_in = refl
no_error poll_out = refl
no_error poll_inout = refl
no_error poll_remove = refl

-- The state after `addFd`.
abbrev added : Fds → ℕ → Flags → ℕ → Fds
added s n flags callback = record {
  fds = s.fds;
  pending = s.pending ++ record { fd = n; callback = callback } ∷ [];
  updates =
      if flags.writable
      then s.updates ++ record { fd = n; flags = record flags { error = false } } ∷ []
      else s.updates;
  removed = erase_removed n s.removed;
}

add_fd-added :
    (s : Fds)
    → (n : ℕ) → (flags : Flags) → (callback : ℕ) → flags.error ≡ false
    → add_fd s n flags callback ≡ some (added s n flags callback)
unfolding add_fd
add_fd-added s n flags callback e = ground arith

watched-added :
    (s : Fds)
    → (n : ℕ) → (flags : Flags) → (callback : ℕ) → (m : ℕ)
    → watched m (added s n flags callback) ≡ (if n == m then suc (watched m s) else watched m s)
unfolding count
watched-added s n flags callback m =
    ground (arith, count-append m s.pending (record { fd = n; callback = callback } ∷ []))

update_fd-updated :
    (s : Fds)
    → (n : ℕ) → (flags : Flags) → flags.error ≡ false
    → update_fd s n flags
      ≡ some (record s { updates = s.updates ++ record { fd = n; flags = flags } ∷ [] })
unfolding update_fd
update_fd-updated s n flags e = ground arith

remove_fd-watched :
    (s : Fds)
    → (n : ℕ) → watched n s ≤ 1
    → (watched n (remove_fd s n) ≡ 0) × ((m : ℕ) → m ≢ n → watched m (remove_fd s n) ≡ watched m s)
unfolding remove_fd
remove_fd-watched s n le = (
  omega (arith, count-erase_handler n s.fds, count-erase_handler n s.pending),
  λ m ne. ap₂ (λ a b. a + b) (count-erase_other n m ne s.fds) (count-erase_other n m ne s.pending),
)

-- What libcurl keeps for the socket says whether the loop watches it, and it does so once.
abbrev pub Matches : ℕ → Option ℕ → Fds → Type 0
Matches n info s = ((info ≡ none) × (watched n s ≡ 0)) ⊎ ((info ≡ some n) × (watched n s ≡ 1))

abbrev Watches : ℕ → Fds → Option (Option ℕ × Fds) → Type 0
Watches n s r =
    (info : Option ℕ) × (s' : Fds) × (r ≡ some (info, s'))
    × Matches n info s'
    × ((m : ℕ) → m ≢ n → watched m s' ≡ watched m s)

watch-new :
    (callback n : ℕ)
    → (what : Poll) → (s : Fds) → watched n s ≡ 0
    → Watches n s (watch callback what n none s)
unfolding watch
watch-new callback n what s e =
    let flags = curl_to_reckoning what in
    let s' = added s n flags callback in
    (
      some n,
      s',
      rw (add_fd-added s n flags callback (no_error what)) refl,
      inr (refl, watched-added s n flags callback n ∙ ground arith),
      (λ m ne. watched-added s n flags callback m ∙ ground arith),
    )

watch-same :
    (callback n : ℕ)
    → (what : Poll) → (s s' : Fds) → update_fd s n (curl_to_reckoning what) ≡ some s'
    → watch callback what n (some n) s ≡ some (some n, s')
unfolding watch
watch-same callback n what s s' e = ground arith

watch-old :
    (callback n : ℕ)
    → (what : Poll) → (s : Fds) → watched n s ≡ 1
    → Watches n s (watch callback what n (some n) s)
watch-old callback n what s e =
    let flags = curl_to_reckoning what in
    let s' : Fds = record s { updates = s.updates ++ record { fd = n; flags = flags } ∷ [] } in
    (
      some n,
      s',
      watch-same callback n what s s' (update_fd-updated s n flags (no_error what)),
      inr (refl, e),
      (λ m ne. refl),
    )

watch-Watches :
    (callback n : ℕ)
    → (what : Poll) → (info : Option ℕ) → (s : Fds) → Matches n info s
    → Watches n s (watch callback what n info s)
watch-Watches callback n what info s (inl (e, h)) = rw e (watch-new callback n what s h)
watch-Watches callback n what info s (inr (e, h)) = rw e (watch-old callback n what s h)

-- Whatever libcurl asks for on a socket, no assertion fails, and the loop watches the socket
-- afterwards, and once, exactly if libcurl keeps something for it; no other descriptor is watched
-- more or less. It holds where this was so of the socket before.
pub multi_socket-Matches :
    (callback n : ℕ)
    → (what : Poll) → (info : Option ℕ) → (s : Fds) → Matches n info s
    → (info' : Option ℕ) × (s' : Fds) × (multi_socket true callback what n info s
        ≡ some (info', s'))
      × Matches n info' s'
      × ((m : ℕ) → m ≢ n → watched m s' ≡ watched m s)
unfolding multi_socket
multi_socket-Matches callback n poll_none info s h = watch-Watches callback n poll_none info s h
multi_socket-Matches callback n poll_in info s h = watch-Watches callback n poll_in info s h
multi_socket-Matches callback n poll_out info s h = watch-Watches callback n poll_out info s h
multi_socket-Matches callback n poll_inout info s h = watch-Watches callback n poll_inout info s h
multi_socket-Matches callback n poll_remove info s h =
    let (gone, others) = remove_fd-watched s n (at_most h) in
    (none, remove_fd s n, refl, inl (refl, gone), others)
  where
    at_most : Matches n info s → watched n s ≤ 1
    at_most (inl (e, h)) = omega arith
    at_most (inr (e, h)) = omega arith
