-- ===== src/Net/HttpClient/Multi/Transfers.antt =====
-- A transfer of HttpClient in lib/net/HttpClient.cpp from init to its end, as the calls that are
-- made in order. Settings that are the same for every transfer are one call.
use reckoning.Common.{
  ℕ, Bool, true, false, Option, none, some, List, [], ◌∷◌, ◌++◌, if◌then◌else◌, Bytes,
}
use reckoning.Net.HttpClient.Headers.{Headers}
use reckoning.Net.HttpClient.Multi.{Timers, end_timer}

-- Calls of libcurl, `new` and `delete` of the connection, and signals.
pub data Call : Type 0 where
  made_connection made_easy deleted_connection cleaned_up : Call
  made_headers : List Bytes → Call
  freed_headers : Call
  set_url : Bytes → Call
  set_callbacks set_post added removed : Call
  data_emitted : Bytes → Call
  error_emitted : Bytes → Call
  complete_emitted disconnected : Call
  action : ℕ → Bool → Bool → Call
  timed_out : Call

-- HttpConnectionInfo: is there a list of headers, and is the client still there?
pub record Connection : Type 0 where
  pub has_headers : Bool
  pub alive : Bool
  pub error : Bytes

pub record Client : Type 0 where
  pub url : Bytes
  pub headers : Headers
  pub post : Bool
  pub connection : Option Connection

-- `h.first + ": " + h.second`.
unfoldable pub header_strings : Headers → List Bytes
header_strings [] = []
header_strings ((k, v) ∷ hs) = (k ++ b':' ∷ b' ' ∷ v) ∷ header_strings hs

abbrev pub if_any : Bool → Call → List Call
if_any true c = c ∷ []
if_any false c = []

abbrev pub has_any : Headers → Bool
has_any [] = false
has_any (h ∷ hs) = true

-- `connect(url, headers, flags)`, where curl_multi_add_handle succeeds or not.
unfoldable pub connect : Bool → Client → List Call × Client
unfolding header_strings
connect ok c =
    let any : Bool = has_any c.headers in
    let start : List Call =
      (made_connection ∷ made_easy ∷ if_any any (made_headers (header_strings c.headers)))
      ++ (set_url c.url ∷ set_callbacks ∷ if_any c.post set_post)
      ++ added ∷ [] in
    if ok
    then (
      start,
      record c { connection = some (record { has_headers = any; alive = true; error = [] }) },
    )
    else (start ++ (cleaned_up ∷ if_any any freed_headers) ++ deleted_connection ∷ [], c)

unfoldable pub init_from : Option Connection → Bool → Client → List Call × Client
unfolding connect
init_from (some x) ok c = ([], c)
init_from none ok c = connect ok c

-- `init()`, but for `ensureCurlInfo`.
unfoldable pub init : Bool → Client → List Call × Client
unfolding init_from
init ok c = init_from c.connection ok c

-- What is emitted at the end of a transfer that succeeded or not.
unfoldable pub emit_end : Bool → Connection → List Call
emit_end ok x =
    if x.alive
    then (if ok then [] else error_emitted x.error ∷ []) ++ complete_emitted ∷ disconnected ∷ []
    else []

-- What `checkMultiInfo` does for one CURLMSG_DONE.
unfoldable pub finish : Bool → Connection → List Call
unfolding emit_end
finish ok x =
    emit_end ok x
    ++ (removed ∷ cleaned_up ∷ if_any x.has_headers freed_headers)
    ++ deleted_connection ∷ []

-- `checkMultiInfo`: the messages, where `none` is one that is not CURLMSG_DONE.
unfoldable pub check_multi_info : List (Option (Bool × Connection)) → List Call
unfolding finish
check_multi_info [] = []
check_multi_info (none ∷ ms) = check_multi_info ms
check_multi_info (some (ok, x) ∷ ms) = finish ok x ++ check_multi_info ms

-- `socketEventCallback` on a descriptor that can be read or written, where some transfers run on or
-- none does.
unfoldable pub socket_event :
    ℕ → Bool → Bool → Bool → List (Option (Bool × Connection)) → Timers → List Call × Timers
unfolding check_multi_info end_timer
socket_event fd readable writable running ms s =
    (action fd readable writable ∷ check_multi_info ms, if running then s else end_timer s.timer s)

-- `execute` of CurlTimer.
unfoldable pub timer_event : List (Option (Bool × Connection)) → List Call
unfolding check_multi_info
timer_event ms = timed_out ∷ check_multi_info ms

-- `easyWriteCallback`: what it answers, and what is emitted.
unfoldable pub easy_write : Bool → Bytes → Bytes × List Call
easy_write false data' = ([], [])
easy_write true data' = (data', data_emitted data' ∷ [])
