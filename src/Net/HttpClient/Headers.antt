-- ===== src/Net/HttpClient/Headers.antt =====
-- HttpClient::Headers of include/net/HttpClient.h.
use reckoning.Common.{List, [], ◌∷◌, ◌++◌, if◌then◌else◌, Bytes}
use reckoning.Common.Maps.{◌=bytes◌}

abbrev pub Headers : Type 0
Headers = List (Bytes × Bytes)

unfoldable pub add : Bytes → Bytes → Headers → Headers
add key value hs = hs ++ (key, value) ∷ []

-- The value of the first header with the key, or the empty string.
unfoldable pub find : Bytes → Headers → Bytes
find key [] = []
find key ((k, v) ∷ hs) = if k =bytes key then v else find key hs

-- One header of `toString`.
abbrev pub line : Bytes → Bytes → Bytes
line key value = key ++ 58 ∷ 32 ∷ (value ++ 13 ∷ 10 ∷ [])

unfoldable pub to_string : Headers → Bytes
to_string [] = []
to_string ((k, v) ∷ hs) = line k v ++ to_string hs
