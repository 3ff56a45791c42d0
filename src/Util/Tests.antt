-- ===== src/Util/Tests.antt =====
-- Base 64 at concrete inputs, those of RFC 4648 among them.
use reckoning.Common.{some, [], ◌≡◌, refl, arith}
use reckoning.Common.Maps.{codes}
use reckoning.Util.Base64.{char_at, inflation, encode}
use reckoning.Util.Base64.Encoded.{decode-encode}
use reckoning.Util.Base64.Reference.{decode}

encode_foob : encode (some (codes "foob")) (some 8) ≡ (8, codes "Zm9vYg==")
unfolding encode char_at
encode_foob = refl

encode_small : encode (some (codes "foob")) (some 7) ≡ (0, [])
unfolding encode
encode_small = refl

decode-encode_example : decode (encode (some (codes "foob")) (some 8)).1 ≡ some (codes "foob")
unfolding inflation
decode-encode_example = decode-encode (codes "foob") 8 (omega arith) (omega arith)
