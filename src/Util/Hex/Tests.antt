-- ===== src/Util/Hex/Tests.antt =====
-- Hexadecimal on concrete inputs.
use securepath.Base.{◌≡◌, refl, [], ◌∷◌, arith, ok}
use securepath.Util.Hex.{to_hex, values, from_hex, from_hex-to_hex, get_value, hex_pairs}

to_hex-255 : to_hex (255 ∷ 10 ∷ []) ≡ 70 ∷ 70 ∷ 48 ∷ 65 ∷ []
unfolding to_hex values
to_hex-255 = refl

-- Small letters are read too.
from_hex-small : from_hex (102 ∷ 48 ∷ []) ≡ ok (240 ∷ [])
unfolding from_hex hex_pairs get_value
from_hex-small = refl

from_hex-to_hex_example : from_hex (to_hex (255 ∷ 10 ∷ [])) ≡ ok (255 ∷ 10 ∷ [])
from_hex-to_hex_example = from_hex-to_hex (255 ∷ 10 ∷ []) (omega arith, (omega arith, tt))
