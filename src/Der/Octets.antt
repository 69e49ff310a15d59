-- ===== src/Der/Octets.antt =====
-- securepath/serialisation/codec/asn_der/util.hpp: numbers as octets, most significant first.
-- An unsigned integer is its value below 2 ^ w for its width `w` in bits; a block is 7 or 8 bits.
pub mod Length
pub mod Digits
pub mod Values
pub mod Encode
pub mod RoundTrip
pub mod Shortest
use securepath.Base.{
  ℕ, zero, suc, ◌+◌, ◌-◌, ◌*◌, ◌/◌, ◌%◌, ◌^◌, bit_or, bit_xor, Bool, true, false, ◌&&◌, List, [],
  ◌∷◌, ltb, leb, ◌==◌, if◌then◌else◌, Result, ok, err, ◌>>=◌, ◌>>◌, guard, get_or,
}
use securepath.Base.Int.{ℤ, pos, negsuc}
use securepath.Der.Types.{Error, illegal_size}

-- The loop of `highest_bit_block`, on `bit + 1`: one more than the place of the highest bit that is
-- set among the `n` lowest, and 0 where none is.
pub top_bit : ℕ → ℕ → ℕ
top_bit zero value = 0
top_bit (suc bit) value = if value / 2 ^ bit % 2 == 0 then top_bit bit value else suc bit

-- `bit` is -1 where no bit is set, and -1 / block is 0, as is (0 - 1) / block here.
unfoldable pub highest_bit_block : ℕ → Bool → ℕ → ℕ → ℕ
unfolding top_bit
highest_bit_block value treat_as_signed size_hint block =
    let next = top_bit (size_hint * 8) value in
    if treat_as_signed && (next % block == 0) then next / block else (next - 1) / block

-- `value >> position`, cut to a block; a shift by the width or more gives 0.
pub bits_from_position : ℕ → ℕ → ℕ → ℕ → ℕ
bits_from_position w value position block =
    if ltb position w then value / 2 ^ position % 2 ^ block else 0

-- The loop of `encode_to_octets`, on the octets still to be written.
unfoldable pub octet_loop : ℕ → ℕ → ℕ → ℕ → ℕ → List ℕ
unfolding bits_from_position
octet_loop w value block mask zero = []
octet_loop w value block mask (suc left) =
    bit_or (bits_from_position w value (left * block) block) mask
    ∷ octet_loop w value block mask left

-- `capacity` is the size of the caller's buffer.
unfoldable pub encode_to_octets : ℕ → ℕ → ℕ → ℕ → Bool → ℕ → ℕ → Result Error (List ℕ)
unfolding highest_bit_block octet_loop
encode_to_octets w capacity value size_hint treat_as_signed block mask = do
  let length = highest_bit_block value treat_as_signed size_hint block + 1
  guard (leb length capacity) illegal_size
  ok (octet_loop w value block mask length)

-- `ret = (ret << 8) | b`: the low eight bits are free, so the octet is added.
pub shift_in : ℕ → ℕ → List ℕ → ℕ
shift_in w ret [] = ret
shift_in w ret (b ∷ bs) = shift_in w (ret * 2 ^ 8 % 2 ^ w + b) bs

unfoldable pub decode_from_octets : ℕ → List ℕ → ℕ
unfolding shift_in
decode_from_octets w [] = 0
decode_from_octets w (b ∷ bs) = shift_in w b bs

-- `(((1ULL << (octets*8-1))-1)<<1) | 1`
pub sign_mask : ℕ → ℕ
sign_mask octets = (2 ^ (octets * 8 - 1) - 1) * 2 + 1

-- The two's complement of `negsuc number`, in as many octets as it takes.
pub translate_negative : ℕ → ℕ → ℕ
unfolding highest_bit_block sign_mask
translate_negative number size_hint =
    let octets = highest_bit_block number true size_hint 8 + 1 in bit_xor number (sign_mask octets)

-- `w` is the width of the caller's type and the buffer has `sizeof(Type)+1` octets; a negative number
-- goes on as a uint64_t.
unfoldable pub encode_integer : ℕ → ℤ → ℕ → Result Error (List ℕ)
unfolding encode_to_octets translate_negative
encode_integer w (negsuc number) size_hint =
    encode_to_octets 64 (w / 8 + 1) (translate_negative number size_hint) size_hint false 8 0
encode_integer w (pos value) size_hint = encode_to_octets w (w / 8 + 1) value size_hint true 8 0

-- The test `b[0] & 0x80`. The decoder refuses an empty integer before this is called.
pub is_negative : List ℕ → Bool
is_negative bs = get_or bs 0 0 / 128 % 2 == 1

unfoldable pub decode_integer : ℕ → List ℕ → ℕ → ℤ
unfolding is_negative decode_from_octets highest_bit_block sign_mask
decode_integer w bs size_hint =
    let value = decode_from_octets 64 bs in
    let octets = highest_bit_block value false size_hint 8 + 1 in
    if is_negative bs
    then negsuc (bit_xor value (sign_mask octets))
    else pos (decode_from_octets w bs)
