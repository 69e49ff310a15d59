-- ===== src/Der/Encoder.antt =====
-- securepath/serialisation/codec/asn_der/asn_der_encoder.hpp, writing to an octet_vector_ostream
-- (serialisation/octet_vector_stream.cpp). Times, reals and the log lines are left out.
pub mod Output
use securepath.Base.{
  ℕ, ◌+◌, ◌-◌, ◌*◌, ◌/◌, ◌%◌, ◌^◌, bit_or, Bool, true, false, List, [], ◌∷◌, ◌++◌, Option, length,
  take, drop, replicate, ltb, leb, if◌then◌else◌, Result, ok, ◌>>=◌, ◌>>◌, guard,
}
use securepath.Base.Int.{ℤ, pos}
use securepath.Der.Types.{
  Error, string_too_large, AsnHeader, TagInfo, get_or_class, get_asn_class, get_tag,
  context_specific_c, boolean_tag, integer_tag, octet_string_tag, t61string_tag, sequence_tag,
  max_structure_size,
}
use securepath.Der.Octets.{encode_to_octets, encode_integer}

-- octet_vector_ostream: a vector and the place of the next write in it.
pub record OctetVectorOstream : Type 0 where
  pub vec : List ℕ
  pub write_pos : ℕ

pub OctetVectorOstream-at_end : List ℕ → OctetVectorOstream
OctetVectorOstream-at_end v = record { vec = v; write_pos = length v }

-- A position past the end fills the vector with zeros first; octets in the way are overwritten.
unfoldable pub ostream_write : OctetVectorOstream → List ℕ → OctetVectorOstream
ostream_write s [] = s
ostream_write s (b ∷ bs) =
    let size = length (b ∷ bs) in
    let padded = s.vec ++ replicate (s.write_pos - length s.vec) 0 in
    record {
      vec = take s.write_pos padded ++ ((b ∷ bs) ++ drop (s.write_pos + size) padded);
      write_pos = s.write_pos + size;
    }

-- A sequence that is still open: its header and what was written into it.
pub record SeqStruct : Type 0 where
  pub header : AsnHeader
  pub content : List ℕ

-- The innermost open sequence stands first.
pub record Encoder : Type 0 where
  pub stream : OctetVectorOstream
  pub layers : List SeqStruct

write_layers : Encoder → List SeqStruct → List ℕ → Encoder
write_layers e [] b = record e { stream = ostream_write e.stream b }
write_layers e (l ∷ ls) b = record e { layers = record l { content = l.content ++ b } ∷ ls }

unfoldable pub write : Encoder → List ℕ → Encoder
unfolding write_layers
write e b = write_layers e e.layers b

-- `(asn_c << 6) | tag`, with 0x20 for a constructed element, as a uint8_t.
unfoldable pub tag_first_byte : ℕ → ℕ → Bool → ℕ
tag_first_byte asn_c tag is_constructed =
    let v = bit_or (asn_c * 2 ^ 6) tag % 256 in if is_constructed then bit_or v 0x20 else v

unfoldable pub encode_tag_first_byte : Encoder → ℕ → ℕ → Bool → Encoder
encode_tag_first_byte e asn_c tag is_constructed =
    write e (tag_first_byte asn_c tag is_constructed ∷ [])

-- `buffer[length-1] &= ~0x80`
unfoldable pub clear_last : List ℕ → List ℕ
clear_last [] = []
clear_last (b ∷ []) = b % 128 ∷ []
clear_last (b ∷ c ∷ bs) = b ∷ clear_last (c ∷ bs)

-- The buffer has `sizeof(header.tag)*8/7+1` octets.
unfoldable pub encode_long_tag : Encoder → AsnHeader → Result Error Encoder
encode_long_tag e h = do
  octets ← encode_to_octets 64 (8 * 8 / 7 + 1) h.tag 8 false 7 0x80
  ok (write (encode_tag_first_byte e h.asn_class 0x1f h.is_constructed) (clear_last octets))

unfoldable pub encode_tag : Encoder → AsnHeader → Result Error Encoder
encode_tag e h =
    if ltb 30 h.tag
    then encode_long_tag e h
    else ok (encode_tag_first_byte e h.asn_class (h.tag % 32) h.is_constructed)

unfoldable pub encode_long_length : Encoder → AsnHeader → Result Error Encoder
encode_long_length e h = do
  octets ← encode_to_octets 64 8 h.length 8 false 8 0
  ok (write (write e (bit_or 0x80 (length octets) ∷ [])) octets)

unfoldable pub encode_length : Encoder → AsnHeader → Result Error Encoder
encode_length e h =
    if ltb 127 h.length then encode_long_length e h else ok (write e (h.length % 256 % 128 ∷ []))

unfoldable pub encode_header : Encoder → AsnHeader → Result Error Encoder
encode_header e h = do e' ← encode_tag e h; encode_length e' h

push : Encoder → AsnHeader → Encoder
push e h = record e { layers = record { header = h; content = [] } ∷ e.layers }

-- The header of a primitive element, and the element whole.
abbrev pub primitive : Option TagInfo → ℕ → ℕ → AsnHeader
primitive t default_tag length = record {
  asn_class = get_asn_class t;
  tag = get_tag t default_tag;
  length = length;
  is_constructed = false;
}

unfoldable pub encode_primitive : Encoder → Option TagInfo → ℕ → List ℕ → Result Error Encoder
encode_primitive e t default_tag octets = do
  e' ← encode_header e (primitive t default_tag (length octets))
  ok (write e' octets)

-- `encode_integer` on a machine integer of `w` bits, and `encode` on the types that use it.
unfoldable pub encode_number : Encoder → ℕ → ℤ → Option TagInfo → ℕ → ℕ → Result Error Encoder
encode_number e w value t size_hint default_tag = do
  octets ← encode_integer w value size_hint
  encode_primitive e t default_tag octets

unfoldable pub encode_bool : Encoder → Bool → Option TagInfo → Result Error Encoder
encode_bool e v t = encode_number e 32 (pos (if v then 1 else 0)) t 1 boolean_tag

unfoldable pub encode_int64 : Encoder → ℤ → Option TagInfo → ℕ → Result Error Encoder
encode_int64 e v t size_hint = encode_number e 64 v t size_hint integer_tag

unfoldable pub encode_uint64 : Encoder → ℕ → Option TagInfo → ℕ → Result Error Encoder
encode_uint64 e v t size_hint = encode_number e 64 (pos v) t size_hint integer_tag

-- The class `integer`: two's complement octets of any length, written as they are.
unfoldable pub encode_big_integer : Encoder → List ℕ → Option TagInfo → Result Error Encoder
encode_big_integer e octets t = encode_primitive e t integer_tag octets

unfoldable pub encode_string : Encoder → List ℕ → Option TagInfo → ℕ → Result Error Encoder
encode_string e s t default_tag = do
  guard (leb (length s) max_structure_size) string_too_large
  encode_primitive e t default_tag s

unfoldable pub encode_text : Encoder → List ℕ → Option TagInfo → Result Error Encoder
encode_text e s t = encode_string e s t t61string_tag

unfoldable pub encode_octets : Encoder → List ℕ → Option TagInfo → Result Error Encoder
encode_octets e s t = encode_string e s t octet_string_tag

unfoldable pub encode_trailing : Encoder → List ℕ → Encoder
encode_trailing e d = write e d

abbrev pub constructed : ℕ → ℕ → ℕ → AsnHeader
constructed asn_class tag length = record {
  asn_class = asn_class;
  tag = tag;
  length = length;
  is_constructed = true;
}

unfoldable pub start_sequence : Encoder → Option TagInfo → Encoder
unfolding push
start_sequence e t = push e (constructed (get_asn_class t) (get_tag t sequence_tag) 0)

unfoldable pub start_explicit_tag : Encoder → TagInfo → Encoder
unfolding push
start_explicit_tag e t = push e (constructed (get_or_class t.tag_type context_specific_c) t.tag 0)

-- The innermost layer is closed: its header goes out, then its content. That a layer is open is the
-- assertion of `pop`; with none nothing happens here.
pub end_layer : Encoder → List SeqStruct → Result Error Encoder
end_layer e [] = ok e
end_layer e (l ∷ ls) = do
  e' ← encode_header (record e { layers = ls }) (record (l.header) { length = length l.content })
  ok (write e' l.content)

unfoldable pub end_sequence : Encoder → Result Error Encoder
unfolding end_layer
end_sequence e = end_layer e e.layers

unfoldable pub end_explicit_tag : Encoder → Result Error Encoder
end_explicit_tag e = end_sequence e
