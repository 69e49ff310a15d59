-- ===== src/Der/Tests.antt =====
-- The codec on concrete inputs.
use securepath.Base.{
  ℕ, ◌*◌, ◌^◌, ◌>>=◌, ◌≤◌, ◌<◌, ◌≡◌, refl, true, false, List, [], ◌∷◌, ◌++◌, Option, none, some,
  arith, length, ok, Result,
}
use securepath.Base.Int.{pos, negsuc}
use securepath.Der.Types.{Error, TagInfo, AsnHeader, get_asn_class, get_tag}
use securepath.Der.Octets.{encode_integer, decode_integer, is_negative}
use securepath.Der.Octets.RoundTrip.{Encoded, signed_round_trip, unsigned_round_trip}
use securepath.Der.Octets.Shortest.{encode_shortest}
use securepath.Der.Encoder.{
  Encoder, tag_first_byte, encode_int64, encode_uint64, encode_bool, encode_text, encode_octets,
  encode_big_integer, encode_trailing, encode_header, write,
}
use securepath.Der.Encoder.Output.{write-IsAtEnd, header_octets, tag_octets, length_octets}
use securepath.Der.Decoder.{decode_any_header}
use securepath.Der.Decoder.Gives.{Gives}
use securepath.Der.Decoder.Headers.{encode_header-Gives}
use securepath.Der.Stream
use securepath.Der.Stream.{BufferedStream}
use securepath.Der.Stream.Window.{Advanced}
use securepath.Der.Stream.Reads.{read_lem, readable_bytes_yes, end_peek_restores}
use securepath.Der.Decoder.Elements.{
  decode_int64, decode_uint64, decode_bool, decode_text, decode_octets, decode_big_integer,
}
use securepath.Der.Decoder.Values.{
  Codes, HasTag, element, int64_Codes, uint64_Codes, bool_Codes, text_Codes, octets_Codes,
  big_integer_Codes,
}
use securepath.Der.Decoder.Nested.{Element, Finds-Element, in_sequence}
use securepath.Der.Decoder.Sequences.{Writes, Writes-then, out_sequence, sequence_round_trip}

-- A negative number is stored in its two's complement octets.
encode_integer-128 : encode_integer 64 (negsuc 127) 8 ≡ ok (0x80 ∷ [])
unfolding encode_integer
encode_integer-128 = refl

encode_integer-129 : encode_integer 64 (negsuc 128) 8 ≡ ok (0xff ∷ 0x7f ∷ [])
unfolding encode_integer
encode_integer-129 = refl

decode_integer-300 : decode_integer 64 (0x01 ∷ 0x2c ∷ []) 8 ≡ pos 300
unfolding decode_integer
decode_integer-300 = refl

signed_round_trip_example : (bs : List ℕ) × Encoded (negsuc 300) 8 8 bs
signed_round_trip_example =
    signed_round_trip 8 (omega arith) (omega arith) (negsuc 300) (omega arith)

unsigned_round_trip_example : (bs : List ℕ) × Encoded (pos 200) 8 9 bs × (is_negative bs ≡ false)
unsigned_round_trip_example = unsigned_round_trip 8 (omega arith) (omega arith) 200 (omega arith)

encode_shortest_example :
    (bs : List ℕ) × (encode_integer 64 (decode_integer 64 (0xff ∷ 0xff ∷ 0x80 ∷ []) 8) 8 ≡ ok bs)
    × (length bs ≤ 3)
encode_shortest_example =
    encode_shortest 8 (omega arith) (omega arith) (0xff ∷ 0xff ∷ 0x80 ∷ [])
      (omega arith, (omega arith, (omega arith, tt))) (omega arith) (omega arith)

abbrev marked_tag : Option TagInfo
marked_tag = some (record { tag = 1000; tag_type = none })

no_tag : (default_tag : ℕ) → default_tag < 2 ^ 64 → HasTag none default_tag
unfolding get_asn_class get_tag
no_tag default_tag h = (omega arith, h)

a_tag : (default_tag : ℕ) → HasTag marked_tag default_tag
unfolding get_asn_class get_tag
a_tag default_tag = (omega arith, omega arith)

uint64_Codes_example :
    (bs : List ℕ) × Codes (λ e. encode_uint64 e 70000 none 4) (decode_uint64 none 4) 70000 bs
uint64_Codes_example =
    uint64_Codes none 4 (omega arith) (omega arith) 70000 (omega arith) (no_tag 2 (omega arith))

int64_Codes_example :
    (bs : List ℕ) × Codes
      (λ e. encode_int64 e (negsuc 70000) marked_tag 8)
      (decode_int64 marked_tag 8)
      (negsuc 70000)
      bs
int64_Codes_example =
    int64_Codes marked_tag 8 (omega arith) (omega arith) (negsuc 70000) (omega arith) (a_tag 2)

bool_Codes_example : (bs : List ℕ) × Codes (λ e. encode_bool e true none) (decode_bool none) true bs
bool_Codes_example = bool_Codes true none (no_tag 1 (omega arith))

abbrev some_text : List ℕ
some_text = 0x61 ∷ 0x62 ∷ 0x63 ∷ []

abc_Codes :
    Codes
      (λ e. encode_text e some_text none)
      (decode_text none)
      some_text
      (element none 0x14 some_text)
abc_Codes = text_Codes some_text none (omega arith) (no_tag 0x14 (omega arith))

text_Codes_example :
    Codes
      (λ e. encode_text e some_text none)
      (decode_text none)
      some_text
      (element none 0x14 some_text)
text_Codes_example = text_Codes some_text none (omega arith) (no_tag 0x14 (omega arith))

octets_Codes_example :
    Codes
      (λ e. encode_octets e [] marked_tag)
      (decode_octets marked_tag)
      []
      (element marked_tag 0x04 [])
octets_Codes_example = octets_Codes [] marked_tag (omega arith) (a_tag 4)

big_integer_Codes_example :
    Codes
      (λ e. encode_big_integer e some_text none)
      (decode_big_integer none)
      some_text
      (element none 0x02 some_text)
big_integer_Codes_example =
    big_integer_Codes some_text none (omega arith) (no_tag 2 (omega arith)) (omega arith)

some_octets :
    (0 < length (element none 0x14 some_text))
    × (length (element none 0x14 some_text ++ 7 ∷ 8 ∷ []) ≤ 1024 * 1024 * 512)
unfolding element header_octets tag_octets length_octets get_asn_class get_tag tag_first_byte
some_octets = (omega arith, omega arith)

abbrev abc_and_more : Encoder → Result Error Encoder
abc_and_more e = encode_text e some_text none >>= λ e'. ok (encode_trailing e' (7 ∷ 8 ∷ []))

-- A text in a sequence, with two octets after it that the reader does not know.
sequence_round_trip_example :
    (all : List ℕ) × Writes (out_sequence none abc_and_more) all
    × Element 1 (in_sequence none (decode_text none)) all some_text
unfolding encode_trailing
sequence_round_trip_example =
    sequence_round_trip none 0 abc_and_more (element none 0x14 some_text) (7 ∷ 8 ∷ [])
      (no_tag 0x10 (omega arith)) some_octets.1
      (Writes-then (λ e. encode_text e some_text none) (λ e. ok (encode_trailing e (7 ∷ 8 ∷ [])))
        (element none 0x14 some_text) (7 ∷ 8 ∷ []) abc_Codes.writes (λ e start. refl)
        (λ e start. write-IsAtEnd e (element none 0x14 some_text) start))
      (Finds-Element 0 some_octets.0 abc_Codes.finds)

-- A private class, a tag of two groups and a long length.
abbrev long_header : AsnHeader
long_header = record { asn_class = 3; tag = 1000; length = 70000; is_constructed = false }

abbrev fresh_encoder : Encoder
fresh_encoder = record { stream = record { vec = []; write_pos = 0 }; layers = [] }

encode_header-Gives_example :
    (bs : List ℕ) × (encode_header fresh_encoder long_header ≡ ok (write fresh_encoder bs))
    × Gives decode_any_header bs long_header
encode_header-Gives_example =
    encode_header-Gives fresh_encoder long_header refl (omega arith, omega arith) (omega arith)

-- Two octets are buffered, one of them is read already, and somebody peeks.
abbrev peeked_stream : BufferedStream
peeked_stream = record {
  stream = record { rest = 3 ∷ 4 ∷ [] };
  buffer = 1 ∷ 2 ∷ [];
  look_ahead_pos = 1;
  real_pos = 0;
  peek_count = 1;
}

read_lem_example :
    (b' : BufferedStream) × (Stream.read peeked_stream 2 ≡ (ok (2 ∷ 3 ∷ []), b'))
    × Advanced peeked_stream 2 b'
read_lem_example = read_lem peeked_stream 2 (omega arith) (omega arith)

readable_bytes_yes_example :
    (b' : BufferedStream) × (Stream.readable_bytes peeked_stream 3 ≡ (true, b'))
    × Advanced peeked_stream 0 b'
readable_bytes_yes_example = readable_bytes_yes peeked_stream 3 (omega arith) (omega arith)

abbrev peeked_again : BufferedStream
peeked_again = (Stream.start_peek peeked_stream).1

abbrev read_on :
    (b' : BufferedStream) × (Stream.read peeked_again 2 ≡ (ok (2 ∷ 3 ∷ []), b'))
    × Advanced peeked_again 2 b'
unfolding Stream.start_peek
read_on = read_lem peeked_again 2 (omega arith) (omega arith)

moved_on : Advanced peeked_again 2 read_on.0
moved_on = let (b', e, adv) = read_on in adv

end_peek_restores_example :
    Advanced peeked_stream 0 (Stream.end_peek read_on.0 (Stream.start_peek peeked_stream).0 false)
end_peek_restores_example = end_peek_restores peeked_stream 2 (omega arith) moved_on
