-- ===== src/Der/Decoder/Elements.antt =====
-- asn_der_decoder.hpp: the elements, the sequences and the peeking, over the headers.
use securepath.Base.{
  ℕ, zero, suc, ◌+◌, ◌-◌, Bool, true, false, ◌&&◌, not, List, [], ◌∷◌, Option, none, some,
  length as list_length, ltb, leb, ◌==◌, if◌then◌else◌, Result, ok, err,
}
use securepath.Base.Int.{ℤ, pos, negsuc}
use securepath.Der.Types.{
  Error, integer_too_wide, zero_length_integer, sign_mismatch, nesting_too_deep, not_constructed,
  trailing_outside_sequence, TagInfo, get_or_class, get_asn_class, get_tag, context_specific_c,
  boolean_tag, integer_tag, octet_string_tag, t61string_tag, sequence_tag, max_structure_depth,
}
use securepath.Der.Octets.{decode_integer, is_negative}
use securepath.Der.Decoder.{
  Decoder, M, pure, throw, ◌>>=◌, ◌>>◌, require, read, read_octet, decode_header, decode_any_header,
}
use securepath.Der.Stream

-- `decode_integer` for a type of `w` bits; the octets are read into the low end of a buffer.
unfoldable pub decode_number : ℕ → Bool → Option TagInfo → ℕ → ℕ → M ℤ
decode_number w is_signed t size_hint default_tag = do
  h ← decode_header (get_asn_class t) (get_tag t default_tag)
  require (leb h.length (size_hint + (if is_signed then 0 else 1))) integer_too_wide
  require (not (h.length == 0)) zero_length_integer
  octets ← read h.length
  require (not (is_negative octets && not is_signed)) sign_mismatch
  pure (decode_integer w octets size_hint)

-- `static_cast<bool>(v)`
pub is_set : ℤ → Bool
is_set (pos n) = not (n == 0)
is_set (negsuc n) = true

unfoldable pub decode_bool : Option TagInfo → M Bool
unfolding is_set
decode_bool t = do v ← decode_number 32 true t 1 boolean_tag; pure (is_set v)

unfoldable pub decode_int64 : Option TagInfo → ℕ → M ℤ
decode_int64 t size_hint = decode_number 64 true t size_hint integer_tag

-- The value of a `decode_integer<uint64_t>`, which never is a `negsuc`: see `require` above.
pub natural : ℤ → ℕ
natural (pos n) = n
natural (negsuc n) = 0

unfoldable pub decode_uint64 : Option TagInfo → ℕ → M ℕ
unfolding natural
decode_uint64 t size_hint = do v ← decode_number 64 false t size_hint integer_tag; pure (natural v)

unfoldable pub decode_big_integer : Option TagInfo → M (List ℕ)
decode_big_integer t = do
  h ← decode_header (get_asn_class t) (get_tag t integer_tag)
  require (not (h.length == 0)) zero_length_integer
  read h.length

unfoldable pub decode_string : Option TagInfo → ℕ → M (List ℕ)
decode_string t default_tag = do
  h ← decode_header (get_asn_class t) (get_tag t default_tag)
  read h.length

unfoldable pub decode_text : Option TagInfo → M (List ℕ)
decode_text t = decode_string t t61string_tag

unfoldable pub decode_octets : Option TagInfo → M (List ℕ)
decode_octets t = decode_string t octet_string_tag

-- The rest of the innermost sequence; `none` leaves the caller's value as it was.
pub trailing_to : List ℕ → M (Option (List ℕ))
trailing_to [] d = throw trailing_outside_sequence d
trailing_to (p ∷ ps) d =
    if ltb (Stream.position d.s) p
    then (do octets ← read (p - Stream.position d.s); pure (some octets)) d
    else (ok none, d)

unfoldable pub decode_trailing : M (Option (List ℕ))
unfolding trailing_to
decode_trailing d = trailing_to d.seq_pos d

unfoldable pub push : ℕ → M (Unit {0})
push length d =
    if leb max_structure_depth (list_length d.seq_pos)
    then throw nesting_too_deep d
    else (ok tt, record d { seq_pos = (Stream.position d.s + length) ∷ d.seq_pos })

-- `for(;s_.pos() < pos; s_.read()) {}`: each round reads one octet, so that the distance is enough fuel.
unfoldable pub skip_to : ℕ → ℕ → M (Unit {0})
skip_to zero end d = (ok tt, d)
skip_to (suc fuel) end d =
    let next : Result Error (Unit {0}) × Decoder = (do b ← read_octet; skip_to fuel end) d in
    if ltb (Stream.position d.s) end then next else (ok tt, d)

-- That a sequence is open is the assertion of `pop`; with none nothing happens here.
pub pop : List ℕ → M (Unit {0})
pop [] d = (ok tt, d)
pop (p ∷ ps) d = skip_to (p - Stream.position d.s) p (record d { seq_pos = ps })

unfoldable pub start_sequence : Option TagInfo → M (Unit {0})
start_sequence t = do
  h ← decode_header (get_asn_class t) (get_tag t sequence_tag)
  require h.is_constructed not_constructed
  push h.length

unfoldable pub end_sequence : M (Unit {0})
unfolding pop
end_sequence d = pop d.seq_pos d

unfoldable pub start_explicit_tag : TagInfo → M (Unit {0})
start_explicit_tag t = do
  h ← decode_header (get_or_class t.tag_type context_specific_c) t.tag
  require h.is_constructed not_constructed
  push h.length

unfoldable pub end_explicit_tag : M (Unit {0})
end_explicit_tag = end_sequence

-- stream_peek_guard: run, and go back whether it returned or threw.
peeked : {A : Type 0} → ℕ → Result Error A × Decoder → Result Error A × Decoder
peeked place (r, d) = (r, record d { s = Stream.end_peek d.s place false })

unfoldable pub with_peek : {A : Type 0} → M A → M A
unfolding peeked
with_peek m d = let (place, s) = Stream.start_peek d.s in peeked place (m (record d { s = s }))

unfoldable pub next_tag : M TagInfo
next_tag = do
  h ← with_peek decode_any_header
  pure (record { tag = h.tag; tag_type = some h.asn_class })

-- `catch(...)`: 0 for whatever was thrown.
or_zero : Result Error ℕ × Decoder → Result Error ℕ × Decoder
or_zero (ok n, d) = (ok n, d)
or_zero (err e, d) = (ok 0, d)

-- The position after the header is read before the guard goes back.
unfoldable pub next_length : M ℕ
unfolding or_zero
next_length d = or_zero (
    with_peek
      (do
        h ← decode_any_header
        λ d'. (ok (Stream.position d'.s - Stream.position d.s + h.length), d'))
      d)

has_octets : ℕ → M ℕ
has_octets length d =
    let (enough, s) = Stream.readable_bytes d.s length in
    if length == 0 then (ok 0, d) else (ok (if enough then length else 0), record d { s = s })

unfoldable pub has_next : M ℕ
unfolding has_octets
has_next = do length ← next_length; has_octets length

unfoldable pub start_peek : M ℕ
start_peek d = let (place, s) = Stream.start_peek d.s in (ok place, record d { s = s })

unfoldable pub end_peek : ℕ → Bool → M (Unit {0})
end_peek place commit d = (ok tt, record d { s = Stream.end_peek d.s place commit })
