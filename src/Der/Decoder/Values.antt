-- ===== src/Der/Decoder/Values.antt =====
-- Primitive elements: each `decode` on what the `encode` of the same type wrote.
use securepath.Base.{
  ℕ, ◌+◌, ◌-◌, ◌*◌, ◌^◌, ◌≤◌, ◌<◌, ◌≡◌, refl, ap, subst, Bool, true, false, ◌&&◌, not, List, [],
  ◌∷◌, ◌++◌, Option, arith, length, ◌==◌, if◌then◌else◌, le→leb, ok, Result,
}
use securepath.Base.Int.{ℤ, pos, FitsSigned}
use securepath.Der.Types.{
  Error, AsnHeader, TagInfo, get_asn_class, get_tag, integer_tag, boolean_tag, octet_string_tag,
  t61string_tag, integer_too_wide, zero_length_integer, sign_mismatch, max_structure_size,
}
use securepath.Der.Octets.{is_negative, encode_integer, decode_integer}
use securepath.Der.Octets.RoundTrip.{signed_round_trip, unsigned_round_trip}
use securepath.Der.Encoder.{
  Encoder, write, primitive, encode_primitive, encode_number, encode_bool, encode_int64,
  encode_uint64, encode_string, encode_text, encode_octets, encode_big_integer,
}
use securepath.Der.Encoder.Output.{IsAtEnd, write-write, header_octets, encode_header_output}
use securepath.Der.Decoder.{M, pure, ◌>>=◌, decode_header}
use securepath.Der.Decoder.Elements.{
  decode_number, is_set, decode_bool, decode_int64, decode_uint64, decode_string, decode_text,
  decode_octets, decode_big_integer,
}
use securepath.Der.Decoder.Gives.{Gives, Gives-pure, Gives-require, Gives-last, Gives-read_count}
use securepath.Der.Decoder.Finds.{Finds, Finds-bind, Finds-last, header_found}

-- The tag that the caller or the type gives fits the header.
abbrev pub HasTag : Option TagInfo → ℕ → Type 0
HasTag t default_tag = (get_asn_class t < 4) × (get_tag t default_tag < 2 ^ 64)

-- A whole primitive element.
unfoldable pub element : Option TagInfo → ℕ → List ℕ → List ℕ
element t default_tag octets = header_octets (primitive t default_tag (length octets)) ++ octets

-- `bs` is written whole by `enc`, wherever the output stands, and read back by `dec` as `a`.
pub record Codes {A : Type 0} (enc : Encoder → Result Error Encoder) (dec : M A) (a : A)
    (bs : List ℕ) : Type 0 where
  pub writes : (e : Encoder) → IsAtEnd e → enc e ≡ ok (write e bs)
  pub finds : Finds dec bs a

module _ (t : Option TagInfo) (default_tag : ℕ) (tagged : HasTag t default_tag) (octets : List ℕ)
    (short : length octets ≤ max_structure_size) where
  element_written :
      (e : Encoder)
      → IsAtEnd e
      → encode_primitive e t default_tag octets ≡ ok (write e (element t default_tag octets))
  unfolding encode_primitive element
  element_written e start =
      let h = primitive t default_tag (length octets) in
      rw (encode_header_output e h start tagged.1 (omega arith))
        (ap ok (write-write e (header_octets h) octets start))

  element_found :
      {A : Type 0} {a : A} (f : AsnHeader → M A)
      → Gives (f (primitive t default_tag (length octets))) octets a
      → Finds
          (decode_header (get_asn_class t) (get_tag t default_tag) >>= f)
          (element t default_tag octets)
          a
  unfolding element
  element_found f g =
      let h = primitive t default_tag (length octets) in
      Finds-bind f (header_octets h) octets (header_found h tagged short) g

few_octets :
    {n s : ℕ} (signed : Bool) → n ≤ s + (if signed then 0 else 1) → s ≤ 8 → n ≤ max_structure_size
few_octets true few hi = omega arith
few_octets false few hi = omega arith

-- An integer of `w` bits, given its octets.
number_Codes :
    (w : ℕ) (v : ℤ) (t : Option TagInfo) (s default_tag : ℕ) (signed : Bool) (bs : List ℕ)
    → HasTag t default_tag
    → encode_integer w v s ≡ ok bs
    → decode_integer w bs s ≡ v
    → (is_negative bs && not signed) ≡ false
    → 0 < length bs
    → length bs ≤ s + (if signed then 0 else 1)
    → s ≤ 8
    → Codes
        (λ e. encode_number e w v t s default_tag)
        (decode_number w signed t s default_tag)
        v
        (element t default_tag bs)
unfolding encode_number decode_number
number_Codes w v t s default_tag signed bs tagged written back sign lo few hi = record {
  writes = λ e start. rw written (element_written t default_tag tagged bs short e start);
  finds = element_found t default_tag tagged bs short _ (
      Gives-require _ integer_too_wide bs (le→leb (length bs) _ few) (
        Gives-require (not (length bs == 0)) zero_length_integer bs (ground arith) (
          Gives-last _ bs (Gives-read_count (length bs) bs refl) (
            Gives-require _ sign_mismatch [] (rw sign)
              (subst (λ x. Gives (pure (decode_integer w bs s)) [] x) back (Gives-pure _))))));
}
  where
    short : length bs ≤ max_structure_size
    short = few_octets signed few hi

module _ (t : Option TagInfo) (s : ℕ) (lo : 0 < s) (hi : s ≤ 8) where
  -- For a size hint of one to eight octets, a uint64_t below the bound that the hint sets is written
  -- whole wherever the output stands at its end, and `decode` reads it back from these octets,
  -- whatever follows them. The tag must fit the header.
  pub uint64_Codes :
      (v : ℕ)
      → v < 2 ^ (s * 8)
      → HasTag t integer_tag
      → (bs : List ℕ) × Codes (λ e. encode_uint64 e v t s) (decode_uint64 t s) v bs
  unfolding encode_uint64 decode_uint64
  uint64_Codes v h tagged =
      let (bs, code, sign) = unsigned_round_trip s lo hi v h in
      let c =
        number_Codes 64 (pos v) t s integer_tag false bs tagged code.written code.read (rw sign)
          code.some_octet code.few_octets hi in
      (
        element t integer_tag bs,
        record {
          writes = c.writes;
          finds = Finds-last _ (element t integer_tag bs) c.finds (Gives-pure v);
        },
      )

  -- For a size hint of one to eight octets, an int64_t within the hint's range, negative or not, is
  -- written whole wherever the output stands at its end, and `decode` reads it back from these
  -- octets, whatever follows them. The tag must fit the header.
  pub int64_Codes :
      (v : ℤ)
      → FitsSigned (2 ^ (s * 8 - 1)) v
      → HasTag t integer_tag
      → (bs : List ℕ) × Codes (λ e. encode_int64 e v t s) (decode_int64 t s) v bs
  unfolding encode_int64 decode_int64
  int64_Codes v h tagged =
      let (bs, code) = signed_round_trip s lo hi v h in
      (
        element t integer_tag bs,
        number_Codes 64 v t s integer_tag true bs tagged code.written code.read (ground arith)
            code.some_octet (omega (arith, code.few_octets)) hi,
      )

bool_written :
    (v : Bool) → encode_integer 32 (pos (if v then 1 else 0)) 1 ≡ ok ((if v then 1 else 0) ∷ [])
unfolding encode_integer
bool_written true = refl
bool_written false = refl

bool_read : (v : Bool) → decode_integer 32 ((if v then 1 else 0) ∷ []) 1 ≡ pos (if v then 1 else 0)
unfolding decode_integer
bool_read true = refl
bool_read false = refl

bool_sign : (v : Bool) → (is_negative ((if v then 1 else 0) ∷ []) && false) ≡ false
unfolding decode_integer
bool_sign true = refl
bool_sign false = refl

bool_set : (v : Bool) → Gives (pure (is_set (pos (if v then 1 else 0)))) [] v
unfolding decode_bool
bool_set true = Gives-pure true
bool_set false = Gives-pure false

-- A boolean is written whole and read back, under a tag that fits the header.
pub bool_Codes :
    (v : Bool) (t : Option TagInfo)
    → HasTag t boolean_tag
    → (bs : List ℕ) × Codes (λ e. encode_bool e v t) (decode_bool t) v bs
unfolding encode_bool decode_bool
bool_Codes v t tagged =
    let bs : List ℕ = (if v then 1 else 0) ∷ [] in
    let n = pos (if v then 1 else 0) in
    let c =
      number_Codes 32 n t 1 boolean_tag true bs tagged (bool_written v) (bool_read v) (bool_sign v)
        (omega arith) (omega arith) (omega arith) in
    (
      element t boolean_tag bs,
      record {
        writes = c.writes;
        finds = Finds-last _ (element t boolean_tag bs) c.finds (bool_set v);
      },
    )

-- Strings of octets, up to the size that the decoder allows.
module _ (octets : List ℕ) (t : Option TagInfo) (short : length octets ≤ max_structure_size) where
  string_Codes :
      (default_tag : ℕ)
      → HasTag t default_tag
      → Codes
          (λ e. encode_string e octets t default_tag)
          (decode_string t default_tag)
          octets
          (element t default_tag octets)
  unfolding encode_string decode_string
  string_Codes default_tag tagged = record {
    writes = λ e start.
        rw (le→leb (length octets) _ short)
          (element_written t default_tag tagged octets short e start);
    finds =
        element_found t default_tag tagged octets short _
          (Gives-read_count (length octets) octets refl);
  }

  -- A string of at most `max_structure_size` octets is written whole and read back, under a tag that
  -- fits the header.
  pub text_Codes :
      HasTag t t61string_tag
      → Codes (λ e. encode_text e octets t) (decode_text t) octets (element t t61string_tag octets)
  unfolding encode_text decode_text
  text_Codes tagged = string_Codes t61string_tag tagged

  -- A vector of at most `max_structure_size` octets is written whole and read back, under a tag that
  -- fits the header.
  pub octets_Codes :
      HasTag t octet_string_tag
      → Codes
          (λ e. encode_octets e octets t)
          (decode_octets t)
          octets
          (element t octet_string_tag octets)
  unfolding encode_octets decode_octets
  octets_Codes tagged = string_Codes octet_string_tag tagged

  -- An `integer` of one to `max_structure_size` octets is written whole and read back as the same
  -- octets, under a tag that fits the header.
  pub big_integer_Codes :
      HasTag t integer_tag
      → 0 < length octets
      → Codes
          (λ e. encode_big_integer e octets t)
          (decode_big_integer t)
          octets
          (element t integer_tag octets)
  unfolding encode_big_integer decode_big_integer
  big_integer_Codes tagged lo = record {
    writes = λ e start. element_written t integer_tag tagged octets short e start;
    finds = element_found t integer_tag tagged octets short _ (
        Gives-require (not (length octets == 0)) zero_length_integer octets (ground arith)
          (Gives-read_count (length octets) octets refl));
  }
