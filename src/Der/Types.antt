-- ===== src/Der/Types.antt =====
-- securepath/serialisation/codec/asn_der/types.hpp and serialisation/types.hpp: the header of an
-- element, the tags and limits, and the exceptions, one constructor for each `throw`.
use securepath.Base.{ℕ, ◌*◌, Bool, Option, none, some}

-- `element_not_present` is the exception of that name; all others are `serialisation_error`.
pub data Error : Type 0 where
  element_not_present : Error
  illegal_size end_of_stream write_failed : Error
  tag_too_long illegal_length structure_too_big : Error
  integer_too_wide zero_length_integer sign_mismatch : Error
  nesting_too_deep not_constructed string_too_large trailing_outside_sequence : Error

-- asn_class_type, by its numbers.
abbrev pub universal_c : ℕ
universal_c = 0

abbrev pub context_specific_c : ℕ
context_specific_c = 2

abbrev pub boolean_tag : ℕ
boolean_tag = 0x01

abbrev pub integer_tag : ℕ
integer_tag = 0x02

abbrev pub octet_string_tag : ℕ
octet_string_tag = 0x04

abbrev pub sequence_tag : ℕ
sequence_tag = 0x10

abbrev pub t61string_tag : ℕ
t61string_tag = 0x14

pub record AsnHeader : Type 0 where
  pub asn_class : ℕ
  pub tag : ℕ
  pub length : ℕ
  pub is_constructed : Bool

-- A tag given by the caller: its class may be left open.
pub record TagInfo : Type 0 where
  pub tag : ℕ
  pub tag_type : Option ℕ

abbrev pub max_structure_size : ℕ
max_structure_size = 1024 * 1024 * 2

abbrev pub max_constructed_size : ℕ
max_constructed_size = 1024 * 1024 * 512

abbrev pub max_structure_depth : ℕ
max_structure_depth = 64

abbrev pub get_or_class : Option ℕ → ℕ → ℕ
get_or_class none d = d
get_or_class (some c) d = c

-- The class and the tag that an element is written with, or looked for under.
unfoldable pub get_asn_class : Option TagInfo → ℕ
get_asn_class none = universal_c
get_asn_class (some t) = get_or_class t.tag_type context_specific_c

unfoldable pub get_tag : Option TagInfo → ℕ → ℕ
get_tag none default_tag = default_tag
get_tag (some t) default_tag = t.tag
