-- ===== src/Lib.antt =====
-- A model of the securepath library in antt, with the theorems that make its parts correct.
--
-- The serialisation codec (securepath/serialisation/codec/asn_der) writes values as ASN.1 DER into an
-- octet_vector_ostream and reads them from a buffered_stream over an octet_span_istream. On the network
-- (securepath/network/encryption) whole messages are framed on a stream that gives octets in pieces.
-- Peers authenticate each other by chains of key certificates from a root key (securepath/crypto): a
-- connection runs a handshake over frames, which checks the chain of the other side and its signature on
-- the channel's binding, and only then moves messages.
--
--   Base             names passed on from the libraries, Boolean tests, lists over native numbers,
--                    powers of two and integers by sign
--   Der.Types        serialisation/codec/asn_der/types.hpp and serialisation/types.hpp; one error
--                    constructor for each throw
--   Der.Octets       codec/asn_der/util.hpp: highest_bit_block, encode_to_octets, decode_from_octets,
--                    translate_negative, encode_integer, decode_integer. A w-bit number is its value
--                    below 2 ^ w
--   Der.Stream       octet_span_istream and buffered_stream: read, readable_bytes, start_peek, end_peek
--   Der.Encoder      asn_der_encoder.hpp: encode_* is `encode` for each type; the open sequences are the
--                    layers, innermost first
--   Der.Decoder      asn_der_decoder.hpp: a method is a function from the decoder to its result or
--                    exception and the decoder as it is left; decode_any_header is `decode_header()`
--   Network.Framing  network/encryption/framing.cpp: the frame_reader and its callbacks; `run` is the
--                    sequence of the stream's read completions
--   Crypto.Keys      crypto/public_key.cpp, certificate.cpp, certificate_revocation.cpp and
--                    key_certificate.cpp, over the record Algorithms of what Botan does
--   Crypto.Chain     crypto/certificate_chain.cpp: check_link, add_link (add_link_from is the overload with
--                    the keys), is_authentic; an exception of `extract` is the error not_deserialised
--   Console.InputHandler  console/input_handler.cpp: `process` and the parts of it by key
--   Util.Hex         util/conversions.cpp
--   Transport.PacketStorage  infrastructure/packet_transport/server/server_lib/packet_storage.cpp:
--                    the queue, the removals, the index and the rows; `round` is one of
--                    thread_entry. Pending, Drain, Removal and Closing say what stays to be delivered
--   Network.Handshake  network/encryption/handshake/: PkHandshake and SharedSecret are the variants,
--                    Negotiation is handshake.cpp; Guarded, Run and Reached hold the invariant of
--                    every state that packets lead to, Agreement the whole exchange
--   Network.Connection  network/encryption/detail/encrypted_connection_impl.cpp: an Operation is a handler
--                    that waits on the strand, an Event the completion of one or a call of the program;
--                    `told` is what the client hears, newest first. Follows and Handled hold what
--                    every handler keeps, Stage, BringUp and Trusted the way up
--   Crypto.CertificateCache  crypto/certificate_cache.cpp, over backends that insert as
--                    crypto/certificate_database.cpp does
--   Common.KeyValueCache  common/key_value_cache.cpp
--
-- Fuel: the search for a chain has 2 ^ 16 + 1 rounds, since each raises a ca level of 16 bits; `skip_to` is
-- given the distance to the end, of which each round takes one octet; the long tag loop has the nine
-- rounds that the code allows; `run` of the framing goes on as long as reads complete, and its theorems
-- name the number of reads that is enough; `thread_entry` is given the rounds, one for each packet.
--
-- Not modelled: logging, times and reals of the codec, sockets and TLS, the schedule of the storage's
-- thread, sqlite, audio, the console's widgets and the cryptographic primitives, which are other
-- libraries' or pure input and output. Signing, HMAC, the TLS exporter and the serialisation of the
-- handshake's messages are parameters. A client's callback that calls its connection again while it runs
-- is an event after it.
pub mod Base
pub mod Common
pub mod Console
pub mod Crypto
pub mod Der
pub mod Network
pub mod Transport
pub mod Util
