-- ===== src/Envelope/Tests/Sealing.antt =====
-- Messages sealed by each built-in envelope, and read back.
use ruststream_fred.Common.{◌≡◌, refl, arith, true, [], ◌∷◌, ◌++◌}
use ruststream_fred.Server.Text.{Bytes, b}
use ruststream_fred.Envelope.RustStream.{
  framed, rust_stream, unframe_own, header_bytes, len_prefix, is_marked,
}
use ruststream_fred.Envelope.Wire.{u16_bytes, u32_bytes}
use ruststream_fred.Envelope.Body.{open_body, body_payload, body_headers}
use ruststream_fred.Envelope.FastStream.{
  fast_stream, write_strings, write_string, block_length, preamble, behind,
}
use ruststream_fred.Envelope.NoOp.{no_op}
use ruststream_fred.Envelope.RoundTrips.Frames.{open_body-rust_stream}
use ruststream_fred.Envelope.RoundTrips.FastFrames.{open_body-fast_stream}
use ruststream_fred.Envelope.Framing.{Framing, Codecs, seal, open_value, envelope_of}
use ruststream_fred.Envelope.RoundTrips.Framings.{open_value-seal}
use ruststream_fred.Envelope.Tests.{TestHeaders, test_headers, test_headers-HeaderMapLaws}

abbrev one_header : TestHeaders
one_header = (true, b "acme") ∷ []

abbrev no_codecs : Codecs TestHeaders
no_codecs = record {
  json_envelope = no_op test_headers;
  cbor_envelope = no_op test_headers;
  msgpack_envelope = no_op test_headers;
  to_json = λ fields. [];
}

abbrev written : Bytes
written = framed test_headers (b "{}") one_header

open_value-seal_example :
    open_value test_headers no_codecs Framing.ruststream (no_op test_headers) written
    ≡ (b "{}", one_header)
unfolding envelope_of seal framed header_bytes len_prefix is_marked
    ruststream_fred.Envelope.RustStream.seal u32_bytes
open_value-seal_example =
    open_value-seal test_headers test_headers-HeaderMapLaws no_codecs (no_op test_headers)
      (b "queue") (b "{}") one_header Framing.ruststream
      ((omega arith, (omega arith, tt)), omega arith) (omega arith)

open_body-rust_stream_example :
    (body_payload test_headers (open_body test_headers (rust_stream test_headers) written) ≡ b "{}")
    × (body_headers test_headers (open_body test_headers (rust_stream test_headers) written)
        ≡ one_header)
unfolding framed header_bytes len_prefix is_marked ruststream_fred.Envelope.RustStream.seal
    u32_bytes
open_body-rust_stream_example =
    open_body-rust_stream test_headers test_headers-HeaderMapLaws (b "{}") one_header written
      ((omega arith, (omega arith, tt)), omega arith) refl (omega arith)

abbrev fast_written : Bytes
fast_written =
    137
      ∷ 66
      ∷ 73
      ∷ 78
      ∷ 13
      ∷ 10
      ∷ 26
      ∷ 10
      ∷ 0
      ∷ 1
      ∷ 0
      ∷ 0
      ∷ 0
      ∷ 18
      ∷ 0
      ∷ 0
      ∷ 0
      ∷ 34
      ∷ 0
      ∷ 1
      ∷ 0
      ∷ 6
      ∷ b "tenant"
    ++ (0 ∷ 4 ∷ b "acme" ++ b "{}")

open_body-fast_stream_example :
    (body_payload test_headers (open_body test_headers (fast_stream test_headers) fast_written)
      ≡ b "{}")
    × (body_headers test_headers (open_body test_headers (fast_stream test_headers) fast_written)
        ≡ one_header)
unfolding ruststream_fred.Envelope.FastStream.seal write_strings write_string block_length preamble
    u16_bytes u32_bytes
open_body-fast_stream_example =
    open_body-fast_stream test_headers test_headers-HeaderMapLaws (b "{}") one_header fast_written
      refl (omega arith)
