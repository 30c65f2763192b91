-- ===== src/Node/ConnectHandler/Unary.antt =====
-- `createUnaryHandler` of connect-handler.ts in packages/connect-node/src.
use connect_web.Prelude.{ℕ, ◌-◌, ◌^◌, Bool, true, false, [], ◌∷◌, Option, none, some, if◌then◌else◌}
use connect_web.Text.{Text, codes, ◌===◌}
use connect_web.Headers.{Headers, get, set}
use connect_web.ConnectError.{ConnectError, Reason, Result, ok, err, checked, ◌>>=◌, Bytes}
use connect_web.Stream.{Stream, done, raise, next, map_stream}
use connect_web.Envelope.{Compression, EnvelopedMessage, compressed_flag, has_flag}
use connect_web.Compression.{compression_negotiate, Negotiated}
use connect_web.Serialization.{Lookup}
use connect_web.AsyncIterable.ReadAllBytes.{
  LengthHint, no_hint, text_hint, transform_read_all_bytes, sink_all_bytes,
}
use connect_web.AsyncIterable.Transforms.{
  transform_prepend, transform_decompress_envelope, transform_parse_envelope,
  transform_serialize_envelope, transform_compress_envelope, transform_catch,
}
use connect_web.Connect.ContentType.{
  parse_content_type, ParsedType, content_type_unary_proto, content_type_unary_json,
}
use connect_web.Connect.HttpStatus.{code_to_http_status}
use connect_web.Connect.RequestHeader.{
  header_content_type, header_unary_encoding, header_unary_accept_encoding,
}
use connect_web.Connect.TrailerMux.{trailer_mux}
use connect_web.Node.Universal.{
  ServerRequest, ServerResponse, byte_body, response_unsupported_media_type,
  response_method_not_allowed,
}
use connect_web.Node.Implementation.{
  Context, ImplSpec, create_handler_context, transform_invoke_implementation,
}
use connect_web.Node.Handler.{
  HandlerInit, method_post, internal_error, raise_negotiated, final_error,
}

abbrev pub header_unary_content_length : Text
header_unary_content_length = codes "Content-Length"

unfoldable pub length_hint : Option Text → LengthHint
length_hint none = no_hint
length_hint (some s) = text_hint s

-- `wrapInEnvelope`
unfoldable pub wrap_in_envelope : Option Compression → Bytes → EnvelopedMessage
wrap_in_envelope none chunk = record { flags = 0; payload = chunk }
wrap_in_envelope (some c) chunk = record { flags = compressed_flag; payload = chunk }

-- `error.metadata.forEach((value, key) => header.set(key, value))`
unfoldable pub set_each : Headers → Headers → Result Headers
set_each h [] = ok h
set_each h ((key, value) ∷ metadata) = checked (set h key value) >>= λ g. set_each g metadata

-- the header of a response with an error
unfoldable pub error_header : Headers → ConnectError → Result Headers
unfolding set_each
error_header h error =
    checked (set h header_content_type content_type_unary_json) >>= λ g. set_each g error.metadata

-- the function given to `transformCatch`, which sets the header, too
unfoldable pub catch_unary :
    (ConnectError → Result Bytes) → Headers → Reason → Result (Option EnvelopedMessage)
unfolding internal_error error_header
catch_unary to_json_bytes h e = do
  _ ← error_header h (internal_error e)
  bytes ← to_json_bytes (internal_error e)
  ok (some (record { flags = 0; payload = bytes }))

-- the status and the header once the outputs have ended
unfoldable pub status_after : Option Reason → ℕ
unfolding internal_error code_to_http_status
status_after none = 200
status_after (some e) = code_to_http_status (internal_error e).code

unfoldable pub header_after : Headers → Option Reason → Result Headers
unfolding internal_error error_header
header_after h none = ok h
header_after h (some e) = error_header h (internal_error e)

-- `unwrapEnvelope` sets the encoding for each compressed envelope
unfoldable pub set_unwrapped :
    Option Compression → Headers → Stream EnvelopedMessage → Result Headers
unfolding has_flag
set_unwrapped response h done = ok h
set_unwrapped response h (raise e) = err e
set_unwrapped none h (next e s) = set_unwrapped none h s
set_unwrapped (some c) h (next e s) = elim (has_flag e.flags compressed_flag) [
  | true ↦ checked (set h header_unary_encoding c.name) >>= λ g. set_unwrapped (some c) g s
  | false ↦ set_unwrapped (some c) h s
]

unfoldable pub unwrap_envelopes : Stream EnvelopedMessage → Stream Bytes
unfolding map_stream
unwrap_envelopes = map_stream (λ e. ok e.payload)

-- `unwrapEnvelope`, the sink and the object that is returned
unfoldable pub finish_unary :
    Option Compression → Context → Option Reason → Stream EnvelopedMessage → Result ServerResponse
unfolding status_after header_after set_unwrapped unwrap_envelopes sink_all_bytes trailer_mux
finish_unary response after failure envelopes = do
  header ← header_after after.response_header failure
  encoded ← set_unwrapped response header envelopes
  bytes ← sink_all_bytes (2 ^ 53 - 1) no_hint (unwrap_envelopes envelopes)
  muxed ← trailer_mux encoded after.response_trailer
  ok (record {
    status = status_after failure;
    header = some muxed;
    body = byte_body bytes;
    trailer = none;
  })

module _ {I O P : Type 0} (to_json_bytes : ConnectError → Result Bytes) (serialization : Lookup I O)
    (opt : HandlerInit) (spec : ImplSpec I O P) where
  -- the messages of the request, of which there is one at most
  unfoldable pub unary_input : Bool → Negotiated → LengthHint → Stream Bytes → Stream I
  unfolding transform_prepend raise_negotiated transform_read_all_bytes wrap_in_envelope map_stream
      transform_decompress_envelope transform_parse_envelope
  unary_input binary compression hint body =
      transform_parse_envelope (serialization.get_i binary) none false (
        transform_decompress_envelope compression.request opt.read_max_bytes (
          map_stream (λ chunk. ok (wrap_in_envelope compression.request chunk))
            (transform_read_all_bytes opt.read_max_bytes hint
              (transform_prepend (raise_negotiated compression.error) body))))

  -- the outputs as envelopes, with an error in place of the rest
  unfoldable pub unary_output : Bool → Negotiated → Headers → Stream O → Stream EnvelopedMessage
  unfolding transform_serialize_envelope transform_catch catch_unary transform_compress_envelope
  unary_output binary compression h outputs =
      transform_compress_envelope compression.response opt.compress_min_bytes (
        transform_catch (catch_unary to_json_bytes h)
          (transform_serialize_envelope (serialization.get_o binary) opt.write_max_bytes outputs))

  -- the response, for the error that the outputs ended with and the envelopes in the place of them
  unfoldable pub unary_response : Bool → Negotiated → Context → Stream O → Result ServerResponse
  unfolding unary_output transform_serialize_envelope final_error finish_unary
  unary_response binary compression after outputs =
      finish_unary compression.response after
        (final_error
          (transform_serialize_envelope (serialization.get_o binary) opt.write_max_bytes outputs))
        (unary_output binary compression after.response_header outputs)

  handle_typed : ParsedType → ServerRequest → Result ServerResponse
  unfolding unary_response unary_input transform_invoke_implementation create_handler_context
      compression_negotiate get length_hint
  handle_typed type req = do
    context ←
        create_handler_context req.header
          ((
            header_content_type,
            if type.binary then content_type_unary_proto else content_type_unary_json,
          )
            ∷ [])
          []
    compression ←
        compression_negotiate opt.accept_compression (get req.header header_unary_encoding)
          (get req.header header_unary_accept_encoding) header_unary_accept_encoding
    let (outputs, after) = transform_invoke_implementation spec context (
        unary_input type.binary compression
          (length_hint (get req.header header_unary_content_length)) req.body)
    unary_response type.binary compression after outputs

  -- the handler that `createUnaryHandler` returns
  unfoldable pub unary_handle : ServerRequest → Result ServerResponse
  unfolding handle_typed parse_content_type get ◌===◌
  unary_handle req = elim (parse_content_type (get req.header header_content_type)) [
    | none ↦ ok response_unsupported_media_type
    | some type ↦
        if type.stream
        then ok response_unsupported_media_type
        else if req.method === method_post
        then handle_typed type req
        else ok response_method_not_allowed
  ]
