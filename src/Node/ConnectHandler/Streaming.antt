-- ===== src/Node/ConnectHandler/Streaming.antt =====
-- `createStreamHandler` of connect-handler.ts in packages/connect-node/src.
use connect_web.Prelude.{Bool, false, not, [], ◌∷◌, Option, none, some, if◌then◌else◌}
use connect_web.Text.{◌===◌}
use connect_web.Headers.{Headers, get}
use connect_web.ConnectError.{Reason, Result, ok, ◌>>=◌, Bytes}
use connect_web.Stream.{Stream}
use connect_web.Envelope.{EnvelopedMessage}
use connect_web.Compression.{compression_negotiate, Negotiated}
use connect_web.Serialization.{Lookup, Serialization}
use connect_web.AsyncIterable.Split.{transform_split_envelope}
use connect_web.AsyncIterable.Transforms.{
  transform_prepend, transform_decompress_envelope, transform_parse_envelope,
  transform_serialize_envelope, transform_compress_envelope, transform_join_envelopes,
  transform_catch_finally,
}
use connect_web.Connect.ContentType.{
  parse_content_type, ParsedType, content_type_stream_proto, content_type_stream_json,
}
use connect_web.Connect.RequestHeader.{
  header_content_type, header_stream_encoding, header_stream_accept_encoding,
}
use connect_web.Connect.EndStream.{EndStreamResponse, end_stream_flag}
use connect_web.Node.Universal.{
  ServerRequest, ServerResponse, stream_body, response_unsupported_media_type,
  response_method_not_allowed,
}
use connect_web.Node.Implementation.{
  Context, ImplSpec, create_handler_context, transform_invoke_implementation,
}
use connect_web.Node.Handler.{
  HandlerInit, method_post, internal_error, raise_negotiated, set_encoding,
}

-- the end of a stream, for the trailers of the implementation and the error it ends with
unfoldable pub end_of : Headers → Option Reason → EndStreamResponse
unfolding internal_error
end_of trailer none = record { metadata = trailer; error = none }
end_of trailer (some e) = record { metadata = trailer; error = some (internal_error e) }

-- the function given to `transformCatchFinally`
unfoldable pub final_end :
    Serialization EndStreamResponse → Headers → Option Reason → Result (Option EnvelopedMessage)
unfolding end_of
final_end end_stream trailer e = end_stream.serialize (end_of trailer e) >>= λ bytes.
    ok (some (record { flags = end_stream_flag; payload = bytes }))

module _ {I O P : Type 0} (end_stream : Serialization EndStreamResponse)
    (serialization : Lookup I O) (opt : HandlerInit) (spec : ImplSpec I O P) where
  -- the messages of the request; an envelope with the flag of an end is skipped
  unfoldable pub stream_input : Bool → Negotiated → Stream Bytes → Stream I
  unfolding transform_prepend raise_negotiated transform_split_envelope
      transform_decompress_envelope transform_parse_envelope
  stream_input binary compression body =
      transform_parse_envelope (serialization.get_i binary) (some end_stream_flag) false (
        transform_decompress_envelope compression.request opt.read_max_bytes (
          transform_split_envelope opt.read_max_bytes
            (transform_prepend (raise_negotiated compression.error) body)))

  -- the bytes of the response, for the outputs and the trailers
  unfoldable pub stream_output : Bool → Negotiated → Headers → Stream O → Stream Bytes
  unfolding transform_serialize_envelope transform_catch_finally final_end
      transform_compress_envelope transform_join_envelopes
  stream_output binary compression trailer outputs = transform_join_envelopes (
      transform_compress_envelope compression.response opt.compress_min_bytes (
        transform_catch_finally (final_end end_stream trailer)
          (transform_serialize_envelope (serialization.get_o binary) opt.write_max_bytes outputs)))

  unfoldable pub stream_response : Bool → Negotiated → Context → Stream Bytes → ServerResponse
  unfolding stream_input stream_output transform_invoke_implementation
  stream_response binary compression context body =
      let (outputs, after) =
        transform_invoke_implementation spec context (stream_input binary compression body) in
      record {
        status = 200;
        header = some after.response_header;
        body = stream_body (stream_output binary compression after.response_trailer outputs);
        trailer = none;
      }

  handle_typed : ParsedType → ServerRequest → Result ServerResponse
  unfolding stream_response create_handler_context compression_negotiate set_encoding get
  handle_typed type req = do
    context ←
        create_handler_context req.header
          ((
            header_content_type,
            if type.binary then content_type_stream_proto else content_type_stream_json,
          )
            ∷ [])
          []
    compression ←
        compression_negotiate opt.accept_compression (get req.header header_stream_encoding)
          (get req.header header_stream_accept_encoding) header_stream_accept_encoding
    header ← set_encoding context.response_header header_stream_encoding compression.response
    ok (
        stream_response type.binary compression (record context { response_header = header })
          req.body)

  -- the handler that `createStreamHandler` returns
  unfoldable pub stream_handle : ServerRequest → Result ServerResponse
  unfolding handle_typed parse_content_type get ◌===◌
  stream_handle req = elim (parse_content_type (get req.header header_content_type)) [
    | none ↦ ok response_unsupported_media_type
    | some type ↦
        if not type.stream
        then ok response_unsupported_media_type
        else if req.method === method_post
        then handle_typed type req
        else ok response_method_not_allowed
  ]
