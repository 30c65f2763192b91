-- ===== src/Node/GrpcWebHandler.antt =====
-- grpc-web-handler.ts of packages/connect-node/src: the handler of one method for the gRPC-web
-- protocol.
use connect_web.Prelude.{Bool, false, [], ◌∷◌, Option, none, some, if◌then◌else◌}
use connect_web.Text.{◌===◌}
use connect_web.Headers.{Headers, get}
use connect_web.ConnectError.{Reason, Result, ok, ◌>>=◌, Bytes}
use connect_web.Stream.{Stream}
use connect_web.Envelope.{EnvelopedMessage}
use connect_web.Compression.{compression_negotiate, Negotiated}
use connect_web.Serialization.{Lookup}
use connect_web.AsyncIterable.Split.{transform_split_envelope}
use connect_web.AsyncIterable.Transforms.{
  transform_prepend, transform_decompress_envelope, transform_parse_envelope,
  transform_serialize_envelope, transform_compress_envelope, transform_join_envelopes,
  transform_catch_finally,
}
use connect_web.GrpcWeb.ContentType.{
  parse_content_type, ParsedType, content_type_proto, content_type_json,
}
use connect_web.GrpcWeb.Trailer.{trailer_flag, create_trailer_serialization}
use connect_web.Grpc.RequestHeader.{
  header_content_type, header_encoding, header_accept_encoding, header_grpc_status,
}
use connect_web.Grpc.TrailerStatus.{StatusLibrary, set_trailer_status, grpc_status_ok}
use connect_web.Node.Universal.{
  ServerRequest, ServerResponse, stream_body, response_unsupported_media_type,
  response_method_not_allowed,
}
use connect_web.Node.Implementation.{
  Context, ImplSpec, create_handler_context, transform_invoke_implementation,
}
use connect_web.Node.Handler.{
  HandlerInit, method_post, internal_error, raise_negotiated, set_encoding,
}

-- the trailer that is sent, with the status of the error if there is one
unfoldable pub trailer_with : StatusLibrary → Headers → Option Reason → Result Headers
unfolding internal_error set_trailer_status
trailer_with lib trailer none = ok trailer
trailer_with lib trailer (some e) = set_trailer_status lib trailer (some (internal_error e))

-- the function given to `transformCatchFinally`
unfoldable pub final_trailer :
    StatusLibrary → Headers → Option Reason → Result (Option EnvelopedMessage)
unfolding trailer_with create_trailer_serialization
final_trailer lib trailer e = do
  sent ← trailer_with lib trailer e
  bytes ← create_trailer_serialization.serialize sent
  ok (some (record { flags = trailer_flag; payload = bytes }))

module _ {I O P : Type 0} (lib : StatusLibrary) (serialization : Lookup I O) (opt : HandlerInit)
    (spec : ImplSpec I O P) where
  -- the messages of the request; an envelope with the flag of trailers is skipped
  unfoldable pub grpc_web_input : Bool → Negotiated → Stream Bytes → Stream I
  unfolding transform_prepend raise_negotiated transform_split_envelope
      transform_decompress_envelope transform_parse_envelope
  grpc_web_input binary compression body =
      transform_parse_envelope (serialization.get_i binary) (some trailer_flag) false (
        transform_decompress_envelope compression.request opt.read_max_bytes (
          transform_split_envelope opt.read_max_bytes
            (transform_prepend (raise_negotiated compression.error) body)))

  -- the bytes of the response, for the outputs and the trailer
  unfoldable pub grpc_web_output : Bool → Negotiated → Headers → Stream O → Stream Bytes
  unfolding transform_serialize_envelope transform_catch_finally final_trailer
      transform_compress_envelope transform_join_envelopes
  grpc_web_output binary compression trailer outputs = transform_join_envelopes (
      transform_compress_envelope compression.response opt.compress_min_bytes (
        transform_catch_finally (final_trailer lib trailer)
          (transform_serialize_envelope (serialization.get_o binary) opt.write_max_bytes outputs)))

  unfoldable pub grpc_web_response : Bool → Negotiated → Context → Stream Bytes → ServerResponse
  unfolding grpc_web_input grpc_web_output transform_invoke_implementation
  grpc_web_response binary compression context body =
      let (outputs, after) =
        transform_invoke_implementation spec context (grpc_web_input binary compression body) in
      record {
        status = 200;
        header = some after.response_header;
        body = stream_body (grpc_web_output binary compression after.response_trailer outputs);
        trailer = none;
      }

  handle_typed : ParsedType → ServerRequest → Result ServerResponse
  unfolding grpc_web_response create_handler_context compression_negotiate set_encoding get
  handle_typed type req = do
    context ←
        create_handler_context req.header
          ((header_content_type, if type.binary then content_type_proto else content_type_json)
            ∷ [])
          ((header_grpc_status, grpc_status_ok) ∷ [])
    compression ←
        compression_negotiate opt.accept_compression (get req.header header_encoding)
          (get req.header header_accept_encoding) header_accept_encoding
    header ← set_encoding context.response_header header_encoding compression.response
    ok (
        grpc_web_response type.binary compression (record context { response_header = header })
          req.body)

  -- the handler that `createHandler` returns; the text format is not supported
  unfoldable pub grpc_web_handle : ServerRequest → Result ServerResponse
  unfolding handle_typed parse_content_type get ◌===◌
  grpc_web_handle req = elim (parse_content_type (get req.header header_content_type)) [
    | none ↦ ok response_unsupported_media_type
    | some type ↦
        if type.text
        then ok response_unsupported_media_type
        else if req.method === method_post
        then handle_typed type req
        else ok response_method_not_allowed
  ]
