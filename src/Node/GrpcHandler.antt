-- ===== src/Node/GrpcHandler.antt =====
-- grpc-handler.ts of packages/connect-node/src: the handler of one method for the gRPC protocol.
pub mod Failure
use connect_web.Prelude.{Bool, false, [], ◌∷◌, Option, none, some, if◌then◌else◌}
use connect_web.Text.{◌===◌}
use connect_web.Text.Percent.{encode_uri_component}
use connect_web.Code.{print_number}
use connect_web.Headers.{Headers, get, set}
use connect_web.ConnectError.{ConnectError, Reason, Result, ok, err, ◌>>=◌, Bytes}
use connect_web.Stream.{Stream}
use connect_web.Compression.{compression_negotiate, Negotiated}
use connect_web.Serialization.{Lookup}
use connect_web.AsyncIterable.Split.{transform_split_envelope}
use connect_web.AsyncIterable.Transforms.{
  transform_prepend, transform_decompress_envelope, transform_parse_envelope,
  transform_serialize_envelope, transform_compress_envelope, transform_join_envelopes,
  transform_catch,
}
use connect_web.Grpc.ContentType.{
  parse_content_type, ParsedType, content_type_proto, content_type_json,
}
use connect_web.Grpc.RequestHeader.{
  header_content_type, header_encoding, header_accept_encoding, header_grpc_status,
  header_grpc_message,
}
use connect_web.Grpc.TrailerStatus.{StatusLibrary, set_trailer_status, grpc_status_ok}
use connect_web.Node.Universal.{
  ServerRequest, ServerResponse, stream_body, response_unsupported_media_type,
  response_method_not_allowed,
}
use connect_web.Node.Implementation.{
  Context, ImplSpec, create_handler_context, transform_invoke_implementation,
}
use connect_web.Node.Handler.{
  HandlerInit, method_post, internal_error, raise_negotiated, set_encoding, final_error,
}

or_same : Headers → Option Headers → Headers
or_same h none = h
or_same h (some g) = g

-- the target of a call of `setTrailerStatus` that throws: what was set before
set_before_throw : Headers → ConnectError → Headers
unfolding or_same
set_before_throw target e =
    let status = or_same target (set target header_grpc_status (print_number e.code)) in
    elim (encode_uri_component e.raw_message) [
      | none ↦ status
      | some m ↦ or_same status (set status header_grpc_message m)
    ]

-- the trailer when the body has ended
unfoldable pub trailer_after : StatusLibrary → Headers → Option Reason → Headers
unfolding set_before_throw internal_error set_trailer_status
trailer_after lib target none = target
trailer_after lib target (some e) = elim (set_trailer_status lib target (some (internal_error e))) [
  | ok trailer ↦ trailer
  | err _ ↦ set_before_throw target (internal_error e)
]

-- the function given to `transformCatch`
unfoldable pub catch_error : StatusLibrary → Headers → Reason → Result (Option Bytes)
unfolding internal_error set_trailer_status
catch_error lib target e = set_trailer_status lib target (some (internal_error e)) >>= λ _. ok none

module _ {I O P : Type 0} (lib : StatusLibrary) (serialization : Lookup I O) (opt : HandlerInit)
    (spec : ImplSpec I O P) where
  -- the messages of the request
  unfoldable pub grpc_input : Bool → Negotiated → Stream Bytes → Stream I
  unfolding transform_prepend raise_negotiated transform_split_envelope
      transform_decompress_envelope transform_parse_envelope
  grpc_input binary compression body =
      transform_parse_envelope (serialization.get_i binary) none false (
        transform_decompress_envelope compression.request opt.read_max_bytes (
          transform_split_envelope opt.read_max_bytes
            (transform_prepend (raise_negotiated compression.error) body)))

  -- the bytes of the response
  unfoldable pub grpc_output : Bool → Negotiated → Stream O → Stream Bytes
  unfolding transform_serialize_envelope transform_compress_envelope transform_join_envelopes
  grpc_output binary compression outputs = transform_join_envelopes (
      transform_compress_envelope compression.response opt.compress_min_bytes
        (transform_serialize_envelope (serialization.get_o binary) opt.write_max_bytes outputs))

  unfoldable pub grpc_response : Bool → Negotiated → Context → Stream Bytes → ServerResponse
  unfolding grpc_input grpc_output transform_invoke_implementation transform_catch catch_error
      trailer_after final_error
  grpc_response binary compression context body =
      let (outputs, after) =
        transform_invoke_implementation spec context (grpc_input binary compression body) in
      let bytes = grpc_output binary compression outputs in
      record {
        status = 200;
        header = some after.response_header;
        body = stream_body (transform_catch (catch_error lib after.response_trailer) bytes);
        trailer = some (trailer_after lib after.response_trailer (final_error bytes));
      }

  handle_typed : ParsedType → ServerRequest → Result ServerResponse
  unfolding grpc_response create_handler_context compression_negotiate set_encoding get
  handle_typed type req = do
    context ←
        create_handler_context req.header
          ((header_content_type, if type.binary then content_type_proto else content_type_json)
            ∷ [])
          ((header_grpc_status, grpc_status_ok) ∷ [])
    compression ←
        compression_negotiate opt.accept_compression (get req.header header_encoding)
          (get req.header header_accept_encoding) header_accept_encoding
    header ← set_encoding context.response_header header_encoding compression.response
    ok (
        grpc_response type.binary compression (record context { response_header = header })
          req.body)

  -- the handler that `createHandler` returns
  unfoldable pub grpc_handle : ServerRequest → Result ServerResponse
  unfolding handle_typed parse_content_type get ◌===◌
  grpc_handle req = elim (parse_content_type (get req.header header_content_type)) [
    | none ↦ ok response_unsupported_media_type
    | some type ↦
        if req.method === method_post then handle_typed type req else ok response_method_not_allowed
  ]
