-- ===== src/Tests/Handlers.antt =====
-- Runs of the handlers of packages/connect-node.
use connect_web.Prelude.{true, [], ◌∷◌, ◌≡◌, refl, none, some, arith}
use connect_web.Text.{codes, ◌===◌, lower}
use connect_web.Code.{not_found}
use connect_web.Headers.{
  Headers, get, lookup, insert, set, is_name, is_value, normalize, copy, append_all, put_field,
}
use connect_web.Text.Percent.{encode_uri_component}
use connect_web.ConnectError.{Reason, ok, err, Bytes, connect_error, simple_error, new_error}
use connect_web.Serialization.{Serialization, Lookup}
use connect_web.Stream.{done, raise, next, prepend, map_stream}
use connect_web.Compression.{Negotiated, compression_validate_options}
use connect_web.AsyncIterable.Transforms.{transform_serialize_envelope}
use connect_web.Node.Universal.{
  ServerRequest, ServerResponse, stream_body, byte_body, response_unsupported_media_type,
}
use connect_web.Node.Implementation.{
  Context, whole_output, ImplSpec, bidi_streaming_impl, transform_invoke_implementation,
  normalize_output,
}
use connect_web.Node.Handler.{HandlerInit, method_post, internal_error}
use connect_web.AsyncIterable.Transforms.{transform_compress_envelope, transform_join_envelopes}
use connect_web.Grpc.ContentType as GrpcType
use connect_web.Grpc.TrailerStatus.{StatusLibrary, set_trailer_status, find_trailer_error}
use connect_web.Grpc.TrailerStatus.RoundTrip.{found_error, find_trailer_error-set_trailer_status}
use connect_web.GrpcWeb.Trailer.{trailer_parse, trailer_serialize}
use connect_web.GrpcWeb.Trailer.RoundTrip.{trailer_parse-trailer_serialize}
use connect_web.Headers.{text_lt, is_token, is_http_space}
use connect_web.Text.{starts_with}
use connect_web.Text.Trim.{trim, strip, drop_while, is_space}
use connect_web.Connect.TrailerMux.{trailer_mux}
use connect_web.Connect.HttpStatus.{code_to_http_status}
use connect_web.Connect.RequestHeader.{unary}
use connect_web.Connect.ValidateResponse.{validate_response}
use connect_web.Node.GrpcHandler.{grpc_response, grpc_output}
use connect_web.Node.GrpcHandler.Failure.{grpc_response-found_error}
use connect_web.Node.ConnectHandler.Unary.{unary_response, error_header, set_each}
use connect_web.Node.ConnectHandler.Failure.{unary_response-validate_response}
use connect_web.Node.Negotiation.{UniversalHandler, protocol_negotiating_handler, content_type_of}
use connect_web.Node.Negotiation.Dispatch.{
  first_supporting, dispatched, protocol_negotiating_handler-dispatched,
}
use connect_web.Node.Negotiation.Options.{IsInRange, given, compression_validate_options-IsInRange}

abbrev pub bytes_as_they_are : Serialization Bytes
bytes_as_they_are = record { serialize = λ x. ok x; parse = λ b. ok b }

abbrev pub both : Lookup Bytes Bytes
both = record { get_i = λ binary. bytes_as_they_are; get_o = λ binary. bytes_as_they_are }

abbrev pub init : HandlerInit
init = record {
  accept_compression = [];
  compress_min_bytes = 0;
  read_max_bytes = 100;
  write_max_bytes = 100;
}

abbrev pub uncompressed : Negotiated
uncompressed = record { request = none; response = none; error = none }

abbrev pub missing : Reason
missing = connect_error (simple_error (codes "no cat") not_found)

-- one output, and then an error
abbrev pub failing : ImplSpec Bytes Bytes (Unit {0})
failing = record {
  service = codes "Cats";
  method = codes "Find";
  impl =
      bidi_streaming_impl
        (λ input context. (next (whole_output (7 ∷ [])) (raise missing), context));
  output_type = codes "Cat";
  construct = λ p. ok [];
}

abbrev pub no_context : Context
no_context = record { request_header = []; response_header = []; response_trailer = [] }

-- what an implementation without an output leaves: the error in the trailer
abbrev silent : ImplSpec Bytes Bytes (Unit {0})
silent = record failing { impl = bidi_streaming_impl (λ input context. (raise missing, context)) }

abbrev pub no_library : StatusLibrary
no_library = record {
  to_binary = λ s. ok [];
  from_binary = λ b. err missing;
  enc = λ b. [];
  dec = λ t. ok [];
  pack = λ m. record { type_url = m.type_name; value = m.binary };
}

grpc_response-found_error_example :
    let r = grpc_response no_library both init silent true uncompressed no_context done in
    (t : Headers) × (r.body ≡ stream_body (prepend [] done))
    × (r.trailer ≡ some t)
    × (find_trailer_error no_library t
        ≡ ok (some (found_error no_library t (simple_error (codes "no cat") not_found))))
unfolding transform_invoke_implementation map_stream normalize_output grpc_output prepend
    internal_error encode_uri_component get lookup new_error transform_serialize_envelope
    transform_compress_envelope transform_join_envelopes
grpc_response-found_error_example =
    grpc_response-found_error no_library both init silent true uncompressed no_context no_context
      done (raise missing) [] missing (codes "no%20cat") refl refl refl
      (omega arith, (omega arith, (omega arith, (omega arith, (omega arith, (omega arith, tt))))))
      refl refl

abbrev json_content : Headers
json_content = (codes "content-type", codes "application/json") ∷ []

unary_response-validate_response_example :
    (r : ServerResponse) × (unary_response
        (λ e. ok (1 ∷ []))
        both
        init
        failing
        true
        uncompressed
        no_context
        (raise missing)
      ≡ ok r)
    × (r.status ≡ 404)
    × (r.header ≡ some json_content)
    × (r.body ≡ byte_body (1 ∷ []))
    × (validate_response unary true r.status json_content ≡ ok true)
unfolding error_header trailer_mux transform_serialize_envelope map_stream internal_error set_each
    copy append_all put_field insert is_name is_value normalize lower new_error code_to_http_status
    set lookup strip drop_while is_http_space
unary_response-validate_response_example =
    unary_response-validate_response (λ e. ok (1 ∷ [])) both init failing true uncompressed
      no_context (raise missing) missing json_content json_content (1 ∷ []) refl refl tt tt refl
      refl (omega arith) refl

compression_validate_options-IsInRange_example :
    IsInRange (record { write_max_bytes = 5; read_max_bytes = 0xffffffff; compress_min_bytes = 0 })
    × (compression_validate_options (
          given
            (record { write_max_bytes = 5; read_max_bytes = 0xffffffff; compress_min_bytes = 0 }))
        ≡ ok (record { write_max_bytes = 5; read_max_bytes = 0xffffffff; compress_min_bytes = 0 }))
unfolding compression_validate_options
compression_validate_options-IsInRange_example =
    compression_validate_options-IsInRange
      (record { write_max_bytes = some 5; read_max_bytes = none; compress_min_bytes = none })
      (record { write_max_bytes = 5; read_max_bytes = 0xffffffff; compress_min_bytes = 0 }) refl

-- a handler for gRPC, and a request with a type that it does not support
abbrev grpc_only : UniversalHandler
grpc_only = record {
  handle = λ request. ok (record response_unsupported_media_type { status = 299 });
  protocol_names = codes "grpc" ∷ [];
  supported_content_type = GrpcType.content_type_reg_exp;
  allowed_methods = method_post ∷ [];
  request_path = codes "/Cats/Find";
}

abbrev grpc_request : ServerRequest
grpc_request = record {
  http_version = codes "2.0";
  method = codes "POST";
  header = (codes "content-type", codes "application/grpc") ∷ [];
  body = done;
}

protocol_negotiating_handler-dispatched_example :
    protocol_negotiating_handler true (grpc_only ∷ []) grpc_request
    ≡ dispatched
        (first_supporting
          (grpc_only ∷ [])
          (content_type_of (get grpc_request.header (codes "Content-Type"))))
        grpc_request
unfolding starts_with
protocol_negotiating_handler-dispatched_example =
    protocol_negotiating_handler-dispatched true (grpc_only ∷ []) grpc_request (refl, tt) refl

abbrev status_trailer : Headers
status_trailer = (codes "grpc-message", codes "") ∷ (codes "grpc-status", codes "0") ∷ []

trailer_parse-trailer_serialize_example :
    trailer_parse (trailer_serialize status_trailer) ≡ ok status_trailer
unfolding is_name is_value normalize lower trim text_lt is_token strip drop_while is_http_space
    is_space
trailer_parse-trailer_serialize_example =
    trailer_parse-trailer_serialize status_trailer ((refl, tt), (tt, tt))
      (((refl, (refl, (refl, refl))), refl), (((refl, (refl, (refl, refl))), refl), tt))

find_trailer_error-set_trailer_status_example :
    (t : Headers) × (set_trailer_status no_library status_trailer
        (some (simple_error (codes "no cat") not_found))
      ≡ ok t)
    × (find_trailer_error no_library t
        ≡ ok (some (found_error no_library t (simple_error (codes "no cat") not_found))))
unfolding encode_uri_component get lookup new_error lower ◌===◌
find_trailer_error-set_trailer_status_example =
    find_trailer_error-set_trailer_status no_library status_trailer
      (simple_error (codes "no cat") not_found) (codes "no%20cat") refl
      (omega arith, (omega arith, (omega arith, (omega arith, (omega arith, (omega arith, tt))))))
      refl refl
