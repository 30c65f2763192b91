-- ===== src/Node/Protocols.antt =====
-- The factories of connect-handler.ts, grpc-handler.ts and grpc-web-handler.ts in
-- packages/connect-node/src: a handler for each method and protocol.
use connect_web.Prelude.{Bool, true, false, [], ◌∷◌, some, if◌then◌else◌}
use connect_web.Text.{codes}
use connect_web.ConnectError.{Result, ok, ◌>>=◌}
use connect_web.Serialization.{Lookup}
use connect_web.Compression.{PartialOptions, compression_validate_options}
use connect_web.MethodUrl.{create_method_url}
use connect_web.Node.Handler.{HandlerInit, method_post}
use connect_web.Node.Implementation.{
  ImplSpec, MethodImpl, unary_impl, server_streaming_impl, client_streaming_impl,
  bidi_streaming_impl,
}
use connect_web.Node.Negotiation.{UniversalHandler}
use connect_web.Node.GrpcHandler.{grpc_handle}
use connect_web.Node.GrpcWebHandler.{grpc_web_handle}
use connect_web.Node.ConnectHandler.Unary.{unary_handle}
use connect_web.Node.ConnectHandler.Streaming.{stream_handle}
use connect_web.Connect.JsonBytes.{JsonText, error_to_json_bytes, create_end_stream_serialization}
use connect_web.Connect.ErrorJson.{JsonLibrary}
use connect_web.Grpc.TrailerStatus.{StatusLibrary}
use connect_web.Grpc.ContentType as GrpcType
use connect_web.GrpcWeb.ContentType as GrpcWebType
use connect_web.Connect.ContentType.{content_type_unary_reg_exp, content_type_stream_reg_exp}

-- `compressionValidateOptions(options)`, which checks the limits again
limits_of : HandlerInit → PartialOptions
limits_of opt = record {
  write_max_bytes = some opt.write_max_bytes;
  read_max_bytes = some opt.read_max_bytes;
  compress_min_bytes = some opt.compress_min_bytes;
}

module _ {I O P : Type 0} (serialization : Lookup I O) where
  unfoldable pub create_grpc_handler_protocol :
      StatusLibrary → HandlerInit → Result (ImplSpec I O P → UniversalHandler)
  unfolding limits_of compression_validate_options grpc_handle create_method_url
  create_grpc_handler_protocol lib opt = compression_validate_options (limits_of opt) >>= λ _.
      ok (λ spec. record {
        handle = grpc_handle lib serialization opt spec;
        protocol_names = codes "grpc" ∷ [];
        allowed_methods = method_post ∷ [];
        supported_content_type = GrpcType.content_type_reg_exp;
        request_path = create_method_url (codes "/") spec.service spec.method;
      })

  unfoldable pub create_grpc_web_protocol_handler :
      StatusLibrary → HandlerInit → Result (ImplSpec I O P → UniversalHandler)
  unfolding limits_of compression_validate_options grpc_web_handle create_method_url
  create_grpc_web_protocol_handler lib opt = compression_validate_options (limits_of opt) >>= λ _.
      ok (λ spec. record {
        handle = grpc_web_handle lib serialization opt spec;
        protocol_names = codes "grpc-web" ∷ [];
        allowed_methods = method_post ∷ [];
        supported_content_type = GrpcWebType.content_type_reg_exp;
        request_path = create_method_url (codes "/") spec.service spec.method;
      })

  is_unary_impl : MethodImpl I O P → Bool
  is_unary_impl (unary_impl f) = true
  is_unary_impl (server_streaming_impl f) = false
  is_unary_impl (client_streaming_impl f) = false
  is_unary_impl (bidi_streaming_impl f) = false

  unfoldable pub create_connect_protocol_handler :
      JsonText → JsonLibrary → HandlerInit → Result (ImplSpec I O P → UniversalHandler)
  unfolding limits_of compression_validate_options unary_handle stream_handle is_unary_impl
      error_to_json_bytes create_end_stream_serialization create_method_url
  create_connect_protocol_handler text lib opt =
      compression_validate_options (limits_of opt) >>= λ _. ok (λ spec. record {
        handle =
            if is_unary_impl spec.impl
            then unary_handle (error_to_json_bytes text lib) serialization opt spec
            else stream_handle (create_end_stream_serialization text lib) serialization opt spec;
        protocol_names = codes "connect" ∷ [];
        allowed_methods = method_post ∷ [];
        supported_content_type =
            if is_unary_impl spec.impl
            then content_type_unary_reg_exp
            else content_type_stream_reg_exp;
        request_path = create_method_url (codes "/") spec.service spec.method;
      })
