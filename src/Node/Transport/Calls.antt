-- ===== src/Node/Transport/Calls.antt =====
-- The transports that connect-transport.ts, grpc-transport.ts and grpc-web-transport.ts of
-- packages/connect-node/src create: how a call gets its URL, its header and its interceptors.
use connect_web.Prelude.{ℕ, List, Option}
use connect_web.Text.{Text}
use connect_web.Headers.{Headers}
use connect_web.ConnectError.{Result, ◌>>=◌}
use connect_web.Stream.{Stream}
use connect_web.Serialization.{Lookup, Input, MessageType}
use connect_web.MethodUrl.{create_method_url}
use connect_web.Interceptor.{run_call}
use connect_web.Connect.ErrorJson.{JsonLibrary}
use connect_web.Connect.JsonBytes.{JsonText, create_end_stream_serialization}
use connect_web.Connect.RequestHeader.{MethodKind}
use connect_web.Connect.RequestHeader as ConnectHeader
use connect_web.Grpc.RequestHeader as GrpcHeader
use connect_web.Grpc.TrailerStatus.{StatusLibrary}
use connect_web.GrpcWeb.RequestHeader as GrpcWebHeader
use connect_web.Node.Transport.{
  ClientFn, TransportOptions, Request, Response, normalize_message, transform_normalize_message,
  as_inputs,
}
use connect_web.Node.Transport.Connect as Connect
use connect_web.Node.Transport.Grpc as Grpc
use connect_web.Node.Transport.GrpcWeb as GrpcWeb
use connect_web.Transport.{Transport}

-- the interceptors of the options, or undefined
abbrev pub Interceptors : Type 0 → Type 0 → Type 0
Interceptors Q R = Option (List ((Q → Result R) → Q → Result R))

-- the arguments `service` and `method` of a call, with what `createMethodSerializationLookup` returns
pub record CallMethod (I PI O : Type 0) : Type 0 where
  pub service : Text
  pub name : Text
  pub kind : MethodKind
  pub input : MessageType I PI
  pub lookup : Lookup I O

module _ {I PI O : Type 0} (opt : TransportOptions) (client : ClientFn) (method : CallMethod I PI O)
    (interceptors : Interceptors (Request I) (Response O))
    (stream_interceptors : Interceptors (Request (Stream I)) (Response (Stream O))) where
  url : Text
  unfolding create_method_url
  url = create_method_url opt.base_url method.service method.name

  -- a unary call, by its header and what runs behind the interceptors
  unfoldable pub unary_call :
      Result Headers → (Request I → Result (Response O)) → Input I PI → Result (Response O)
  unfolding run_call normalize_message url
  unary_call request_header behind input = do
    header ← request_header
    message ← normalize_message method.input input
    run_call (record { url = url; header = header; message = message }) behind interceptors

  -- a streaming call
  unfoldable pub stream_call :
      Result Headers
      → (Request (Stream I) → Result (Response (Stream O)))
      → Stream I
      → Result (Response (Stream O))
  unfolding run_call transform_normalize_message as_inputs url
  stream_call request_header behind input = do
    header ← request_header
    run_call
        (record {
          url = url;
          header = header;
          message = transform_normalize_message method.input (as_inputs input);
        })
        behind stream_interceptors

  unfoldable pub create_connect_transport : JsonText → JsonLibrary → Transport I PI O
  unfolding unary_call stream_call ConnectHeader.create_request_header_with_compression
      Connect.unary_next Connect.stream_next create_end_stream_serialization
  create_connect_transport text lib =
      let request_header = λ (timeout : Option ℕ) (user : Option Headers).
        ConnectHeader.create_request_header_with_compression method.kind opt.use_binary_format
          timeout user opt.accept_compression opt.send_compression in
      record {
        unary = λ timeout user.
            unary_call (request_header timeout user)
              (Connect.unary_next text lib method.lookup opt client method.kind);
        stream = λ timeout user. stream_call (request_header timeout user) (
            Connect.stream_next method.lookup opt client (create_end_stream_serialization text lib)
              method.input method.kind);
      }

  unfoldable pub create_grpc_transport : StatusLibrary → Transport I PI O
  unfolding unary_call stream_call GrpcHeader.create_request_header_with_compression Grpc.unary_next
      Grpc.stream_next
  create_grpc_transport lib =
      let request_header = λ (timeout : Option ℕ) (user : Option Headers).
        GrpcHeader.create_request_header_with_compression opt.use_binary_format timeout user
          opt.accept_compression opt.send_compression in
      record {
        unary = λ timeout user.
            unary_call (request_header timeout user) (Grpc.unary_next lib method.lookup opt client);
        stream = λ timeout user.
            stream_call (request_header timeout user)
              (Grpc.stream_next lib method.lookup opt client method.input);
      }

  unfoldable pub create_grpc_web_transport : StatusLibrary → Transport I PI O
  unfolding unary_call stream_call GrpcWebHeader.create_request_header_with_compression
      GrpcWeb.unary_next GrpcWeb.stream_next
  create_grpc_web_transport lib =
      let request_header = λ (timeout : Option ℕ) (user : Option Headers).
        GrpcWebHeader.create_request_header_with_compression opt.use_binary_format timeout user
          opt.accept_compression opt.send_compression in
      record {
        unary = λ timeout user.
            unary_call (request_header timeout user)
              (GrpcWeb.unary_next lib method.lookup opt client);
        stream = λ timeout user.
            stream_call (request_header timeout user)
              (GrpcWeb.stream_next lib method.lookup opt client method.input);
      }
