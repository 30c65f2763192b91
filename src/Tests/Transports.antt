-- ===== src/Tests/Transports.antt =====
-- Runs of the transports of packages/connect-node.
use connect_web.Node.Transport.{normalize_message}
use connect_web.Serialization.{partial_message}
use connect_web.Client.Callbacks.{Agrees}
use connect_web.Node.Transport.GrpcWeb.{response_messages}
use connect_web.Node.Transport.GrpcWeb.Accepted.{Accepts}
use connect_web.Node.NodeError.{
  NodeError, error_at, unwrap_node_error_chain, walk, unwrap_node_error_chain-walk,
}
use connect_web.Node.NodeHeader.{
  NodeHeaders, web_header_to_node_headers, node_header_to_web_header,
  node_header_to_web_header-web_header_to_node_headers,
}
use connect_web.Prelude.{ℕ, ◌<◌, true, false, List, [], ◌∷◌, ◌≡◌, refl, ◌↔◌, ◌⊎◌, none, some}
use connect_web.Connect.RequestHeader.{server_streaming}
use connect_web.ConnectError.{err, ok, Bytes}
use connect_web.Serialization.{MessageType}
use connect_web.Headers.{is_name, is_value, normalize, is_http_space, text_lt, Headers}
use connect_web.Text.{codes, lower}
use connect_web.Pattern.{chain}
use connect_web.Stream.{Stream, next, raise, done, of_list}
use connect_web.Transport.{Transport}
use connect_web.Client.{CallOptions, create_server_streaming_fn}
use connect_web.Client.Callbacks.{
  server_streaming_calls, server_streaming_calls-create_server_streaming_fn,
}
use connect_web.Node.ConnectHandler.Exchange.{with_end}
use connect_web.Node.Transport.{ClientResponse, TransportOptions}
use connect_web.Node.Transport.Calls.{CallMethod}
use connect_web.Node.Transport.Connect.{read_messages}
use connect_web.Tests.Handlers.{both, missing, no_library}
use connect_web.Text.Trim.{strip, drop_while}
use connect_web.AsyncIterable.Transforms.{Parsed, message_value, end_value}
use connect_web.Connect.EndStream.{EndStreamResponse}
use connect_web.Node.Transport.Connect.Accepted.{read_messages_iff}
use connect_web.Node.Transport.GrpcWeb.{one_of_each}
use connect_web.Node.Transport.GrpcWeb.Accepted.{read_web_messages_iff, one_of_each_iff}

abbrev options : TransportOptions
options = record {
  base_url = codes "http://localhost";
  use_binary_format = true;
  accept_compression = [];
  send_compression = none;
  compress_min_bytes = 0;
  read_max_bytes = 100;
  write_max_bytes = 100;
}

abbrev bytes_type : MessageType Bytes Bytes
bytes_type = record {
  from_binary = λ b. ok b;
  to_binary = λ x. ok x;
  from_json_string = λ t. ok t;
  to_json_string = λ x. ok x;
  create = λ p. ok p;
}

-- a response of the Connect protocol, without its body
abbrev answer : ClientResponse
answer = record {
  status = 200;
  header = (codes "content-type", codes "application/connect+proto") ∷ [];
  body = done;
  trailer = [];
}

abbrev two_ends : Stream (Parsed Bytes EndStreamResponse)
two_ends = next (message_value (7 ∷ [])) (
    next (end_value (record { metadata = []; error = none }))
      (next (end_value (record { metadata = []; error = none })) done))

read_messages_iff_example : (read_messages false two_ends ≡ of_list ((7 ∷ []) ∷ [])) ↔ (
    (v : EndStreamResponse) × (v.error ≡ none) × (two_ends ≡ of_list (with_end ((7 ∷ []) ∷ []) v)))
read_messages_iff_example = read_messages_iff two_ends ((7 ∷ []) ∷ [])

abbrev with_trailer : Stream (Parsed Bytes Headers)
with_trailer =
    next (message_value (7 ∷ [])) (next (end_value ((codes "grpc-status", codes "0") ∷ [])) done)

read_web_messages_iff_example :
    (response_messages no_library false with_trailer ≡ of_list ((7 ∷ []) ∷ []))
    ↔ Accepts no_library false with_trailer ((7 ∷ []) ∷ [])
read_web_messages_iff_example = read_web_messages_iff no_library false with_trailer ((7 ∷ []) ∷ [])

one_of_each_iff_example :
    (one_of_each none none with_trailer
      ≡ ok (some ((codes "grpc-status", codes "0") ∷ []), some (7 ∷ [])))
    ↔ ((with_trailer
          ≡ of_list
              (message_value (7 ∷ []) ∷ end_value ((codes "grpc-status", codes "0") ∷ []) ∷ []))
        ⊎ (with_trailer
            ≡ of_list
                (end_value ((codes "grpc-status", codes "0") ∷ []) ∷ message_value (7 ∷ []) ∷ [])))
one_of_each_iff_example =
    one_of_each_iff ((codes "grpc-status", codes "0") ∷ []) (7 ∷ []) with_trailer

abbrev call_method : CallMethod Bytes Bytes Bytes
call_method = record {
  service = codes "Cats";
  name = codes "Find";
  kind = server_streaming;
  input = bytes_type;
  lookup = both;
}

abbrev no_options : CallOptions
no_options = record { timeout_ms = none; headers = none }

abbrev connect_headers : Headers
connect_headers =
    (codes "connect-protocol-version", codes "1")
    ∷ (codes "content-type", codes "application/connect+proto")
    ∷ []

-- a transport whose streams end with an error behind one message
abbrev failing_transport : Transport Bytes Bytes Bytes
failing_transport = record {
  unary = λ timeout header input. err missing;
  stream = λ timeout header input.
      ok (record { header = []; message = next (7 ∷ []) (raise missing); trailer = [] });
}

server_streaming_calls-create_server_streaming_fn_example :
    Agrees true
      (normalize_message bytes_type (partial_message []))
      (server_streaming_calls failing_transport bytes_type true no_options (partial_message []))
      (create_server_streaming_fn failing_transport bytes_type no_options (partial_message []))
server_streaming_calls-create_server_streaming_fn_example =
    server_streaming_calls-create_server_streaming_fn failing_transport bytes_type true no_options
      (partial_message [])

-- two errors that are the cause of each other
abbrev circle : List NodeError
circle =
    record {
      code = some (codes "ENOTFOUND");
      syscall = none;
      cause = some (error_at 1);
      reason = missing;
    }
    ∷ record { code = none; syscall = none; cause = some (error_at 0); reason = missing }
    ∷ []

unwrap_node_error_chain-walk_example :
    (chain : List ℕ) × (unwrap_node_error_chain circle (error_at 0) ≡ some chain)
    × ((fuel : ℕ) → 2 < fuel → walk fuel circle [] (error_at 0) ≡ some chain)
unwrap_node_error_chain-walk_example = unwrap_node_error_chain-walk circle (error_at 0)

node_header_to_web_header-web_header_to_node_headers_example :
    (o : NodeHeaders) × (web_header_to_node_headers (some connect_headers) ≡ some o)
    × (node_header_to_web_header o ≡ ok connect_headers)
unfolding is_name is_value normalize strip drop_while is_http_space text_lt lower
node_header_to_web_header-web_header_to_node_headers_example =
    node_header_to_web_header-web_header_to_node_headers connect_headers (((refl, tt)), (tt, tt))
      ((refl, (refl, (refl, refl))), ((refl, (refl, (refl, refl))), tt))
