-- ===== src/Node/Transport/GrpcWeb.antt =====
-- grpc-web-transport.ts of packages/connect-node/src: calls over the gRPC-web protocol, for a client that
-- sends the request and receives the response.
pub mod Accepted
use connect_web.Prelude.{
  get_elem?, ℕ, zero, suc, ◌+◌, ◌-◌, ◌*◌, ◌/◌, ◌%◌, ◌^◌, ◌≤◌, ◌<◌, Bool, true, false, not, ◌&&◌,
  ◌||◌, List, [], ◌∷◌, ◌++◌, map, ℤ, pos, negsuc, ◌≡◌, refl, sym, ap, ap₂, ◌∙◌, ◌≢◌, ◌↔◌, ◌⊎◌, inl,
  inr, Option, none, some, String, arith, leb, ltb, ◌==◌, if◌then◌else◌, Bool-cases, Option-cases,
  ==_iff, leb→le, ltb→lt, lt→ltb, tests, length, length-append, take, drop, take-append-drop,
  length-take, length-drop, length-map, fun_ext, replicate, length-replicate, append-nil,
  append_assoc,
}
use connect_web.Text.{codes}
use connect_web.Code.{invalid_argument}
use connect_web.Headers.{Headers}
use connect_web.ConnectError.{Reason, Result, ok, err, connect_error, simple_error, ◌>>=◌}
use connect_web.Stream.{Stream, done, raise, next, of_list}
use connect_web.Serialization.{Lookup, MessageType}
use connect_web.AsyncIterable.Transforms.{Parsed, message_value, end_value}
use connect_web.Connect.EndStream.{append_headers}
use connect_web.Grpc.TrailerStatus.{StatusLibrary, validate_trailer}
use connect_web.GrpcWeb.Trailer.{trailer_flag, create_trailer_serialization}
use connect_web.GrpcWeb.ValidateResponse.{validate_response_with_compression}
use connect_web.Node.Handler.{method_post}
use connect_web.Node.Transport.{
  ClientFn, TransportOptions, Request, Response, transform_normalize_message, as_inputs,
}
use connect_web.Node.Transport.Connect.{parsed_response}
use connect_web.Node.Transport.Grpc.{extra_output, required_message, messages_body}

extra_trailer : Reason
extra_trailer =
    connect_error (simple_error (codes "protocol error: received extra trailer") invalid_argument)

missing_trailer : Reason
missing_trailer =
    connect_error (simple_error (codes "protocol error: missing trailer") invalid_argument)

extra_message : Reason
extra_message =
    connect_error
      (simple_error (codes "protocol error: received extra message after trailer") invalid_argument)

extra_data : Reason
extra_data =
    connect_error
      (simple_error (codes "protocol error: extra data for trailers-only") invalid_argument)

unfoldable pub required_trailer : Option Headers → Result Headers
unfolding missing_trailer
required_trailer none = err missing_trailer
required_trailer (some t) = ok t

module _ {O : Type 0} where
  -- the trailer and the message of a unary response, by what was received before
  unfoldable pub one_of_each :
      Option Headers → Option O → Stream (Parsed O Headers) → Result (Option Headers × Option O)
  unfolding extra_trailer
  one_of_each trailer message done = ok (trailer, message)
  one_of_each trailer message (raise e) = err e
  one_of_each none message (next (end_value t) s) = one_of_each (some t) message s
  one_of_each (some u) message (next (end_value t) s) = err extra_trailer
  one_of_each trailer none (next (message_value m) s) = one_of_each trailer (some m) s
  one_of_each trailer (some n) (next (message_value m) s) = err extra_output

  -- the messages of a trailers-only response: none
  unfoldable pub no_messages : Stream (Parsed O Headers) → Stream O
  unfolding extra_data
  no_messages done = done
  no_messages (raise e) = raise e
  no_messages (next x s) = raise extra_data

  -- the messages of a response, by whether its trailer was received
  unfoldable pub read_messages : StatusLibrary → Bool → Stream (Parsed O Headers) → Stream O
  unfolding extra_trailer missing_trailer extra_message validate_trailer
  read_messages lib received done = if received then done else raise missing_trailer
  read_messages lib received (raise e) = raise e
  read_messages lib received (next (message_value x) s) =
      let rest = read_messages lib received s in
      if received then raise extra_message else next x rest
  read_messages lib received (next (end_value t) s) =
      let rest = read_messages lib true s in
      if received
      then raise extra_trailer
      else elim (validate_trailer lib t) [ err e ↦ raise e | ok u ↦ rest ]

  -- the messages of a response, by `foundStatus`
  unfoldable pub response_messages : StatusLibrary → Bool → Stream (Parsed O Headers) → Stream O
  unfolding no_messages read_messages
  response_messages lib found s = if found then no_messages s else read_messages lib false s

  -- the trailer of a response when its messages have been read: that of the first end, if it is valid
  unfoldable pub read_trailer : StatusLibrary → Stream (Parsed O Headers) → Headers
  unfolding validate_trailer append_headers
  read_trailer lib done = []
  read_trailer lib (raise e) = []
  read_trailer lib (next (message_value x) s) = read_trailer lib s
  read_trailer lib (next (end_value t) s) = elim (validate_trailer lib t) [
    | err e ↦ []
    | ok u ↦ append_headers (t ∷ [])
  ]

module _ {I O : Type 0} (lib : StatusLibrary) (serialization : Lookup I O) (opt : TransportOptions)
    (client : ClientFn) where
  -- the function that `unary` calls behind the interceptors
  unfoldable pub unary_next : Request I → Result (Response O)
  unfolding messages_body parsed_response one_of_each required_trailer required_message
      create_trailer_serialization validate_trailer validate_response_with_compression of_list
  unary_next req = do
    res ← client (record {
      url = req.url;
      method = method_post;
      header = req.header;
      body =
          messages_body (serialization.get_i opt.use_binary_format) opt
            (of_list (req.message ∷ []));
    })
    valid ←
        validate_response_with_compression lib opt.use_binary_format opt.accept_compression
          res.status res.header
    (found, received) ← one_of_each none none (
        parsed_response (serialization.get_o opt.use_binary_format) trailer_flag
          create_trailer_serialization opt.read_max_bytes valid.compression res.body)
    trailer ← required_trailer found
    valid_trailer ← validate_trailer lib trailer
    m ← required_message received
    ok (record { header = res.header; message = m; trailer = trailer })

module _ {I O PI : Type 0} (lib : StatusLibrary) (serialization : Lookup I O)
    (opt : TransportOptions) (client : ClientFn) where
  -- the function that `stream` calls behind the interceptors
  unfoldable pub stream_next : MessageType I PI → Request (Stream I) → Result (Response (Stream O))
  unfolding messages_body parsed_response response_messages read_trailer
      create_trailer_serialization validate_response_with_compression transform_normalize_message
      as_inputs
  stream_next type req = do
    res ← client (record {
      url = req.url;
      method = method_post;
      header = req.header;
      body =
          messages_body (serialization.get_i opt.use_binary_format) opt
            (transform_normalize_message type (as_inputs req.message));
    })
    valid ←
        validate_response_with_compression lib opt.use_binary_format opt.accept_compression
          res.status res.header
    let parsed =
        parsed_response (serialization.get_o opt.use_binary_format) trailer_flag
          create_trailer_serialization opt.read_max_bytes valid.compression res.body
    ok (record {
      header = res.header;
      message = response_messages lib valid.found_status parsed;
      trailer = if valid.found_status then [] else read_trailer lib parsed;
    })
