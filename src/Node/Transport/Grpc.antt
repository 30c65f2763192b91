-- ===== src/Node/Transport/Grpc.antt =====
-- grpc-transport.ts of packages/connect-node/src: calls over the gRPC protocol, for a client that sends
-- the request and receives the response.
use connect_web.Prelude.{false, [], ◌∷◌, Option, none, some, if◌then◌else◌}
use connect_web.Text.{codes}
use connect_web.Code.{invalid_argument}
use connect_web.ConnectError.{Reason, Result, ok, err, connect_error, simple_error, Bytes, ◌>>=◌}
use connect_web.Stream.{Stream, done, raise, next, of_list}
use connect_web.Envelope.{Compression}
use connect_web.Serialization.{Lookup, Serialization, MessageType}
use connect_web.AsyncIterable.Split.{transform_split_envelope}
use connect_web.AsyncIterable.Transforms.{
  transform_serialize_envelope, transform_compress_envelope, transform_join_envelopes,
  transform_decompress_envelope, transform_parse_envelope,
}
use connect_web.Grpc.TrailerStatus.{StatusLibrary, validate_trailer}
use connect_web.Grpc.ValidateResponse.{validate_response_with_compression}
use connect_web.Node.Handler.{method_post}
use connect_web.Node.Transport.{
  ClientFn, TransportOptions, Request, Response, transform_normalize_message, as_inputs,
}

pub extra_output : Reason
extra_output = connect_error (
    simple_error (codes "protocol error: received extra output message for unary method")
      invalid_argument)

missing_output : Reason
missing_output = connect_error (
    simple_error (codes "protocol error: missing output message for unary method") invalid_argument)

-- the message of a unary response, by what was received before
unfoldable pub only_message : {O : Type 0} → Option O → Stream O → Result (Option O)
unfolding extra_output
only_message message done = ok message
only_message message (raise e) = err e
only_message none (next m s) = only_message (some m) s
only_message (some x) (next m s) = err extra_output

unfoldable pub required_message : {O : Type 0} → Option O → Result O
unfolding missing_output
required_message none = err missing_output
required_message (some m) = ok m

-- `validateTrailer` behind the messages
unfoldable pub then_validate : {O : Type 0} → Result (Unit {0}) → Stream O → Stream O
then_validate (ok t) done = done
then_validate (err e) done = raise e
then_validate r (raise e) = raise e
then_validate r (next m s) = next m (then_validate r s)

-- the bytes of messages in envelopes
unfoldable pub messages_body :
    {I : Type 0} → Serialization I → TransportOptions → Stream I → Stream Bytes
unfolding transform_serialize_envelope transform_compress_envelope transform_join_envelopes
messages_body serialization opt input = transform_join_envelopes (
    transform_compress_envelope opt.send_compression opt.compress_min_bytes
      (transform_serialize_envelope serialization opt.write_max_bytes input))

-- the messages of a body
unfoldable pub body_messages :
    {O : Type 0} → Serialization O → TransportOptions → Option Compression → Stream Bytes → Stream O
unfolding transform_split_envelope transform_decompress_envelope transform_parse_envelope
body_messages serialization opt compression body =
    transform_parse_envelope serialization none false (
      transform_decompress_envelope compression opt.read_max_bytes
        (transform_split_envelope opt.read_max_bytes body))

module _ {I O : Type 0} (lib : StatusLibrary) (serialization : Lookup I O) (opt : TransportOptions)
    (client : ClientFn) where
  -- the function that `unary` calls behind the interceptors
  unfoldable pub unary_next : Request I → Result (Response O)
  unfolding messages_body body_messages only_message required_message validate_trailer
      validate_response_with_compression of_list
  unary_next req = do
    res ← client (record {
      url = req.url;
      method = method_post;
      header = req.header;
      body =
          messages_body (serialization.get_i opt.use_binary_format) opt
            (of_list (req.message ∷ []));
    })
    valid ←
        validate_response_with_compression lib opt.use_binary_format opt.accept_compression
          res.status res.header
    received ←
        only_message none
          (body_messages (serialization.get_o opt.use_binary_format) opt valid.compression res.body)
    valid_trailer ← validate_trailer lib res.trailer
    m ← required_message received
    ok (record { header = res.header; message = m; trailer = res.trailer })

module _ {I O PI : Type 0} (lib : StatusLibrary) (serialization : Lookup I O)
    (opt : TransportOptions) (client : ClientFn) where
  -- the function that `stream` calls behind the interceptors
  unfoldable pub stream_next : MessageType I PI → Request (Stream I) → Result (Response (Stream O))
  unfolding messages_body body_messages then_validate validate_trailer
      validate_response_with_compression transform_normalize_message as_inputs
  stream_next type req = do
    res ← client (record {
      url = req.url;
      method = method_post;
      header = req.header;
      body =
          messages_body (serialization.get_i opt.use_binary_format) opt
            (transform_normalize_message type (as_inputs req.message));
    })
    valid ←
        validate_response_with_compression lib opt.use_binary_format opt.accept_compression
          res.status res.header
    let messages =
        body_messages (serialization.get_o opt.use_binary_format) opt valid.compression res.body
    ok (record {
      header = res.header;
      message =
          if valid.found_status
          then messages
          else then_validate (validate_trailer lib res.trailer) messages;
      trailer = res.trailer;
    })
