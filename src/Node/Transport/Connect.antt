-- ===== src/Node/Transport/Connect.antt =====
-- connect-transport.ts of packages/connect-node/src: calls over the Connect protocol, for a client that
-- sends the request and receives the response.
pub mod Received
pub mod Accepted
pub mod Call
use connect_web.Prelude.{
  ℕ, Bool, true, false, [], ◌∷◌, Option, none, some, ltb, if◌then◌else◌, length,
}
use connect_web.Text.{codes}
use connect_web.Text.Utf8.{buffer_to_string}
use connect_web.Code.{invalid_argument}
use connect_web.Headers.{Headers, get, set, remove}
use connect_web.ConnectError.{
  Reason, Result, ok, err, connect_error, simple_error, checked, Bytes, ◌>>=◌,
}
use connect_web.Stream.{Stream, done, raise, next, of_list}
use connect_web.Envelope.{Compression}
use connect_web.Serialization.{Lookup, Serialization, MessageType}
use connect_web.AsyncIterable.ReadAllBytes.{sink_all_bytes}
use connect_web.AsyncIterable.Split.{transform_split_envelope}
use connect_web.AsyncIterable.Transforms.{
  Parsed, message_value, end_value, transform_serialize_envelope, transform_compress_envelope,
  transform_join_envelopes, transform_decompress_envelope, transform_parse_envelope_end,
}
use connect_web.Connect.ErrorJson.{JsonLibrary, error_from_json}
use connect_web.Connect.JsonBytes.{JsonText}
use connect_web.Connect.EndStream.{EndStreamResponse, end_stream_flag, append_headers}
use connect_web.Connect.RequestHeader.{MethodKind, header_unary_encoding}
use connect_web.Connect.TrailerMux.{trailer_demux}
use connect_web.Connect.ValidateResponse.{validate_response_with_compression}
use connect_web.Node.ConnectHandler.Unary.{header_unary_content_length, length_hint}
use connect_web.Node.Handler.{method_post}
use connect_web.Node.Transport.{
  ClientFn, TransportOptions, Request, Response, transform_normalize_message, as_inputs,
}

-- the body of a unary request, and its header with or without the encoding
unfoldable pub compress_body :
    TransportOptions → Headers → Bytes → Option Compression → Result (Bytes × Headers)
compress_body opt header body none = ok (body, remove header header_unary_encoding)
compress_body opt header body (some c) =
    if ltb opt.compress_min_bytes (length body)
    then (do
      small ← c.compress body
      h ← checked (set header header_unary_encoding c.name)
      ok (small, h))
    else ok (body, remove header header_unary_encoding)

unfoldable pub decompress_body : TransportOptions → Option Compression → Bytes → Result Bytes
decompress_body opt none body = ok body
decompress_body opt (some c) body = c.decompress body opt.read_max_bytes

-- `throw errorFromJson(jsonParse(body), appendHeaders(header, trailer))`
unfoldable pub throw_unary_error {ℓ} :
    {A : Type ℓ} → JsonText → JsonLibrary → Bytes → Headers → Result A
unfolding buffer_to_string error_from_json
throw_unary_error text lib body metadata = do
  value ← text.parse (buffer_to_string body)
  e ← error_from_json lib value metadata
  err (connect_error e)

extra_end : Reason
extra_end =
    connect_error
      (simple_error (codes "protocol error: received extra EndStreamResponse") invalid_argument)

extra_message : Reason
extra_message = connect_error (
    simple_error (codes "protocol error: received extra message after EndStreamResponse")
      invalid_argument)

missing_end : Reason
missing_end =
    connect_error
      (simple_error (codes "protocol error: missing EndStreamResponse") invalid_argument)

module _ {O : Type 0} where
  -- the messages of a response, by whether its end was received
  unfoldable pub read_messages : Bool → Stream (Parsed O EndStreamResponse) → Stream O
  unfolding extra_end extra_message missing_end
  read_messages received done = if received then done else raise missing_end
  read_messages received (raise e) = raise e
  read_messages received (next (message_value x) s) =
      let rest = read_messages received s in if received then raise extra_message else next x rest
  read_messages received (next (end_value v) s) =
      let rest = read_messages true s in
      if received
      then raise extra_end
      else elim v.error [ some e ↦ raise (connect_error e) | none ↦ rest ]

  -- the trailer of a response when its messages have been read: the metadata of the first end, unless it
  -- has an error
  unfoldable pub read_trailer : Stream (Parsed O EndStreamResponse) → Headers
  read_trailer done = []
  read_trailer (raise e) = []
  read_trailer (next (message_value x) s) = read_trailer s
  read_trailer (next (end_value v) s) = elim v.error [
    | some e ↦ []
    | none ↦ append_headers (v.metadata ∷ [])
  ]

-- what comes of a valid response: the error that its body holds, or its message
unfoldable pub unary_outcome :
    {O : Type 0}
    → JsonText
    → JsonLibrary
    → Serialization O
    → Bool
    → Bytes
    → Headers
    → Headers
    → Result O
unfolding throw_unary_error append_headers
unary_outcome text lib s failed bytes header trailer =
    if failed
    then throw_unary_error text lib bytes (append_headers (header ∷ trailer ∷ []))
    else s.parse bytes

module _ {I O : Type 0} (text : JsonText) (lib : JsonLibrary) (serialization : Lookup I O)
    (opt : TransportOptions) (client : ClientFn) where
  -- the function that `unary` calls behind the interceptors
  unfoldable pub unary_next : MethodKind → Request I → Result (Response O)
  unfolding compress_body decompress_body unary_outcome validate_response_with_compression
      trailer_demux sink_all_bytes length_hint get of_list
  unary_next kind req = do
    plain ← (serialization.get_i opt.use_binary_format).serialize req.message
    (body, header) ← compress_body opt req.header plain opt.send_compression
    res ← client (record {
      url = req.url;
      method = method_post;
      header = header;
      body = of_list (body ∷ []);
    })
    valid ←
        validate_response_with_compression kind opt.use_binary_format opt.accept_compression
          res.status res.header
    (response_header, response_trailer) ← trailer_demux res.header
    received ←
        sink_all_bytes opt.read_max_bytes (length_hint (get res.header header_unary_content_length))
          res.body
    bytes ← decompress_body opt valid.compression received
    m ←
        unary_outcome text lib (serialization.get_o opt.use_binary_format)
          valid.is_connect_unary_error bytes response_header response_trailer
    ok (record { header = response_header; message = m; trailer = response_trailer })

module _ {I O : Type 0} {PI : Type 0} (serialization : Lookup I O) (opt : TransportOptions) where
  -- the bytes of the request of a stream
  unfoldable pub stream_body_of : MessageType I PI → Stream I → Stream Bytes
  unfolding transform_normalize_message as_inputs transform_serialize_envelope
      transform_compress_envelope transform_join_envelopes
  stream_body_of type input = transform_join_envelopes (
      transform_compress_envelope opt.send_compression opt.compress_min_bytes (
        transform_serialize_envelope (serialization.get_i opt.use_binary_format) opt.write_max_bytes
          (transform_normalize_message type (as_inputs input))))

-- what a response holds of messages and ends
unfoldable pub parsed_response :
    {O E : Type 0}
    → Serialization O
    → ℕ
    → Serialization E
    → ℕ
    → Option Compression
    → Stream Bytes
    → Stream (Parsed O E)
unfolding transform_split_envelope transform_decompress_envelope transform_parse_envelope_end
parsed_response message flag end_stream max compression body =
    transform_parse_envelope_end message flag end_stream
      (transform_decompress_envelope compression max (transform_split_envelope max body))

module _ {I O PI : Type 0} (serialization : Lookup I O) (opt : TransportOptions)
    (client : ClientFn) where
  -- the function that `stream` calls behind the interceptors; the trailer is that of the end
  unfoldable pub stream_next :
      Serialization EndStreamResponse
      → MessageType I PI
      → MethodKind
      → Request (Stream I)
      → Result (Response (Stream O))
  unfolding stream_body_of parsed_response read_messages read_trailer
      validate_response_with_compression
  stream_next end_stream type kind req = do
    res ← client (record {
      url = req.url;
      method = method_post;
      header = req.header;
      body = stream_body_of serialization opt type req.message;
    })
    valid ←
        validate_response_with_compression kind opt.use_binary_format opt.accept_compression
          res.status res.header
    let parsed =
        parsed_response (serialization.get_o opt.use_binary_format) end_stream_flag end_stream
          opt.read_max_bytes valid.compression res.body
    ok (record {
      header = res.header;
      message = read_messages false parsed;
      trailer = read_trailer parsed;
    })
