-- ===== src/Node/ConnectHandler/Received.antt =====
-- A call of a streaming method over the Connect protocol: what the implementation is given of the
-- messages of the client, and what the client reads of the outputs of the implementation.
use connect_web.Connect.JsonBytes.{JsonText, create_end_stream_serialization}
use connect_web.Connect.ErrorJson.{JsonLibrary}
use connect_web.Envelope.{EnvelopedMessage}
use connect_web.AsyncIterable.Transforms.{
  transform_serialize_envelope_end, transform_parse_envelope_end, parse_parsed,
}
use connect_web.Node.ConnectHandler.Arrived.{
  sent_error, arrived, IsTransmitted, arrived-Reads, writes_only, serialize-writes_only,
}
use connect_web.Headers.{Headers}
use connect_web.Node.ConnectHandler.Exchange.{
  strip_ends-messages, strip_ends, parse-strip_ends, serialize-messages, output-alike,
  AllRead-AllTransmit, with_end-AllTransmit, two-IsEndFlag, with_end, no_end, AllRead, AllWritable,
  ended_by,
}
use mathlib.Core.List.{flatten}
use connect_web.Prelude.{ℕ, Bool, false, List, map, ◌≡◌, refl, ap, ◌∙◌, Option, none, some}
use connect_web.ConnectError.{Reason, Bytes}
use connect_web.Serialization.{Serialization, Lookup}
use connect_web.Stream.{Stream, of_list, prepend}
use connect_web.Compression.{Negotiated}
use connect_web.Envelope.{Compression}
use connect_web.AsyncIterable.Split.{transform_split_envelope}
use connect_web.AsyncIterable.Transforms.{
  message_value, transform_serialize_envelope, transform_parse_envelope,
  transform_compress_envelope, transform_decompress_envelope, transform_join_envelopes,
  transform_prepend,
}
use connect_web.AsyncIterable.Pipeline.{send, receive, receive-send}
use connect_web.Connect.EndStream.{EndStreamResponse, end_stream_flag}
use connect_web.Node.Universal.{stream_body}
use connect_web.Node.Handler.{HandlerInit, raise_negotiated}
use connect_web.Node.Implementation.{Context, ImplSpec, transform_invoke_implementation}
use connect_web.Node.ConnectHandler.Streaming.{end_of, stream_input, stream_output, stream_response}

-- the end that a handler sends
end_of-sent :
    (trailer : Headers) (failure : Option Reason)
    → end_of trailer failure ≡ record { metadata = trailer; error = sent_error failure }
unfolding end_of
end_of-sent trailer none = refl
end_of-sent trailer (some e) = refl

-- the bytes of the messages of a client
unfoldable pub client_bytes :
    {A : Type 0} → Serialization A → ℕ → Option Compression → ℕ → List A → Stream Bytes
unfolding transform_serialize_envelope transform_compress_envelope transform_join_envelopes
client_bytes messages write_max compression min xs = transform_join_envelopes (
    transform_compress_envelope compression min
      (transform_serialize_envelope messages write_max (of_list xs)))

module _ {I O P : Type 0} (ends : Serialization EndStreamResponse) (serialization : Lookup I O)
    (opt : HandlerInit) (spec : ImplSpec I O P) (binary : Bool) (compression : Negotiated) where
  -- If the compression of the request was negotiated, and the messages of a client can be written and
  -- read within all limits, then the implementation is given exactly these messages, in order and
  -- without an error, however their bytes are cut into chunks.
  pub stream_input-client_bytes :
      (write_max min : ℕ) (xs : List I)
      → compression.error ≡ none
      → AllWritable (serialization.get_i binary) write_max xs
      → AllRead (serialization.get_i binary) compression.request opt.read_max_bytes xs
      → (chunks : List Bytes) × (client_bytes
            (serialization.get_i binary)
            write_max
            compression.request
            min
            xs
          ≡ of_list chunks)
        × ((cs : List Bytes)
            → flatten cs ≡ flatten chunks
            → stream_input ends serialization opt spec binary compression (of_list cs) ≡ of_list xs)
  unfolding client_bytes stream_input send receive transform_prepend raise_negotiated
  stream_input-client_bytes write_max min xs n w r =
      let messages = serialization.get_i binary in
      let (chunks, sends, receives) =
        receive-send messages end_stream_flag no_end compression.request min opt.read_max_bytes
          write_max (map message_value xs) two-IsEndFlag
          (AllRead-AllTransmit messages end_stream_flag compression.request min opt.read_max_bytes
            xs r) in
      (
        chunks,
        ap (λ s. transform_join_envelopes (transform_compress_envelope compression.request min s))
              (serialize-messages messages end_stream_flag write_max no_end xs w)
            ∙ sends,
        λ cs e.
            ap
              (λ o. transform_parse_envelope messages (some end_stream_flag) false (
                transform_decompress_envelope compression.request opt.read_max_bytes (
                  transform_split_envelope opt.read_max_bytes
                    (transform_prepend (raise_negotiated o) (of_list cs)))))
              n
            ∙ parse-strip_ends messages end_stream_flag (
                transform_decompress_envelope compression.request opt.read_max_bytes
                  (transform_split_envelope opt.read_max_bytes (of_list cs)))
            ∙ ap strip_ends (receives cs e)
            ∙ strip_ends-messages messages end_stream_flag xs,
      )

module _ {I O P : Type 0} (text : JsonText) (lib : JsonLibrary) (serialization : Lookup I O)
    (opt : HandlerInit) (spec : ImplSpec I O P) (binary : Bool) (compression : Negotiated) where
  abbrev ends : Serialization EndStreamResponse
  ends = create_end_stream_serialization text lib

  -- If the outputs of the implementation can be written and read within all limits, and the end can be sent,
  -- then the body of the response is sent without an error. A client that reads its bytes, cut into chunks
  -- in any way, is given the outputs in order and then an end. The end has the trailers of the
  -- implementation and the error that the outputs ended with, if they did: the metadata of the error stands
  -- behind the trailers, and the error has all of it, its details undecoded, and no cause.
  pub stream_response-receive :
      (context after : Context) (body : Stream Bytes) (ms : List O) (failure : Option Reason)
      (max : ℕ)
      → transform_invoke_implementation spec context
          (stream_input ends serialization opt spec binary compression body)
        ≡ (prepend ms (ended_by failure), after)
      → AllWritable (serialization.get_o binary) opt.write_max_bytes ms
      → AllRead (serialization.get_o binary) compression.response max ms
      → IsTransmitted text lib compression.response max after.response_trailer (sent_error failure)
      → (chunks : List Bytes) × ((stream_response ends serialization opt spec binary compression
            context body).body
          ≡ stream_body (of_list chunks))
        × ((cs : List Bytes)
            → flatten cs ≡ flatten chunks
            → receive
                (serialization.get_o binary)
                end_stream_flag
                ends
                compression.response
                max
                (of_list cs)
              ≡ of_list (with_end ms (arrived lib after.response_trailer (sent_error failure))))
  unfolding stream_response stream_output send receive transform_parse_envelope_end parse_parsed
  stream_response-receive context after body ms failure max i w r k =
      let messages = serialization.get_o binary in
      let sent : EndStreamResponse = record {
        metadata = after.response_trailer;
        error = sent_error failure;
      } in
      let seen = arrived lib after.response_trailer (sent_error failure) in
      let (chunks, sends, receives) =
        receive-send messages end_stream_flag (writes_only ends sent) compression.response
          opt.compress_min_bytes max opt.write_max_bytes (with_end ms seen) two-IsEndFlag
          (with_end-AllTransmit messages end_stream_flag (writes_only ends sent)
            compression.response opt.compress_min_bytes max ms seen r
            (arrived-Reads text lib compression.response max after.response_trailer
              (sent_error failure) k)) in
      let bytes = λ (s : Stream EnvelopedMessage). stream_body (
        transform_join_envelopes
          (transform_compress_envelope compression.response opt.compress_min_bytes s)) in
      (
        chunks,
        ap
              (λ o. stream_body (
                stream_output ends serialization opt spec binary compression o.1.response_trailer
                  o.0))
              i
            ∙ ap bytes (
                output-alike messages opt.write_max_bytes ends after.response_trailer failure ms w
                ∙ ap
                    (λ v.
                      transform_serialize_envelope_end messages opt.write_max_bytes end_stream_flag
                        ends (of_list (with_end ms v)))
                    (end_of-sent after.response_trailer failure)
                ∙ serialize-writes_only messages opt.write_max_bytes end_stream_flag ends ms sent
                    seen)
            ∙ ap stream_body sends,
        receives,
      )
