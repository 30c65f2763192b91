-- ===== src/Node/Transport/Connect/Received.antt =====
-- A call of a streaming method over the Connect protocol, from the handler on a server to the transport
-- of a client.
use connect_web.Prelude.{Bool, false, List, [], ◌∷◌, ◌≡◌, refl, ap, ap₂, ◌∙◌, Option, none, some}
use mathlib.Core.List.{flatten}
use connect_web.Connect.JsonBytes.{JsonText, create_end_stream_serialization}
use connect_web.Connect.ErrorJson.{JsonLibrary}
use connect_web.Connect.ErrorJson.RoundTrip.{received}
use connect_web.Connect.EndStream.{sent_metadata}
use connect_web.Headers.{copy}
use connect_web.Node.ConnectHandler.Arrived.{sent_error, arrived, IsTransmitted}
use connect_web.Headers.{Headers}
use connect_web.ConnectError.{ok_then, Reason, ok, connect_error, Bytes, ◌>>=◌}
use connect_web.Serialization.{Serialization, Lookup, MessageType}
use connect_web.Stream.{next, Stream, of_list, prepend}
use connect_web.Compression.{Negotiated}
use connect_web.AsyncIterable.Transforms.{Parsed}
use connect_web.AsyncIterable.Pipeline.{receive}
use connect_web.Connect.EndStream.{EndStreamResponse, end_stream_flag, append_headers}
use connect_web.Connect.RequestHeader.{MethodKind}
use connect_web.Connect.ValidateResponse.{ValidResponse, validate_response_with_compression}
use connect_web.Node.Universal.{stream_body}
use connect_web.Node.Handler.{HandlerInit, internal_error, method_post}
use connect_web.Node.Implementation.{Context, ImplSpec, transform_invoke_implementation}
use connect_web.Node.ConnectHandler.Streaming.{stream_input, stream_response}
use connect_web.Node.ConnectHandler.Exchange.{with_end, AllRead, AllWritable, ended_by}
use connect_web.Node.ConnectHandler.Received.{stream_response-receive}
use connect_web.Node.Transport.{ClientResponse, ClientFn, TransportOptions, Request}
use connect_web.Node.Transport.Connect.{
  read_messages, read_trailer, parsed_response, stream_body_of, stream_next,
}

-- the error that a client is to see: that of the handler, with the trailers in front of its metadata, its
-- details undecoded and without a cause
abbrev pub seen : JsonLibrary → Headers → Option Reason → Option Reason
seen lib trailer none = none
seen lib trailer (some e) = some (
    connect_error
      (received lib (internal_error e) (copy (sent_metadata trailer (some (internal_error e))))))

-- the trailer that a client is to see
abbrev pub trailer_seen : Headers → Option Reason → Headers
trailer_seen trailer none = append_headers (copy trailer ∷ [])
trailer_seen trailer (some e) = []

module _ {O : Type 0} (lib : JsonLibrary) (trailer : Headers) where
  read_messages-arrived :
      (ms : List O) (failure : Option Reason)
      → read_messages false (of_list (with_end ms (arrived lib trailer (sent_error failure))))
        ≡ prepend ms (ended_by (seen lib trailer failure))
  unfolding read_messages of_list prepend
  read_messages-arrived [] none = refl
  read_messages-arrived [] (some e) = refl
  read_messages-arrived (m ∷ ms) failure = ap (next m) (read_messages-arrived ms failure)

  read_trailer-arrived :
      (ms : List O) (failure : Option Reason)
      → read_trailer (of_list (with_end ms (arrived lib trailer (sent_error failure))))
        ≡ trailer_seen trailer failure
  unfolding read_trailer of_list append_headers sent_metadata
  read_trailer-arrived [] none = refl
  read_trailer-arrived [] (some e) = refl
  read_trailer-arrived (m ∷ ms) failure = read_trailer-arrived ms failure

-- a response whose body holds the bytes of the list
abbrev pub responds : ClientResponse → List Bytes → ClientResponse
responds res cs = record {
  status = res.status;
  header = res.header;
  body = of_list cs;
  trailer = res.trailer;
}

module _ {I O PI : Type 0} (serialization : Lookup I O) (opt : TransportOptions) where
  -- a call that is answered with a valid response
  stream_next-ok :
      (client : ClientFn) (ends : Serialization EndStreamResponse) (type : MessageType I PI)
      (kind : MethodKind) (req : Request (Stream I)) (res : ClientResponse) (valid : ValidResponse)
      (s : Stream (Parsed O EndStreamResponse))
      → client (record {
        url = req.url;
        method = method_post;
        header = req.header;
        body = stream_body_of serialization opt type req.message;
      })
        ≡ ok res
      → validate_response_with_compression kind opt.use_binary_format opt.accept_compression
          res.status res.header
        ≡ ok valid
      → parsed_response
          (serialization.get_o opt.use_binary_format)
          end_stream_flag
          ends
          opt.read_max_bytes
          valid.compression
          res.body
        ≡ s
      → stream_next serialization opt client ends type kind req
        ≡ ok (record {
          header = res.header;
          message = read_messages false s;
          trailer = read_trailer s;
        })
  unfolding stream_next
  stream_next-ok client ends type kind req res valid s answers v e =
      ok_then
        (λ r. do
          valid ←
              validate_response_with_compression kind opt.use_binary_format opt.accept_compression
                r.status r.header
          let parsed =
              parsed_response (serialization.get_o opt.use_binary_format) end_stream_flag ends
                opt.read_max_bytes valid.compression r.body
          ok (record {
            header = r.header;
            message = read_messages false parsed;
            trailer = read_trailer parsed;
          }))
        answers
        (ok_then
          (λ valid.
            let parsed =
              parsed_response (serialization.get_o opt.use_binary_format) end_stream_flag ends
                opt.read_max_bytes valid.compression res.body in
            ok (record {
              header = res.header;
              message = read_messages false parsed;
              trailer = read_trailer parsed;
            }))
          v
          (ap
            (λ s. ok (record {
              header = res.header;
              message = read_messages false s;
              trailer = read_trailer s;
            }))
            e))

module _ {I O P : Type 0} (text : JsonText) (lib : JsonLibrary) (serialization : Lookup I O)
    (opt : HandlerInit) (spec : ImplSpec I O P) (compression : Negotiated)
    (client_opt : TransportOptions) where
  abbrev ends : Serialization EndStreamResponse
  ends = create_end_stream_serialization text lib

  -- If the outputs of an implementation can be written and read within all limits, and the end can be
  -- sent, a client whose call is answered with the bytes of the body of the handler, cut into chunks
  -- in any way, under a header from which it finds the same compression, is given the outputs in
  -- order, and then the end of the stream with the trailers of the implementation, or the error that
  -- the outputs ended with, as it is seen by a client.
  pub stream_next-stream_response :
      {PI : Type 0} (type : MessageType I PI) (kind : MethodKind) (res : ClientResponse)
      (error : Bool) (context after : Context) (body : Stream Bytes) (ms : List O)
      (failure : Option Reason)
      → validate_response_with_compression kind client_opt.use_binary_format
          client_opt.accept_compression res.status res.header
        ≡ ok (record { compression = compression.response; is_connect_unary_error = error })
      → transform_invoke_implementation spec context
          (stream_input ends serialization opt spec client_opt.use_binary_format compression body)
        ≡ (prepend ms (ended_by failure), after)
      → AllWritable (serialization.get_o client_opt.use_binary_format) opt.write_max_bytes ms
      → AllRead
          (serialization.get_o client_opt.use_binary_format)
          compression.response
          client_opt.read_max_bytes
          ms
      → IsTransmitted text lib compression.response client_opt.read_max_bytes after.response_trailer
          (sent_error failure)
      → (chunks : List Bytes) × ((stream_response ends serialization opt spec
            client_opt.use_binary_format compression context body).body
          ≡ stream_body (of_list chunks))
        × ((cs : List Bytes) (client : ClientFn) (req : Request (Stream I))
            → flatten cs ≡ flatten chunks
            → client (record {
              url = req.url;
              method = method_post;
              header = req.header;
              body = stream_body_of serialization client_opt type req.message;
            })
              ≡ ok (responds res cs)
            → stream_next serialization client_opt client ends type kind req
              ≡ ok (record {
                header = res.header;
                message = prepend ms (ended_by (seen lib after.response_trailer failure));
                trailer = trailer_seen after.response_trailer failure;
              }))
  unfolding parsed_response receive
  stream_next-stream_response type kind res error context after body ms failure v i w r k =
      let (chunks, sends, receives) =
        stream_response-receive text lib serialization opt spec client_opt.use_binary_format
          compression context after body ms failure client_opt.read_max_bytes i w r k in
      (
        chunks,
        sends,
        λ cs client req e answers.
            stream_next-ok serialization client_opt client ends type kind req (responds res cs)
              (record { compression = compression.response; is_connect_unary_error = error })
              (of_list (with_end ms (arrived lib after.response_trailer (sent_error failure))))
              answers v (receives cs e)
            ∙ ap₂ (λ m t. ok (record { header = res.header; message = m; trailer = t }))
                (read_messages-arrived lib after.response_trailer ms failure)
                (read_trailer-arrived lib after.response_trailer ms failure),
      )
