-- ===== src/Node/ConnectHandler/Arrived.antt =====
-- The end of a stream of the Connect protocol, as its serialization writes it and a client reads it.
use connect_web.Prelude.{
  ℕ, ◌^◌, ◌≤◌, ◌<◌, List, [], ◌∷◌, ◌≡◌, refl, ap, ◌∙◌, Option, none, some, length,
}
use connect_web.Code.{internal, invalid_argument}
use connect_web.Text.{Text, codes}
use connect_web.Text.Utf8.{encode_utf8, decode_utf8}
use connect_web.Headers.{Headers, copy}
use connect_web.Json.{Json, obj}
use connect_web.ConnectError.{Result, connect_error, ConnectError, Reason, ok, err, ok_then}
use connect_web.Serialization.{Serialization, rethrow}
use connect_web.Stream.{raise, next, of_list, map_stream}
use connect_web.Envelope.{Compression}
use connect_web.AsyncIterable.Transforms.{
  message_value, serialize_parsed, transform_serialize_envelope_end,
}
use connect_web.AsyncIterable.Pipeline.{Restores, Reads}
use connect_web.Connect.ErrorJson.{JsonLibrary, new_parse_error_from}
use connect_web.Connect.JsonBytes.{JsonText, create_end_stream_serialization, end_stream_from_bytes}
use connect_web.Connect.EndStream.{
  EndStreamResponse, sent_metadata, end_stream_to_json, end_stream_from_json,
}
use connect_web.Connect.EndStream.RoundTrip.{
  AllFields, IsSendable, received_error, end_stream_from_json-end_stream_to_json,
}
use connect_web.Node.ConnectHandler.Exchange.{with_end}
use connect_web.Node.Handler.{internal_error}

-- the error that a handler sends, if the outputs ended with one
abbrev pub sent_error : Option Reason → Option ConnectError
sent_error none = none
sent_error (some e) = some (internal_error e)

-- The end that a client reads, for the trailers and the error that were sent: the metadata of the error
-- stands behind the trailers, and the error has all of it, with its details undecoded and without a cause.
abbrev pub arrived : JsonLibrary → Headers → Option ConnectError → EndStreamResponse
arrived lib trailer error = record {
  metadata = copy (sent_metadata trailer error);
  error = received_error lib (copy (sent_metadata trailer error)) error;
}

-- An end that can be sent: JSON.stringify prints it as a text that JSON.parse reads back and that is well
-- formed; its fields and the error can be sent as JSON, and the bytes are within all limits.
pub record IsTransmitted (text : JsonText) (lib : JsonLibrary) (compression : Option Compression)
    (max : ℕ) (trailer : Headers) (error : Option ConnectError) : Type 0 where
  pub printed : Text
  pub prints : text.stringify (obj (end_stream_to_json lib trailer error)) ≡ ok printed
  pub reads : text.parse printed ≡ ok (obj (end_stream_to_json lib trailer error))
  pub well_formed : decode_utf8 (encode_utf8 printed) ≡ printed
  pub fields : AllFields (sent_metadata trailer error)
  pub sendable : IsSendable lib error
  pub short : length (encode_utf8 printed) < 2 ^ 32
  pub within : length (encode_utf8 printed) ≤ max
  pub restores : Restores compression max (encode_utf8 printed)

-- a serialization that writes one value only
abbrev pub writes_only : {E : Type 0} → Serialization E → E → Serialization E
writes_only s v = record { serialize = λ _. s.serialize v; parse = s.parse }

module _ (text : JsonText) (lib : JsonLibrary) (compression : Option Compression) (max : ℕ)
    (trailer : Headers) (error : Option ConnectError) where
  abbrev sent : EndStreamResponse
  sent = record { metadata = trailer; error = error }

  serialize-sent :
      (h : IsTransmitted text lib compression max trailer error)
      → (create_end_stream_serialization text lib).serialize sent ≡ ok (encode_utf8 h.printed)
  unfolding create_end_stream_serialization rethrow
  serialize-sent h =
      ap (rethrow (codes "failed to serialize EndStreamResponse: ") internal)
        (ok_then (λ s. ok (encode_utf8 s)) h.prints refl)

  from_bytes-sent :
      (h : IsTransmitted text lib compression max trailer error)
      → end_stream_from_bytes text lib (encode_utf8 h.printed) ≡ ok (arrived lib trailer error)
  unfolding end_stream_from_bytes
  from_bytes-sent h =
      let parse : Result Json → Result EndStreamResponse = λ r. elim r [
        | ok value ↦ end_stream_from_json lib value
        | err e ↦ err (connect_error (new_parse_error_from e))
      ] in
      ap (λ t. parse (text.parse t)) h.well_formed
      ∙ ap parse h.reads
      ∙ end_stream_from_json-end_stream_to_json lib trailer error h.fields h.sendable

  parse-sent :
      (h : IsTransmitted text lib compression max trailer error)
      → (create_end_stream_serialization text lib).parse (encode_utf8 h.printed)
        ≡ ok (arrived lib trailer error)
  unfolding create_end_stream_serialization rethrow
  parse-sent h =
      ap (rethrow (codes "failed to parse EndStreamResponse: ") invalid_argument)
        (from_bytes-sent h)

  pub arrived-Reads :
      IsTransmitted text lib compression max trailer error
      → Reads
          (writes_only (create_end_stream_serialization text lib) sent)
          compression
          max
          (arrived lib trailer error)
  arrived-Reads h =
      (encode_utf8 h.printed, serialize-sent h, (parse-sent h, (h.short, (h.within, h.restores))))

-- a stream whose end is written as another
pub serialize-writes_only :
    {A E : Type 0} (messages : Serialization A) (write_max flag : ℕ) (ends : Serialization E)
    (ms : List A) (v w : E)
    → transform_serialize_envelope_end messages write_max flag ends (of_list (with_end ms v))
      ≡ transform_serialize_envelope_end messages write_max flag
          (writes_only ends v)
          (of_list (with_end ms w))
unfolding transform_serialize_envelope_end serialize_parsed map_stream of_list
serialize-writes_only messages write_max flag ends [] v w = refl
serialize-writes_only messages write_max flag ends (x ∷ xs) v w =
    ap
      (λ s. elim (serialize_parsed messages flag ends (message_value x)) [
        | ok y ↦ next y s
        | err e ↦ raise e
      ])
      (serialize-writes_only messages write_max flag ends xs v w)
