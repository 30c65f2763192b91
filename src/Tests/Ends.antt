-- ===== src/Tests/Ends.antt =====
-- Runs of streams of the Connect protocol that end with trailers and an error.
use connect_web.Prelude.{true, List, [], ◌∷◌, ◌≡◌, refl, none, some, arith}
use mathlib.Core.List.{flatten}
use connect_web.Text.{codes, lower}
use connect_web.Text.Utf8.{encode_utf8, decode_utf8}
use connect_web.Code.{not_found}
use connect_web.Headers.{
  Headers, insert, text_lt, is_name, is_value, normalize, is_http_space, copy, append_all,
  put_field,
}
use connect_web.Text.Trim.{strip, drop_while}
use connect_web.ConnectError.{Reason, ok, Bytes, connect_error, new_error}
use connect_web.Stream.{done, raise, next, of_list, prepend, map_stream}
use connect_web.Json.{Json, obj}
use connect_web.AsyncIterable.Pipeline.{receive}
use connect_web.Connect.ErrorJson.{JsonLibrary, error_to_json}
use connect_web.Connect.JsonBytes.{create_end_stream_serialization}
use connect_web.Connect.EndStream.{end_stream_flag, end_stream_to_json, sent_metadata}
use connect_web.Node.Universal.{stream_body}
use connect_web.Node.Implementation.{
  Context, ImplSpec, whole_output, bidi_streaming_impl, transform_invoke_implementation,
  normalize_output,
}
use connect_web.Node.Handler.{internal_error}
use connect_web.Node.ConnectHandler.Streaming.{stream_response}
use connect_web.Node.ConnectHandler.Exchange.{with_end}
use connect_web.Node.ConnectHandler.Arrived.{sent_error, arrived, IsTransmitted}
use connect_web.Node.ConnectHandler.Received.{stream_response-receive}
use connect_web.Tests.Handlers.{bytes_as_they_are, both, init, uncompressed, failing, no_context}
use connect_web.Tests.JsonSample.{json_text, print_json, read_json}

abbrev pub plain_library : JsonLibrary
plain_library = record { enc = λ b. b; dec = λ t. ok t; debug = λ j. [] }

-- an error with metadata
abbrev pub refused : Reason
refused =
    connect_error (new_error (codes "no cat") not_found ((codes "x-why", codes "1") ∷ []) [] none)

abbrev pub cat_trailer : Headers
cat_trailer = (codes "x-cat", codes "9") ∷ []

abbrev pub after_cat : Context
after_cat = record no_context { response_trailer = cat_trailer }

-- one output, a trailer, and then an error
abbrev pub telling : ImplSpec Bytes Bytes (Unit {0})
telling = record failing {
  impl = bidi_streaming_impl (λ input context. (
    next (whole_output (7 ∷ [])) (raise refused),
    record context { response_trailer = cat_trailer },
  ));
}

abbrev end_json : Json
end_json = obj (end_stream_to_json plain_library cat_trailer (sent_error (some refused)))

pub refused-IsTransmitted :
    IsTransmitted json_text plain_library none 100 cat_trailer (sent_error (some refused))
unfolding end_stream_to_json error_to_json sent_metadata print_json read_json encode_utf8
    decode_utf8 internal_error new_error copy append_all put_field normalize is_name is_value lower
    text_lt insert strip drop_while is_http_space
refused-IsTransmitted = record {
  printed = print_json end_json;
  prints = refl;
  reads = refl;
  well_formed = refl;
  fields = ((refl, (refl, (refl, refl))), ((refl, (refl, (refl, refl))), tt));
  sendable = (tt, tt);
  short = omega arith;
  within = omega arith;
  restores = tt;
}

stream_response-receive_example :
    (chunks : List Bytes) × ((stream_response
        (create_end_stream_serialization json_text plain_library)
        both
        init
        telling
        true
        uncompressed
        no_context
        done).body
      ≡ stream_body (of_list chunks))
    × ((cs : List Bytes)
        → flatten cs ≡ flatten chunks
        → receive bytes_as_they_are end_stream_flag
            (create_end_stream_serialization json_text plain_library)
            none
            100
            (of_list cs)
          ≡ of_list (
              with_end
                ((7 ∷ []) ∷ [])
                (arrived plain_library cat_trailer (sent_error (some refused)))))
unfolding transform_invoke_implementation map_stream normalize_output prepend
stream_response-receive_example =
    stream_response-receive json_text plain_library both init telling true uncompressed no_context
      after_cat done ((7 ∷ []) ∷ []) (some refused) 100 refl ((7 ∷ [], refl, omega arith), tt)
      ((7 ∷ [], refl, (refl, (omega arith, (omega arith, tt)))), tt) refused-IsTransmitted
