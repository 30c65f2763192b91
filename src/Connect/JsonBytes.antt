-- ===== src/Connect/JsonBytes.antt =====
-- The bytes of errors and of ends of streams: `errorToJsonBytes` of error-json.ts,
-- `createEndStreamSerialization` and the parsing of end-stream.ts, all in
-- packages/connect-core/src/protocol-connect.
use connect_web.Text.{Text, codes}
use connect_web.Text.Utf8.{encode_utf8, decode_utf8}
use connect_web.Code.{internal, invalid_argument}
use connect_web.Json.{Json, obj}
use connect_web.ConnectError.{ConnectError, Result, ok, err, connect_error, Bytes, ◌>>=◌}
use connect_web.Serialization.{Serialization, rethrow}
use connect_web.Connect.ErrorJson.{JsonLibrary, error_to_json, new_parse_error_from}
use connect_web.Connect.EndStream.{EndStreamResponse, end_stream_to_json, end_stream_from_json}

-- `JSON.stringify` and `JSON.parse`, which may throw
pub record JsonText : Type 0 where
  pub stringify : Json → Result Text
  pub parse : Text → Result Json

-- `textEncoder.encode(JSON.stringify(value))`
json_bytes : JsonText → Json → Result Bytes
unfolding encode_utf8
json_bytes text value = text.stringify value >>= λ s. ok (encode_utf8 s)

unfoldable pub error_to_json_bytes : JsonText → JsonLibrary → ConnectError → Result Bytes
unfolding json_bytes error_to_json rethrow
error_to_json_bytes text lib error =
    rethrow (codes "failed to serialize Connect Error: ") internal
      (json_bytes text (obj (error_to_json lib error)))

-- `endStreamFromJson`: the parsing, and then the rest
unfoldable pub end_stream_from_bytes : JsonText → JsonLibrary → Bytes → Result EndStreamResponse
unfolding decode_utf8 end_stream_from_json new_parse_error_from
end_stream_from_bytes text lib bytes = elim (text.parse (decode_utf8 bytes)) [
  | ok value ↦ end_stream_from_json lib value
  | err e ↦ err (connect_error (new_parse_error_from e))
]

unfoldable pub create_end_stream_serialization :
    JsonText → JsonLibrary → Serialization EndStreamResponse
unfolding json_bytes end_stream_to_json end_stream_from_bytes rethrow
create_end_stream_serialization text lib = record {
  serialize = λ response.
      rethrow (codes "failed to serialize EndStreamResponse: ") internal
        (json_bytes text (obj (end_stream_to_json lib response.metadata response.error)));
  parse = λ bytes.
      rethrow (codes "failed to parse EndStreamResponse: ") invalid_argument
        (end_stream_from_bytes text lib bytes);
}
