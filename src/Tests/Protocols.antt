-- ===== src/Tests/Protocols.antt =====
-- Runs of the three protocols: errors, ends of streams, content types, statuses, headers and timeouts.
use connect_web.Connect.TrailerMux.RoundTrip.{trailer_demux-trailer_mux}
use connect_web.Connect.TrailerMux.{trailer_demux, trailer_mux}
use connect_web.Connect.TrailerMux.Muxed.{AllStored}
use connect_web.Grpc.TrailerStatus.{find_trailer_error, StatusLibrary}
use connect_web.Connect.EndStream.RoundTrip.{
  AllFields, end_stream_from_json-end_stream_to_json, received_error,
}
use connect_web.Connect.ErrorJson.RoundTrip.{error_from_json-error_to_json, received}
use connect_web.Json.{obj}
use connect_web.Connect.RequestHeader.{is_unary_kind, unary}
use connect_web.Connect.ValidateResponse.{validate_response_iff-ok, validate_response}
use connect_web.Pattern.Words.{find}
use connect_web.Grpc.ValidateResponse as GrpcResponse
use connect_web.Grpc.RequestHeader.{header_content_type, header_grpc_status}
use connect_web.Headers.{
  has, is_value, copy, is_name, is_http_space, normalize, text_lt, insert, lookup, joined,
  put_field, append_all, get, Headers,
}
use connect_web.Connect.EndStream.{
  end_stream_to_json, end_stream_from_json, append_headers, sent_metadata,
}
use connect_web.Connect.ErrorJson.{error_to_json, JsonLibrary, error_from_json}
use connect_web.ConnectError.{◌>>=◌, type_error, err, incoming, ok, ConnectError}
use connect_web.Code.{not_found}
use connect_web.Prelude.{ℕ, true, false, not, ◌||◌, [], ◌∷◌, ◌≡◌, refl, ◌↔◌, none, some, ◌==◌}
use connect_web.Text.Trim.{strip, drop_while}
use connect_web.Connect.ValidateResponse.{parsed}
use connect_web.Text.{starts_with, lower, ◌===◌, codes, to_lower_case}
use connect_web.Connect.ContentType as ConnectType
use connect_web.Grpc.ContentType as GrpcType
use connect_web.Grpc.RequestHeader as GrpcHeader

-- a library whose base64 text is the bytes themselves
abbrev library : JsonLibrary
library = record { enc = λ b. b; dec = λ s. ok s; debug = λ j. codes "json" }

abbrev lost : ConnectError
lost = record {
  text = codes "[not_found] no such user";
  raw_message = codes "no such user";
  code = not_found;
  metadata = (codes "x-trace", codes "7") ∷ [];
  details = incoming (codes "a.B") (1 ∷ 2 ∷ []) none ∷ [];
  cause = none;
}

abbrev trailers : Headers
trailers = (codes "x-cost", codes "3") ∷ []

error_from_json-error_to_json_example :
    error_from_json library (obj (error_to_json library lost)) trailers
    ≡ ok (received library lost trailers)
error_from_json-error_to_json_example =
    error_from_json-error_to_json library lost trailers tt ((refl, tt), tt)

sent-AllFields : AllFields (sent_metadata trailers (some lost))
unfolding sent_metadata append_headers append_all put_field joined lookup insert text_lt normalize
    strip drop_while is_http_space ◌===◌ is_name is_value lower
sent-AllFields = ((refl, (refl, (refl, refl))), ((refl, (refl, (refl, refl))), tt))

end_stream_from_json-end_stream_to_json_example :
    end_stream_from_json library (obj (end_stream_to_json library trailers (some lost)))
    ≡ ok (record {
      metadata = copy (sent_metadata trailers (some lost));
      error = received_error library (copy (sent_metadata trailers (some lost))) (some lost);
    })
end_stream_from_json-end_stream_to_json_example =
    end_stream_from_json-end_stream_to_json library trailers (some lost) sent-AllFields
      (tt, ((refl, tt), tt))

parse_content_type-find_example :
    ConnectType.parse_content_type (some (codes "Application/JSON"))
    ≡ find (to_lower_case (codes "Application/JSON")) ConnectType.content_types
parse_content_type-find_example = ConnectType.parse_content_type-find (codes "Application/JSON")

stream_reg_exp-parse_example :
    ConnectType.matches_type ConnectType.content_type_stream_reg_exp
      (codes "application/connectjson")
    ≡ (ConnectType.is_stream
          (ConnectType.parse_content_type (some (codes "application/connectjson")))
        || ConnectType.found
            (find (to_lower_case (codes "application/connectjson")) ConnectType.types_without_plus))
stream_reg_exp-parse_example = ConnectType.stream_reg_exp-parse (codes "application/connectjson")

abbrev service_unavailable : ℕ
service_unavailable = 503

abbrev json_headers : Headers
json_headers = (codes "content-type", codes "application/json") ∷ []

validate_response_iff-ok_example : (validate_response unary false 200 json_headers ≡ ok false) ↔ (
    (ConnectType.parse_content_type (get json_headers (codes "Content-Type"))
      ≡ some (parsed unary false))
    × ((200 == 200 || not (is_unary_kind unary) || false) ≡ true))
validate_response_iff-ok_example = validate_response_iff-ok unary false 200 json_headers

-- a library that reads and writes nothing
abbrev no_library : StatusLibrary
no_library = record {
  to_binary = λ s. err type_error;
  from_binary = λ b. err type_error;
  enc = λ b. b;
  dec = λ s. err type_error;
  pack = λ m. record { type_url = m.type_name; value = m.binary };
}

abbrev grpc_headers : Headers
grpc_headers = (codes "content-type", codes "application/grpc+proto") ∷ []

grpc_validate_response_iff_example :
    (GrpcResponse.validate_response no_library true 200 grpc_headers ≡ ok false) ↔ (
      (◌≡◌ {A = ℕ} 200 200)
      × ((GrpcType.parse_content_type (get grpc_headers header_content_type)
            ≡ some (GrpcResponse.parsed true))
          × ((find_trailer_error no_library grpc_headers ≡ ok none)
              × (false ≡ has grpc_headers header_grpc_status))))
grpc_validate_response_iff_example =
    GrpcResponse.grpc_validate_response_iff no_library true 200 grpc_headers false

abbrev plain_header : Headers
plain_header = (codes "content-type", codes "application/json") ∷ []

plain_header-AllStored : AllStored plain_header
unfolding is_name lower is_value normalize strip drop_while is_http_space
plain_header-AllStored = ((refl, (refl, (refl, refl))), tt)

trailers-AllStored : AllStored trailers
unfolding is_name lower is_value normalize strip drop_while is_http_space
trailers-AllStored = ((refl, (refl, (refl, refl))), tt)

trailer_demux-trailer_mux_example :
    (trailer_mux plain_header trailers >>= trailer_demux) ≡ ok (plain_header, trailers)
trailer_demux-trailer_mux_example =
    trailer_demux-trailer_mux plain_header trailers (tt, tt) (tt, tt) plain_header-AllStored
      trailers-AllStored ((unfold starts_with in refl), tt)
