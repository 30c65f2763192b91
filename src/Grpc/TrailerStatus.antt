-- ===== src/Grpc/TrailerStatus.antt =====
-- trailer-status.ts and validate-trailer.ts of packages/connect-core/src/protocol-grpc, with
-- `encodeBinaryHeader` and `decodeBinaryHeader` of http-headers.ts for the message that they carry.
pub mod RoundTrip
use connect_web.Connect.ErrorJson.{with_details}
use connect_web.Text.Decimal.{parse_int}
use connect_web.Code.{internal, data_loss, inherited, number, Code, of_number, print_number}
use connect_web.ConnectError.{
  simple_error, new_error, checked, connect_error, error_object, ◌>>=◌, incoming, ok, message,
  Message, err, Bytes, Detail, Result, ConnectError, connect_error_from_reason,
}
use connect_web.Headers.{set, get, Headers}
use connect_web.Text.Percent.{encode_uri_component, decode_uri_component}
use connect_web.Prelude.{
  Bool, true, false, List, [], ◌∷◌, ◌++◌, map, ℤ, pos, Option, none, some, ◌==◌, if◌then◌else◌,
}
use connect_web.Text.{◌===◌, Text, codes}
use connect_web.Grpc.RequestHeader.{
  header_grpc_status, header_grpc_message, header_status_details_bin,
}

-- `google.protobuf.Any`
pub record AnyMessage : Type 0 where
  pub type_url : Text
  pub value : Bytes

-- `google.rpc.Status`
pub record Status : Type 0 where
  pub code : Code
  pub text : Text
  pub details : List AnyMessage

-- What the code asks of the protobuf library: the binary format of a Status in both directions and
-- base64 in both directions, which may throw, and `Any.pack`.
pub record StatusLibrary : Type 0 where
  pub to_binary : Status → Result Bytes
  pub from_binary : Bytes → Result Status
  pub enc : Bytes → Text
  pub dec : Text → Result Bytes
  pub pack : Message → AnyMessage

abbrev pub grpc_status_ok : Text
grpc_status_ok = codes "0"

any_of : StatusLibrary → Detail → AnyMessage
any_of lib (message m) = lib.pack m
any_of lib (incoming type value debug) = record {
  type_url = codes "type.googleapis.com/" ++ type;
  value = value;
}

-- the URIError of `encodeURIComponent` and `decodeURIComponent`
unfoldable pub uri : Option Text → Result Text
uri none = err (error_object (codes "URIError") (codes "URI malformed"))
uri (some s) = ok s

-- `new Status(...)`
unfoldable pub status_of : StatusLibrary → ConnectError → Status
unfolding any_of
status_of lib e = record {
  code = e.code;
  text = e.raw_message;
  details = map (any_of lib) e.details;
}

set_details : StatusLibrary → Headers → ConnectError → List Detail → Result Headers
unfolding status_of
set_details lib h e [] = ok h
set_details lib h e (d ∷ ds) = do
  bytes ← lib.to_binary (status_of lib e)
  checked (set h header_status_details_bin (lib.enc bytes))

-- The target is changed in place; this is its value after the call.
unfoldable pub set_trailer_status : StatusLibrary → Headers → Option ConnectError → Result Headers
unfolding set_details uri print_number encode_uri_component
set_trailer_status lib target none = checked (set target header_grpc_status grpc_status_ok)
set_trailer_status lib target (some e) = do
  status ← checked (set target header_grpc_status (print_number e.code))
  encoded ← uri (encode_uri_component e.raw_message)
  described ← checked (set status header_grpc_message encoded)
  set_details lib described e e.details

-- `typeUrl.substring(typeUrl.lastIndexOf("/") + 1)`
unfoldable pub type_name_of : Text → Text
type_name_of url = after url url
  where
    after : Text → Text → Text
    after found [] = found
    after found (c ∷ cs) = if c == b'/' then after cs cs else after found cs

is_zero : Code → Bool
is_zero (number (pos n)) = n == 0
is_zero _ = false

unfoldable pub detail_of : AnyMessage → Detail
unfolding type_name_of
detail_of any = incoming (type_name_of any.type_url) any.value none

-- `decodeBinaryHeader(value, Status)`: whatever is thrown becomes a ConnectError
unfoldable pub decode_status : StatusLibrary → Text → Result Status
unfolding connect_error_from_reason
decode_status lib value = elim (lib.dec value >>= lib.from_binary) [
  | ok s ↦ ok s
  | err e ↦ err (connect_error (connect_error_from_reason e data_loss))
]

-- `code in Code`, for a number
abbrev pub is_listed : Code → Bool
is_listed (number z) = false
is_listed (inherited p) = false
is_listed _ = true

parsed_code : Option ℤ → Option Code
unfolding of_number
parsed_code none = none
parsed_code (some z) = if is_listed (of_number z) then some (of_number z) else none

or_empty : Option Text → Text
or_empty none = []
or_empty (some s) = s

error_from_details : StatusLibrary → Headers → Text → Result (Option ConnectError)
unfolding decode_status is_zero detail_of
error_from_details lib h value = elim (decode_status lib value) [
  | err e ↦ err e
  | ok status ↦
      if is_zero status.code
      then ok none
      else ok (
          some (
            with_details (new_error status.text status.code h [] none)
              (map detail_of status.details)))
]

error_from_status : Headers → Text → Result (Option ConnectError)
unfolding uri or_empty parsed_code decode_uri_component
error_from_status h status =
    if status === grpc_status_ok then ok none else elim (parsed_code (parse_int status)) [
      | some code ↦
          uri (decode_uri_component (or_empty (get h header_grpc_message)))
          >>= (λ text. ok (some (new_error text code h [] none)))
      | none ↦ ok (some (simple_error (codes "invalid grpc-status: " ++ status) internal))
    ]

unfoldable pub find_trailer_error : StatusLibrary → Headers → Result (Option ConnectError)
unfolding error_from_details error_from_status get
find_trailer_error lib h = elim (get h header_status_details_bin) [
  | some value ↦ error_from_details lib h value
  | none ↦ elim (get h header_grpc_status) [
    | some status ↦ error_from_status h status
    | none ↦ ok none
  ]
]

-- `if (err) { throw err }`
unfoldable pub throw_found : Option ConnectError → Result (Unit {0})
throw_found none = ok tt
throw_found (some e) = err (connect_error e)

-- `validateTrailer`
unfoldable pub validate_trailer : StatusLibrary → Headers → Result (Unit {0})
unfolding find_trailer_error throw_found
validate_trailer lib trailer = find_trailer_error lib trailer >>= throw_found
