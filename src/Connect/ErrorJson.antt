-- ===== src/Connect/ErrorJson.antt =====
-- error-json.ts and new-parse-error.ts of packages/connect-core/src/protocol-connect.
pub mod RoundTrip
use connect_web.Headers.{Headers}
use connect_web.Json.{
  null, nil, str, end, obj, arr, item, entry, Items, Fields, get_field, Json, to_items,
}
use connect_web.ConnectError.{
  connect_error, ◌>>=◌, message, err, new_error, incoming, ok, reason_text, Result, simple_error,
  Reason, Detail, ConnectError, Bytes,
}
use connect_web.Code.{invalid_argument, Code, code_from_string, code_to_string}
use connect_web.Prelude.{
  ℕ, zero, suc, ◌+◌, ◌-◌, ◌*◌, ◌/◌, ◌%◌, ◌^◌, ◌≤◌, ◌<◌, Bool, true, false, not, ◌&&◌, ◌||◌, List,
  [], ◌∷◌, ◌++◌, map, ℤ, pos, negsuc, ◌≡◌, refl, sym, ap, ap₂, ◌∙◌, ◌≢◌, ◌↔◌, ◌⊎◌, inl, inr, Option,
  none, some, String, arith, leb, ltb, ◌==◌, if◌then◌else◌, Bool-cases, Option-cases, ==_iff,
  leb→le, ltb→lt, lt→ltb, tests, length, length-append, take, drop, take-append-drop, length-take,
  length-drop, length-map, fun_ext, replicate, length-replicate, append-nil, append_assoc,
}
use connect_web.Text.{Text, codes}

-- What the code asks of the protobuf library: base64 in both directions, where decoding may throw,
-- and a text of a JSON value for an error message.
pub record JsonLibrary : Type 0 where
  pub enc : Bytes → Text
  pub dec : Text → Result Bytes
  pub debug : Json → Text

abbrev parse_error_message : Text → Text → Text
parse_error_message property d =
    codes "cannot decode ConnectError" ++ (property ++ (codes " from JSON: " ++ d))

-- `newParseError(value, property)`
unfoldable pub new_parse_error : JsonLibrary → Json → Text → ConnectError
new_parse_error lib value property =
    simple_error (parse_error_message property (lib.debug value)) invalid_argument

-- `newParseError(error, property, false)`, which drops the property
unfoldable pub new_parse_error_from : Reason → ConnectError
new_parse_error_from reason =
    simple_error (parse_error_message [] (reason_text reason)) invalid_argument

unfoldable pub throw_parse_error {ℓ} : {A : Type ℓ} → JsonLibrary → Json → Text → Result A
unfolding new_parse_error
throw_parse_error lib value property = err (connect_error (new_parse_error lib value property))

-- `typeof value == "object"`, which null and arrays are too
unfoldable pub is_object : Json → Bool
is_object null = true
is_object (arr xs) = true
is_object (obj fs) = true
is_object _ = false

-- the `debug` property of a detail: an absent one is undefined, another must be an object
debug_field : Option Json → Option (Option Json)
unfolding is_object
debug_field none = some none
debug_field (some d) = if is_object d then some (some d) else none

-- the type, value and debug properties that an object must have to be a detail
detail_fields : Json → Option (Text × (Text × Option Json))
unfolding debug_field get_field
detail_fields (obj fs) = elim (get_field (codes "type") fs) [
  | some (str type) ↦ elim (get_field (codes "value") fs) [
    | some (str value) ↦ elim (debug_field (get_field (codes "debug") fs)) [
      | some debug ↦ some (type, (value, debug))
      | none ↦ none
    ]
    | _ ↦ none
  ]
  | _ ↦ none
]
detail_fields _ = none

-- one turn of the loop over the details
unfoldable pub detail_from_json : JsonLibrary → Json → Result Detail
unfolding throw_parse_error detail_fields new_parse_error_from
detail_from_json lib detail = elim (detail_fields detail) [
  | none ↦ throw_parse_error lib detail (codes ".details")
  | some (type, (value, debug)) ↦ elim (lib.dec value) [
    | ok bytes ↦ ok (incoming type bytes debug)
    | err e ↦ err (connect_error (new_parse_error_from e))
  ]
]

unfoldable pub details_from_json : JsonLibrary → Items → Result (List Detail)
unfolding detail_from_json
details_from_json lib nil = ok []
details_from_json lib (item x xs) =
    detail_from_json lib x >>= λ d. details_from_json lib xs >>= λ ds. ok (d ∷ ds)

-- `message != null && typeof message !== "string"` throws
message_from_json : JsonLibrary → Text → Option Json → Result Text
unfolding throw_parse_error
message_from_json lib code none = ok []
message_from_json lib code (some null) = ok []
message_from_json lib code (some (str s)) = ok s
message_from_json lib code (some _) = throw_parse_error lib (str code) (codes ".message")

known_code : JsonLibrary → Text → Result Code
unfolding throw_parse_error code_from_string
known_code lib s = elim (code_from_string s) [
  | some c ↦ ok c
  | none ↦ throw_parse_error lib (str s) (codes ".code")
]

details_field : JsonLibrary → Option Json → Result (List Detail)
unfolding details_from_json
details_field lib (some (arr xs)) = details_from_json lib xs
details_field lib _ = ok []

abbrev pub with_details : ConnectError → List Detail → ConnectError
with_details e ds = record {
  text = e.text;
  raw_message = e.raw_message;
  code = e.code;
  metadata = e.metadata;
  details = ds;
  cause = e.cause;
}

error_from_fields : JsonLibrary → Text → Fields → Headers → Result ConnectError
unfolding known_code message_from_json details_field get_field new_error
error_from_fields lib s fs metadata = do
  code ← known_code lib s
  msg ← message_from_json lib s (get_field (codes "message") fs)
  details ← details_field lib (get_field (codes "details") fs)
  ok (with_details (new_error msg code metadata [] none) details)

unfoldable pub error_from_json : JsonLibrary → Json → Headers → Result ConnectError
unfolding error_from_fields throw_parse_error get_field
error_from_json lib (obj fs) metadata = elim (get_field (codes "code") fs) [
  | some (str s) ↦ error_from_fields lib s fs metadata
  | _ ↦ throw_parse_error lib (obj fs) []
]
error_from_json lib value metadata = throw_parse_error lib value []

-- a detail as it is serialized; a property that is undefined is left out
detail_object : JsonLibrary → Text → Bytes → Option Json → Json
detail_object lib type value none =
    obj (entry (codes "type") (str type) (entry (codes "value") (str (lib.enc value)) end))
detail_object lib type value (some debug) = obj (
    entry (codes "type") (str type)
      (entry (codes "debug") debug (entry (codes "value") (str (lib.enc value)) end)))

unfoldable pub detail_to_json : JsonLibrary → Detail → Json
unfolding detail_object
detail_to_json lib (message m) = detail_object lib m.type_name m.binary m.json
detail_to_json lib (incoming type value debug) = detail_object lib type value debug

details_fields : JsonLibrary → List Detail → Fields
unfolding detail_to_json to_items
details_fields lib [] = end
details_fields lib (d ∷ ds) =
    entry (codes "details") (arr (to_items (map (detail_to_json lib) (d ∷ ds)))) end

message_fields : Text → Fields → Fields
message_fields [] fs = fs
message_fields (c ∷ cs) fs = entry (codes "message") (str (c ∷ cs)) fs

unfoldable pub error_to_json : JsonLibrary → ConnectError → Fields
unfolding details_fields message_fields code_to_string
error_to_json lib e =
    entry (codes "code") (str (code_to_string e.code))
      (message_fields e.raw_message (details_fields lib e.details))
