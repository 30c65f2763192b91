-- ===== src/Connect/ErrorJson/RoundTrip.antt =====
-- An error survives the way to JSON and back.
use connect_web.Code.{code_to_string}
use connect_web.Code.Names.{code_from_string-code_to_string, IsListed}
use connect_web.Headers.{Headers}
use connect_web.ConnectError.{new_error, ok, incoming, Bytes, ConnectError, message, Detail}
use connect_web.Json.{str, entry, obj, Fields, to_items, get_field, Json}
use connect_web.Prelude.{true, List, [], ◌∷◌, map, ◌≡◌, refl, Option, none, some, arith}
use connect_web.Text.{Text, codes, ◌===◌}
use connect_web.Connect.ErrorJson.{
  with_details, error_to_json, is_object, detail_to_json, detail_from_json, error_from_json,
  details_from_json, JsonLibrary, debug_field, detail_fields, message_from_json, known_code,
  details_field, error_from_fields, detail_object, details_fields, message_fields,
}

-- what the receiver keeps of a detail: the message is not decoded
abbrev pub received_detail : Detail → Detail
received_detail (message m) = incoming m.type_name m.binary m.json
received_detail (incoming type value debug) = incoming type value debug

abbrev pub IsDebug : Option Json → Type 0
IsDebug none = Unit {0}
IsDebug (some d) = is_object d ≡ true

-- decoding gives the bytes of the detail, and its debug value is an object
abbrev pub IsEncodable : JsonLibrary → Detail → Type 0
IsEncodable lib (message m) = (lib.dec (lib.enc m.binary) ≡ ok m.binary) × IsDebug m.json
IsEncodable lib (incoming type value debug) = (lib.dec (lib.enc value) ≡ ok value) × IsDebug debug

abbrev pub AllEncodable : JsonLibrary → List Detail → Type 0
AllEncodable lib [] = Unit {0}
AllEncodable lib (d ∷ ds) = IsEncodable lib d × AllEncodable lib ds

module _ (lib : JsonLibrary) where
  detail_object-back :
      (type : Text) (value : Bytes) (debug : Option Json)
      → lib.dec (lib.enc value) ≡ ok value
      → IsDebug debug
      → detail_from_json lib (detail_object lib type value debug) ≡ ok (incoming type value debug)
  unfolding detail_from_json detail_object detail_fields debug_field get_field ◌===◌
  detail_object-back type value none e d = rw e refl
  detail_object-back type value (some j) e d = ground arith

  detail_from-to_json :
      (d : Detail)
      → IsEncodable lib d
      → detail_from_json lib (detail_to_json lib d) ≡ ok (received_detail d)
  unfolding detail_to_json
  detail_from-to_json (message m) (e, d) = detail_object-back m.type_name m.binary m.json e d
  detail_from-to_json (incoming type value debug) (e, d) = detail_object-back type value debug e d

  details_from-to_json :
      (ds : List Detail)
      → AllEncodable lib ds
      → details_from_json lib (to_items (map (detail_to_json lib) ds)) ≡ ok (map received_detail ds)
  unfolding details_from_json to_items
  details_from-to_json [] h = refl
  details_from-to_json (d ∷ ds) (h, hs) =
      rw (detail_from-to_json d h) (rw (details_from-to_json ds hs) refl)

  details_field-back :
      (ds : List Detail)
      → AllEncodable lib ds
      → details_field lib (get_field (codes "details") (details_fields lib ds))
        ≡ ok (map received_detail ds)
  unfolding details_field details_fields get_field ◌===◌
  details_field-back [] h = refl
  details_field-back (d ∷ ds) h = details_from-to_json (d ∷ ds) h

  details_after_message :
      (m : Text) (fs : Fields)
      → get_field (codes "details") (message_fields m fs) ≡ get_field (codes "details") fs
  unfolding message_fields get_field ◌===◌
  details_after_message [] fs = refl
  details_after_message (c ∷ cs) fs = refl

  no_message : (ds : List Detail) → get_field (codes "message") (details_fields lib ds) ≡ none
  unfolding details_fields get_field ◌===◌
  no_message [] = refl
  no_message (d ∷ ds) = refl

  message_back :
      (s m : Text) (ds : List Detail)
      → message_from_json lib s
          (get_field (codes "message") (message_fields m (details_fields lib ds)))
        ≡ ok m
  unfolding message_from_json message_fields get_field ◌===◌
  message_back s [] ds = rw (no_message ds) refl
  message_back s (c ∷ cs) ds = refl

  -- The error that the receiver has: same code and message, the details undecoded, and a copy of
  -- the metadata that came with the response.
  abbrev pub received : ConnectError → Headers → ConnectError
  received e metadata =
      with_details (new_error e.raw_message e.code metadata [] none) (map received_detail e.details)

  fields_back :
      (e : ConnectError) (metadata : Headers)
      → IsListed e.code
      → AllEncodable lib e.details
      → error_from_fields lib
          (code_to_string e.code)
          (entry
            (codes "code")
            (str (code_to_string e.code))
            (message_fields e.raw_message (details_fields lib e.details)))
          metadata
        ≡ ok (received e metadata)
  unfolding error_from_fields known_code get_field ◌===◌
  fields_back e metadata c h = ground (
    arith,
    code_from_string-code_to_string e.code c,
    message_back (code_to_string e.code) e.raw_message e.details,
    details_after_message e.raw_message (details_fields lib e.details),
    details_field-back e.details h,
  )

  -- An error with one of the sixteen codes, whose details can be decoded from base64 and have an
  -- object, an array or null as debug value if any, is serialized to JSON that is parsed to an
  -- error with the same code and message, its details undecoded, and the given metadata.
  pub error_from_json-error_to_json :
      (e : ConnectError) (metadata : Headers)
      → IsListed e.code
      → AllEncodable lib e.details
      → error_from_json lib (obj (error_to_json lib e)) metadata ≡ ok (received e metadata)
  unfolding error_from_json error_to_json get_field ◌===◌
  error_from_json-error_to_json = fields_back
