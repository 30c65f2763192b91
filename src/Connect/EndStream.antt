-- ===== src/Connect/EndStream.antt =====
-- end-stream.ts of packages/connect-core/src/protocol-connect, on JSON values: the calls of
-- `JSON.parse` and `JSON.stringify` around them are left out.
pub mod RoundTrip
use connect_web.ConnectError.{checked, ◌>>=◌, ok, Result, ConnectError}
use connect_web.Headers.{append, append_all, Headers}
use connect_web.Json.{nil, entry, str, obj, end, item, arr, Fields, Items, get_field, Json}
use connect_web.Connect.ErrorJson.{error_to_json, error_from_json, JsonLibrary, throw_parse_error}
use connect_web.Prelude.{
  ℕ, zero, suc, ◌+◌, ◌-◌, ◌*◌, ◌/◌, ◌%◌, ◌^◌, ◌≤◌, ◌<◌, Bool, true, false, not, ◌&&◌, ◌||◌, List,
  [], ◌∷◌, ◌++◌, map, ℤ, pos, negsuc, ◌≡◌, refl, sym, ap, ap₂, ◌∙◌, ◌≢◌, ◌↔◌, ◌⊎◌, inl, inr, Option,
  none, some, String, arith, leb, ltb, ◌==◌, if◌then◌else◌, Bool-cases, Option-cases, ==_iff,
  leb→le, ltb→lt, lt→ltb, tests, length, length-append, take, drop, take-append-drop, length-take,
  length-drop, length-map, fun_ext, replicate, length-replicate, append-nil, append_assoc,
}
use connect_web.Text.{Text, codes, ◌===◌}

abbrev pub end_stream_flag : ℕ
end_stream_flag = 2

pub record EndStreamResponse : Type 0 where
  pub metadata : Headers
  pub error : Option ConnectError

-- the strings of an array of strings
strings : Items → Option (List Text)
strings nil = some []
strings (item (str s) xs) = elim (strings xs) [ none ↦ none | some ss ↦ some (s ∷ ss) ]
strings (item x xs) = none

strings_of : Json → Option (List Text)
unfolding strings
strings_of (arr xs) = strings xs
strings_of _ = none

-- `for (const value of values) { metadata.append(key, value) }`
append_values : Headers → Text → List Text → Result Headers
append_values h key [] = ok h
append_values h key (v ∷ vs) = checked (append h key v) >>= λ g. append_values g key vs

append_entry : JsonLibrary → Headers → Text → Json → Result Headers
unfolding strings_of append_values throw_parse_error
append_entry lib h key values = elim (strings_of values) [
  | some vs ↦ append_values h key vs
  | none ↦ throw_parse_error lib values (codes ".metadata[\"" ++ (key ++ codes "\"]"))
]

-- the loop over `Object.entries(jsonValue.metadata)`
append_entries : JsonLibrary → Headers → Fields → Result Headers
unfolding append_entry
append_entries lib h end = ok h
append_entries lib h (entry key values fs) =
    append_entry lib h key values >>= λ g. append_entries lib g fs

metadata_from : JsonLibrary → Json → Option Json → Result Headers
unfolding append_entries throw_parse_error
metadata_from lib whole none = ok []
metadata_from lib whole (some (obj fs)) = append_entries lib [] fs
metadata_from lib whole (some _) = throw_parse_error lib whole (codes ".metadata")

error_from : JsonLibrary → Option Json → Headers → Result (Option ConnectError)
unfolding error_from_json
error_from lib none metadata = ok none
error_from lib (some value) metadata = error_from_json lib value metadata >>= λ e. ok (some e)

-- `endStreamFromJson`, from the parsed value on
unfoldable pub end_stream_from_json : JsonLibrary → Json → Result EndStreamResponse
unfolding metadata_from error_from get_field throw_parse_error
end_stream_from_json lib (obj fs) = do
  metadata ← metadata_from lib (obj fs) (get_field (codes "metadata") fs)
  error ← error_from lib (get_field (codes "error") fs) metadata
  ok (record { metadata = metadata; error = error })
end_stream_from_json lib value = throw_parse_error lib value []

-- `md[key] = [value]` for every field; assigning to "__proto__" makes no property
metadata_object : Headers → Fields
unfolding ◌===◌
metadata_object [] = end
metadata_object ((key, value) ∷ h) =
    let rest = metadata_object h in
    if key === codes "__proto__" then rest else entry key (arr (item (str value) nil)) rest

-- `hasMetadata`: the headers have a field
metadata_fields : Headers → Fields
unfolding metadata_object
metadata_fields [] = end
metadata_fields (f ∷ h) = entry (codes "metadata") (obj (metadata_object (f ∷ h))) end

-- `appendHeaders(metadata, error.metadata)` of http-headers.ts
unfoldable pub append_headers : List Headers → Headers
unfolding append_all
append_headers hs = append_each [] hs
  where
    append_each : Headers → List Headers → Headers
    append_each h [] = h
    append_each h (e ∷ es) = append_each (append_all h e) es

-- the metadata that `endStreamToJson` sends
unfoldable pub sent_metadata : Headers → Option ConnectError → Headers
unfolding append_headers
sent_metadata metadata none = metadata
sent_metadata metadata (some e) = append_headers (metadata ∷ e.metadata ∷ [])

error_field : JsonLibrary → Option ConnectError → Fields → Fields
unfolding error_to_json
error_field lib none fs = fs
error_field lib (some e) fs = entry (codes "error") (obj (error_to_json lib e)) fs

unfoldable pub end_stream_to_json : JsonLibrary → Headers → Option ConnectError → Fields
unfolding error_field metadata_fields sent_metadata
end_stream_to_json lib metadata error =
    error_field lib error (metadata_fields (sent_metadata metadata error))
