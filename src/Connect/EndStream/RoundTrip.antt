-- ===== src/Connect/EndStream/RoundTrip.antt =====
-- What becomes of the end of a stream on the way to JSON and back.
use connect_web.Headers.Laws.{append-valid}
use connect_web.Connect.ErrorJson.RoundTrip.{AllEncodable, error_from_json-error_to_json, received}
use connect_web.Code.Names.{IsListed}
use connect_web.ConnectError.{ok, ConnectError}
use connect_web.Json.{nil, obj, str, Json, Fields, item, arr, get_field}
use connect_web.Headers.{put_field, normalize, is_value, copy, append_all, Headers, is_name}
use connect_web.Connect.ErrorJson.{JsonLibrary}
use connect_web.Prelude.{true, false, [], ◌∷◌, ◌≡◌, refl, Option, none, some, arith}
use connect_web.Text.{to_lower_case, Text, codes, ◌===◌}
use connect_web.Connect.EndStream.{
  sent_metadata, end_stream_to_json, end_stream_from_json, append_values, append_entry,
  append_entries, strings, strings_of, metadata_from, error_from, metadata_object, metadata_fields,
  error_field,
}

-- a field that a `Headers` can hold, under another name than "__proto__"
abbrev pub IsField : Text → Text → Type 0
IsField k v =
    (is_name k ≡ true)
    × ((to_lower_case k ≡ k)
        × ((is_value (normalize v) ≡ true) × ((k === codes "__proto__") ≡ false)))

abbrev pub AllFields : Headers → Type 0
AllFields [] = Unit {0}
AllFields ((k, v) ∷ h) = IsField k v × AllFields h

-- no error, or one that survives serialization
abbrev pub IsSendable : JsonLibrary → Option ConnectError → Type 0
IsSendable lib none = Unit {0}
IsSendable lib (some e) = IsListed e.code × AllEncodable lib e.details

abbrev pub received_error : JsonLibrary → Headers → Option ConnectError → Option ConnectError
received_error lib h none = none
received_error lib h (some e) = some (received lib e h)

module _ (lib : JsonLibrary) where
  append_entry-field :
      (g : Headers) (k v : Text)
      → IsField k v
      → append_entry lib g k (arr (item (str v) nil)) ≡ ok (put_field k (normalize v) g)
  unfolding append_entry strings_of strings append_values
  append_entry-field g k v (n, (l, (w, p))) = rw (append-valid g k v n w) (rw l refl)

  append_entries-fields :
      (g h : Headers) → AllFields h → append_entries lib g (metadata_object h) ≡ ok (append_all g h)
  unfolding append_entries metadata_object append_all
  append_entries-fields g [] a = refl
  append_entries-fields g ((k, v) ∷ h) ((n, (l, (w, p))), a) = rw p (
      rw (append_entry-field g k v (n, (l, (w, p))))
        (append_entries-fields (put_field k (normalize v) g) h a))

  metadata_from-fields :
      (whole : Json) (h : Headers)
      → AllFields h
      → metadata_from lib whole (get_field (codes "metadata") (metadata_fields h)) ≡ ok (copy h)
  unfolding metadata_from metadata_fields get_field ◌===◌ copy append_all
  metadata_from-fields whole [] a = refl
  metadata_from-fields whole (f ∷ h) a = append_entries-fields [] (f ∷ h) a

  metadata_after_error :
      (error : Option ConnectError) (fs : Fields)
      → get_field (codes "metadata") (error_field lib error fs) ≡ get_field (codes "metadata") fs
  unfolding error_field get_field ◌===◌
  metadata_after_error none fs = refl
  metadata_after_error (some e) fs = refl

  error_back :
      (error : Option ConnectError) (h g : Headers)
      → IsSendable lib error
      → error_from lib (get_field (codes "error") (error_field lib error (metadata_fields h))) g
        ≡ ok (received_error lib g error)
  unfolding error_from error_field metadata_fields get_field ◌===◌
  error_back none [] g s = refl
  error_back none (f ∷ h) g s = refl
  error_back (some e) h g (c, d) = rw (error_from_json-error_to_json lib e g c d) refl

  -- From what endStreamToJson makes of metadata and an error, endStreamFromJson makes an end whose
  -- metadata is the given one with the metadata of the error behind it, and whose error has the same
  -- code and message, all of this metadata as its own, its details undecoded, and no cause. The code
  -- is one of the sixteen, the details can be decoded from base64 with an object as debug value if
  -- any, and the fields of the metadata are valid and none is named "__proto__".
  pub end_stream_from_json-end_stream_to_json :
      (metadata : Headers) (error : Option ConnectError)
      → AllFields (sent_metadata metadata error)
      → IsSendable lib error
      → end_stream_from_json lib (obj (end_stream_to_json lib metadata error))
        ≡ ok (record {
          metadata = copy (sent_metadata metadata error);
          error = received_error lib (copy (sent_metadata metadata error)) error;
        })
  unfolding end_stream_from_json end_stream_to_json
  end_stream_from_json-end_stream_to_json metadata error a s =
      let sent = sent_metadata metadata error in
      ground (
        arith,
        metadata_after_error error (metadata_fields sent),
        metadata_from-fields (obj (error_field lib error (metadata_fields sent))) sent a,
        error_back error sent (copy sent) s,
      )
