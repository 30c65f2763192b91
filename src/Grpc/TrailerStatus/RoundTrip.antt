-- ===== src/Grpc/TrailerStatus/RoundTrip.antt =====
-- What `findTrailerError` finds of the error that `setTrailerStatus` sent.
use connect_web.Prelude.{ℕ, true, false, List, [], ◌∷◌, map, ◌≡◌, refl, ap, ◌∙◌, none, some, arith}
use connect_web.Text.{Text, codes, ◌===◌, lower}
use connect_web.Text.Decimal.{parse_int, print}
use connect_web.Text.Trim.{trim_start, drop_while, is_space}
use connect_web.Text.Percent.{encode_uri_component, decode_uri_component}
use connect_web.Text.Percent.RoundTrip.{AllUnits, decode-encode_uri_component}
use connect_web.Text.Percent.Visible.{encode_uri_component-AllVisible}
use connect_web.Code.{Code, number, inherited, of_number, print_number}
use connect_web.Headers.{Headers, get, set, insert, is_name}
use connect_web.Headers.Laws.{lookup-insert_two, lookup-insert}
use connect_web.Headers.Values.{AllVisible, checked-set, all_visible, all_visible-AllVisible}
use connect_web.ConnectError.{ConnectError, Result, ok, checked, new_error, ok_then, Detail}
use connect_web.Connect.ErrorJson.{with_details}
use connect_web.Grpc.RequestHeader.{
  header_grpc_status, header_grpc_message, header_status_details_bin,
}
use connect_web.Grpc.TrailerStatus.{
  StatusLibrary, Status, set_trailer_status, set_details, status_of, uri, find_trailer_error,
  error_from_status, error_from_details, parsed_code, is_listed, or_empty, decode_status, detail_of,
  is_zero, grpc_status_ok,
}

-- a code that is listed is read again from its number, which is not that of success
code-printed :
    (c : Code)
    → is_listed c ≡ true
    → (parsed_code (parse_int (print_number c)) ≡ some c)
      × ((print_number c === grpc_status_ok) ≡ false)
      × (all_visible (print_number c) ≡ true)
      × (is_zero c ≡ false)
unfolding parsed_code parse_int print_number of_number all_visible ◌===◌ is_zero trim_start
    drop_while print is_space
code-printed (number z) h = ground (arith, h)
code-printed (inherited p) h = ground (arith, h)
code-printed _ h = (refl, refl, refl, refl)

-- the trailer with a status and a message
abbrev described : Headers → Code → Text → Headers
described h code encoded =
    insert (codes "grpc-message") encoded (insert (codes "grpc-status") (print_number code) h)

set_trailer_status-described :
    (lib : StatusLibrary) (h : Headers) (e : ConnectError) (encoded : Text) (r : Result Headers)
    → is_listed e.code ≡ true
    → AllVisible encoded
    → encode_uri_component e.raw_message ≡ some encoded
    → set_details lib (described h e.code encoded) e e.details ≡ r
    → set_trailer_status lib h (some e) ≡ r
unfolding set_trailer_status uri is_name lower
set_trailer_status-described lib h e encoded r l v c s =
    ok_then _
      (checked-set h header_grpc_status (print_number e.code) refl
        (all_visible-AllVisible (print_number e.code) (code-printed e.code l).2))
      (ok_then _ (ap uri c) (
        ok_then _
          (checked-set (insert (codes "grpc-status") (print_number e.code) h) header_grpc_message
            encoded refl v)
          s))

-- what the details of an error ask of the library, and of the trailer where there are none
abbrev pub CanSend : StatusLibrary → Headers → ConnectError → List Detail → Type 0
CanSend lib h e [] = get h header_status_details_bin ≡ none
CanSend lib h e (d ∷ ds) =
    (bytes : List ℕ) × (lib.to_binary (status_of lib e) ≡ ok bytes)
    × (AllVisible (lib.enc bytes))
    × (lib.dec (lib.enc bytes) ≡ ok bytes)
    × (lib.from_binary bytes ≡ ok (status_of lib e))

-- the error that is found, with the trailer as its metadata
abbrev pub found_error : StatusLibrary → Headers → ConnectError → ConnectError
found_error lib t e =
    with_details (new_error e.raw_message e.code t [] none)
      (map detail_of (status_of lib e).details)

status_described :
    (h : Headers) (code : Code) (encoded : Text)
    → get (described h code encoded) header_grpc_status ≡ some (print_number code)
unfolding get lower ◌===◌
status_described h code encoded =
    lookup-insert_two (codes "grpc-message") (codes "grpc-status") encoded (print_number code)
      (codes "grpc-status") h (get h header_grpc_status) refl

message_described :
    (h : Headers) (code : Code) (encoded : Text)
    → get (described h code encoded) header_grpc_message ≡ some encoded
unfolding get lower ◌===◌
message_described h code encoded =
    lookup-insert_two (codes "grpc-message") (codes "grpc-status") encoded (print_number code)
      (codes "grpc-message") h (get h header_grpc_message) refl

details_described :
    (h : Headers) (code : Code) (encoded : Text)
    → get (described h code encoded) header_status_details_bin ≡ get h header_status_details_bin
unfolding get lower ◌===◌
details_described h code encoded =
    lookup-insert_two (codes "grpc-message") (codes "grpc-status") encoded (print_number code)
      (codes "grpc-status-details-bin") h (get h header_status_details_bin) refl

-- the status and the message, without details
error_from_status-described :
    (h : Headers) (code : Code) (text encoded : Text)
    → is_listed code ≡ true
    → decode_uri_component encoded ≡ some text
    → error_from_status (described h code encoded) (print_number code)
      ≡ ok (some (new_error text code (described h code encoded) [] none))
unfolding error_from_status uri or_empty
error_from_status-described h code text encoded l d =
    let (parsed, other, visible, nonzero) = code-printed code l in
    rw (other, parsed, message_described h code encoded, d) refl

decode_status-sent :
    (lib : StatusLibrary) (value : Text) (bytes : List ℕ) (status : Status)
    → lib.dec value ≡ ok bytes
    → lib.from_binary bytes ≡ ok status
    → decode_status lib value ≡ ok status
unfolding decode_status
decode_status-sent lib value bytes status d f = ground (arith, d, f)

error_from_details-sent :
    (lib : StatusLibrary) (t : Headers) (e : ConnectError) (bytes : List ℕ)
    → is_listed e.code ≡ true
    → lib.dec (lib.enc bytes) ≡ ok bytes
    → lib.from_binary bytes ≡ ok (status_of lib e)
    → error_from_details lib t (lib.enc bytes) ≡ ok (some (found_error lib t e))
unfolding error_from_details status_of new_error
error_from_details-sent lib t e bytes l d f =
    let (parsed, other, visible, nonzero) = code-printed e.code l in
    rw (decode_status-sent lib (lib.enc bytes) bytes (status_of lib e) d f, error_from_details)
      (rw nonzero refl)

-- The trailer that `setTrailerStatus` makes of an error with a listed code, and what is found in it.
found_without_details :
    (lib : StatusLibrary) (h : Headers) (e : ConnectError) (encoded : Text)
    → is_listed e.code ≡ true
    → decode_uri_component encoded ≡ some e.raw_message
    → get h header_status_details_bin ≡ none
    → find_trailer_error lib (described h e.code encoded)
      ≡ ok (some (new_error e.raw_message e.code (described h e.code encoded) [] none))
unfolding find_trailer_error
found_without_details lib h e encoded l d n =
    rw
      (details_described h e.code encoded, n, status_described h e.code encoded, find_trailer_error)
      (error_from_status-described h e.code e.raw_message encoded l d)

found_with_details :
    (lib : StatusLibrary) (h : Headers) (e : ConnectError) (bytes : List ℕ)
    → is_listed e.code ≡ true
    → lib.dec (lib.enc bytes) ≡ ok bytes
    → lib.from_binary bytes ≡ ok (status_of lib e)
    → let t = insert (codes "grpc-status-details-bin") (lib.enc bytes) h in
      find_trailer_error lib t ≡ ok (some (found_error lib t e))
unfolding find_trailer_error get lower ◌===◌
found_with_details lib h e bytes l d f =
    rw
      (
        lookup-insert (codes "grpc-status-details-bin") (codes "grpc-status-details-bin")
            (lib.enc bytes) h,
        find_trailer_error,
      )
      (error_from_details-sent lib (insert (codes "grpc-status-details-bin") (lib.enc bytes) h) e
        bytes l d f)

-- `findTrailerError` finds the error that `setTrailerStatus` sent: its code, its message and its details,
-- as the library packs them, with the trailer as its metadata; if the code is listed, the message can
-- be encoded, and the library reads what it writes of the details, or there are none and the trailer
-- had none before.
pub find_trailer_error-set_trailer_status :
    (lib : StatusLibrary) (h : Headers) (e : ConnectError) (encoded : Text)
    → is_listed e.code ≡ true
    → AllUnits e.raw_message
    → encode_uri_component e.raw_message ≡ some encoded
    → CanSend lib h e e.details
    → (t : Headers) × (set_trailer_status lib h (some e) ≡ ok t)
      × (find_trailer_error lib t ≡ ok (some (found_error lib t e)))
unfolding set_details is_name lower status_of new_error
find_trailer_error-set_trailer_status lib h e encoded l u c s = by_details e.details refl s
  where
    by_details :
        (ds : List Detail)
        → e.details ≡ ds
        → CanSend lib h e ds
        → (t : Headers) × (set_trailer_status lib h (some e) ≡ ok t)
          × (find_trailer_error lib t ≡ ok (some (found_error lib t e)))
    by_details [] d s = (
      described h e.code encoded,
      set_trailer_status-described lib h e encoded (ok (described h e.code encoded)) l
          (encode_uri_component-AllVisible e.raw_message encoded u c) c
          (ap (set_details lib (described h e.code encoded) e) d),
      found_without_details lib h e encoded l
            (decode-encode_uri_component e.raw_message encoded u c) s
          ∙ rw d refl,
    )
    by_details (x ∷ xs) d (bytes, written, visible, dec, read) = (
      insert (codes "grpc-status-details-bin") (lib.enc bytes) (described h e.code encoded),
      set_trailer_status-described lib h e encoded
          (ok
            (insert (codes "grpc-status-details-bin") (lib.enc bytes) (described h e.code encoded)))
          l (encode_uri_component-AllVisible e.raw_message encoded u c) c
          (ap (set_details lib (described h e.code encoded) e) d
            ∙ ok_then
                (λ b.
                  checked (set (described h e.code encoded) header_status_details_bin (lib.enc b)))
                written
                (checked-set (described h e.code encoded) header_status_details_bin (lib.enc bytes)
                  refl visible)),
      found_with_details lib (described h e.code encoded) e bytes l dec read,
    )
