-- ===== src/Connect/RequestHeader.antt =====
-- create-request-header.ts, headers.ts and version.ts of packages/connect-core/src/protocol-connect.
use connect_web.Prelude.{
  ℕ, ◌*◌, ◌^◌, ◌<◌, Bool, true, false, List, [], ◌∷◌, ◌≡◌, refl, Option, none, some, if◌then◌else◌,
}
use connect_web.Text.{lower, Text, codes, to_lower_case, ◌===◌}
use connect_web.Text.Decimal.{print}
use connect_web.Headers.{is_name, lookup, Headers, copy, get, set, insert}
use connect_web.Headers.Laws.{lookup-insert_two, lookup-insert}
use connect_web.Headers.Values.{checked-set_constant, all_visible, checked-set, print-visible}
use connect_web.Connect.Timeout.{
  absent, parse_timeout-print, millisecond, Timeout, nanoseconds, parse_timeout,
}
use connect_web.ConnectError.{err, ok_then, Result, ok, ◌>>=◌, checked}
use connect_web.Envelope.{Compression}
use connect_web.Compression.{names}
use connect_web.Connect.ContentType.{
  content_type_unary_proto, content_type_unary_json, content_type_stream_proto,
  content_type_stream_json,
}

-- `MethodKind` of the protobuf library
pub data MethodKind : Type 0 where
  unary server_streaming client_streaming bidi_streaming : MethodKind

abbrev pub is_unary_kind : MethodKind → Bool
is_unary_kind unary = true
is_unary_kind _ = false

abbrev pub header_content_type : Text
header_content_type = codes "Content-Type"

abbrev pub header_unary_encoding : Text
header_unary_encoding = codes "Content-Encoding"

abbrev pub header_stream_encoding : Text
header_stream_encoding = codes "Connect-Content-Encoding"

abbrev pub header_unary_accept_encoding : Text
header_unary_accept_encoding = codes "Accept-Encoding"

abbrev pub header_stream_accept_encoding : Text
header_stream_accept_encoding = codes "Connect-Accept-Encoding"

abbrev pub header_timeout : Text
header_timeout = codes "Connect-Timeout-Ms"

abbrev pub header_protocol_version : Text
header_protocol_version = codes "Connect-Protocol-Version"

abbrev pub protocol_version : Text
protocol_version = codes "1"

abbrev pub request_type : MethodKind → Bool → Text
request_type kind binary =
    if is_unary_kind kind
    then (if binary then content_type_unary_proto else content_type_unary_json)
    else (if binary then content_type_stream_proto else content_type_stream_json)

-- `new Headers(userProvidedHeaders ?? {})`, for headers that are given as `Headers`
abbrev pub user_headers : Option Headers → Headers
user_headers none = []
user_headers (some h) = copy h

abbrev set_timeout : Headers → Option ℕ → Result Headers
set_timeout h none = ok h
set_timeout h (some t) = checked (set h header_timeout (print t))

-- a timeout is a whole number of milliseconds
unfoldable pub create_request_header :
    MethodKind → Bool → Option ℕ → Option Headers → Result Headers
create_request_header kind binary timeout_ms user = do
  timed ← set_timeout (user_headers user) timeout_ms
  typed ← checked (set timed header_content_type (request_type kind binary))
  checked (set typed header_protocol_version protocol_version)

abbrev pub encoding_name : MethodKind → Text
encoding_name kind = if is_unary_kind kind then header_unary_encoding else header_stream_encoding

abbrev pub accept_name : MethodKind → Text
accept_name kind =
    if is_unary_kind kind then header_unary_accept_encoding else header_stream_accept_encoding

abbrev set_encoding : Headers → Text → Option Compression → Result Headers
set_encoding h name none = ok h
set_encoding h name (some c) = checked (set h name c.name)

abbrev set_accept : Headers → Text → List Compression → Result Headers
set_accept h name [] = ok h
set_accept h name (c ∷ cs) = checked (set h name (names (c ∷ cs)))

unfoldable pub create_request_header_with_compression :
    MethodKind
    → Bool
    → Option ℕ
    → Option Headers
    → List Compression
    → Option Compression
    → Result Headers
unfolding create_request_header
create_request_header_with_compression kind binary timeout_ms user accept send = do
  plain ← create_request_header kind binary timeout_ms user
  encoded ← set_encoding plain (encoding_name kind) send
  set_accept encoded (accept_name kind) accept

-- what a Connect request has under a lower-case name, in front of the user's own headers
abbrev timeout_or : Option ℕ → Text → Option Text → Option Text
timeout_or none k other = other
timeout_or (some t) k other = if codes "connect-timeout-ms" === k then some (print t) else other

abbrev pub request_field : MethodKind → Bool → Option ℕ → Option Headers → Text → Option Text
request_field kind binary timeout_ms user name =
    let k = to_lower_case name in
    if codes "connect-protocol-version" === k
    then some protocol_version
    else if codes "content-type" === k
    then some (request_type kind binary)
    else timeout_or timeout_ms k (get (user_headers user) name)

timed_headers : Headers → Option ℕ → Headers
timed_headers h none = h
timed_headers h (some t) = insert (codes "connect-timeout-ms") (print t) h

set_timeout-timed :
    (h : Headers) (timeout : Option ℕ) → set_timeout h timeout ≡ ok (timed_headers h timeout)
unfolding timed_headers is_name lower
set_timeout-timed h none = refl
set_timeout-timed h (some t) = checked-set h header_timeout (print t) refl (print-visible t)

request_type-visible :
    (kind : MethodKind) (binary : Bool) → all_visible (request_type kind binary) ≡ true
unfolding all_visible
request_type-visible unary true = refl
request_type-visible unary false = refl
request_type-visible server_streaming true = refl
request_type-visible server_streaming false = refl
request_type-visible client_streaming true = refl
request_type-visible client_streaming false = refl
request_type-visible bidi_streaming true = refl
request_type-visible bidi_streaming false = refl

all_fields : MethodKind → Bool → Option ℕ → Option Headers → Headers
unfolding timed_headers
all_fields kind binary timeout_ms user =
    insert (codes "connect-protocol-version") protocol_version (
      insert (codes "content-type") (request_type kind binary)
        (timed_headers (user_headers user) timeout_ms))

fields_are_set :
    (kind : MethodKind) (binary : Bool) (timeout_ms : Option ℕ) (user : Option Headers)
    → create_request_header kind binary timeout_ms user
      ≡ ok (all_fields kind binary timeout_ms user)
unfolding create_request_header all_fields is_name lower all_visible
fields_are_set kind binary timeout_ms user =
    let timed = timed_headers (user_headers user) timeout_ms in
    let typed = insert (codes "content-type") (request_type kind binary) timed in
    ok_then
      (λ t. checked (set t header_content_type (request_type kind binary)) >>= λ u.
        checked (set u header_protocol_version protocol_version))
      (set_timeout-timed (user_headers user) timeout_ms)
      (ok_then (λ u. checked (set u header_protocol_version protocol_version))
        (checked-set_constant timed header_content_type (request_type kind binary) refl
          (request_type-visible kind binary))
        (checked-set_constant typed header_protocol_version protocol_version refl refl))

timed_headers-lookup :
    (h : Headers) (timeout : Option ℕ) (k : Text)
    → lookup k (timed_headers h timeout) ≡ timeout_or timeout k (lookup k h)
unfolding timed_headers
timed_headers-lookup h none k = refl
timed_headers-lookup h (some t) k = lookup-insert (codes "connect-timeout-ms") k (print t) h

all_fields-get :
    (kind : MethodKind) (binary : Bool) (timeout_ms : Option ℕ) (user : Option Headers)
    (name : Text)
    → get (all_fields kind binary timeout_ms user) name
      ≡ request_field kind binary timeout_ms user name
unfolding all_fields get
all_fields-get kind binary timeout_ms user name =
    let k = to_lower_case name in
    lookup-insert_two (codes "connect-protocol-version") (codes "content-type") protocol_version
      (request_type kind binary) k (timed_headers (user_headers user) timeout_ms)
      (timeout_or timeout_ms k (get (user_headers user) name))
      (timed_headers-lookup (user_headers user) timeout_ms k)

-- Creating the headers never throws. The result has the protocol version, the content type of the
-- method and format, and the timeout if one is given, each in place of a value that the user gave;
-- every other name has the user's value.
pub create_request_header-get :
    (kind : MethodKind) (binary : Bool) (timeout_ms : Option ℕ) (user : Option Headers)
    → (h : Headers) × (create_request_header kind binary timeout_ms user ≡ ok h)
      × ((name : Text) → get h name ≡ request_field kind binary timeout_ms user name)
create_request_header-get kind binary timeout_ms user = (
  all_fields kind binary timeout_ms user,
  fields_are_set kind binary timeout_ms user,
  all_fields-get kind binary timeout_ms user,
)

-- the timeout that a server reads from the headers that were created
abbrev pub sent_timeout : Result Headers → Timeout
sent_timeout (ok h) = parse_timeout (get h header_timeout)
sent_timeout (err e) = absent

-- A timeout below 10^10 milliseconds that a client sends is the one that the server reads.
pub connect_timeout-sent :
    (kind : MethodKind) (binary : Bool) (t : ℕ) (user : Option Headers)
    → t < 10 ^ 10
    → sent_timeout (create_request_header kind binary (some t) user) ≡ nanoseconds (t * millisecond)
unfolding lower ◌===◌
connect_timeout-sent kind binary t user h =
    rw (fields_are_set kind binary (some t) user)
      (rw (all_fields-get kind binary (some t) user header_timeout) (parse_timeout-print t h))
