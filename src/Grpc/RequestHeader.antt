-- ===== src/Grpc/RequestHeader.antt =====
-- create-request-header.ts and headers.ts of packages/connect-core/src/protocol-grpc.
use connect_web.Connect.Timeout.{absent, millisecond, nanoseconds, Timeout}
use connect_web.Compression.{names}
use connect_web.Headers.Laws.{lookup-insert_two, lookup-insert}
use connect_web.ConnectError.{err, ◌>>=◌, checked, ok, Result}
use connect_web.Text.Decimal.{print}
use connect_web.Envelope.{Compression}
use connect_web.Headers.Values.{
  print-visible, AllVisible-append, checked-set, checked-set_constant, all_visible,
}
use connect_web.Headers.{set, lookup, insert, is_name, Headers, get}
use connect_web.Prelude.{
  ℕ, ◌*◌, ◌^◌, ◌<◌, Bool, true, false, List, [], ◌∷◌, ◌++◌, ◌≡◌, refl, ◌∙◌, Option, none, some,
  arith, if◌then◌else◌,
}
use connect_web.Text.{lower, to_lower_case, ◌===◌, Text, codes}
use connect_web.Connect.RequestHeader.{user_headers}
use connect_web.Grpc.Timeout.{parse_timeout-unit, unit_to_multiplicand, parse_timeout}
use connect_web.Grpc.ContentType.{content_type_proto, content_type_json}

abbrev pub header_content_type : Text
header_content_type = codes "Content-Type"

abbrev pub header_encoding : Text
header_encoding = codes "Grpc-Encoding"

abbrev pub header_accept_encoding : Text
header_accept_encoding = codes "Grpc-Accept-Encoding"

abbrev pub header_timeout : Text
header_timeout = codes "Grpc-Timeout"

abbrev pub header_grpc_status : Text
header_grpc_status = codes "Grpc-Status"

abbrev pub header_grpc_message : Text
header_grpc_message = codes "Grpc-Message"

abbrev pub header_status_details_bin : Text
header_status_details_bin = codes "Grpc-Status-Details-Bin"

abbrev pub header_user_agent : Text
header_user_agent = codes "X-User-Agent"

abbrev pub user_agent : Text
user_agent = codes "@bufbuild/connect-web"

abbrev pub request_type : Bool → Text
request_type binary = if binary then content_type_proto else content_type_json

-- a timeout is a whole number of milliseconds
unfoldable pub set_timeout : Headers → Option ℕ → Result Headers
set_timeout h none = ok h
set_timeout h (some t) = checked (set h header_timeout (print t ++ codes "m"))

unfoldable pub create_request_header : Bool → Option ℕ → Option Headers → Result Headers
unfolding set_timeout
create_request_header binary timeout_ms user = do
  typed ← checked (set (user_headers user) header_content_type (request_type binary))
  agent ← checked (set typed header_user_agent user_agent)
  timed ← set_timeout agent timeout_ms
  checked (set timed (codes "Te") (codes "trailers"))

-- the encoding fields, for both gRPC and gRPC-web
unfoldable pub set_encodings : Headers → List Compression → Option Compression → Result Headers
set_encodings h [] none = ok h
set_encodings h [] (some c) = checked (set h header_encoding c.name)
set_encodings h (a ∷ accept) none = checked (set h header_accept_encoding (names (a ∷ accept)))
set_encodings h (a ∷ accept) (some c) = do
  encoded ← checked (set h header_encoding c.name)
  checked (set encoded header_accept_encoding (names (a ∷ accept)))

unfoldable pub create_request_header_with_compression :
    Bool → Option ℕ → Option Headers → List Compression → Option Compression → Result Headers
unfolding create_request_header set_encodings
create_request_header_with_compression binary timeout_ms user accept send = do
  plain ← create_request_header binary timeout_ms user
  set_encodings plain accept send

pub timed_headers : Headers → Option ℕ → Headers
timed_headers h none = h
timed_headers h (some t) = insert (codes "grpc-timeout") (print t ++ codes "m") h

pub set_timeout-timed :
    (h : Headers) (timeout : Option ℕ) → set_timeout h timeout ≡ ok (timed_headers h timeout)
unfolding set_timeout timed_headers is_name lower
set_timeout-timed h none = refl
set_timeout-timed h (some t) =
    checked-set h header_timeout (print t ++ codes "m") refl
      (AllVisible-append (print t) (codes "m") (print-visible t) (ground arith, tt))

request_type-visible : (binary : Bool) → all_visible (request_type binary) ≡ true
unfolding all_visible
request_type-visible true = refl
request_type-visible false = refl

-- what a gRPC request has under a lower-case name, in front of the user's own headers
abbrev pub timeout_or : Option ℕ → Text → Option Text → Option Text
timeout_or none k other = other
timeout_or (some t) k other =
    if codes "grpc-timeout" === k then some (print t ++ codes "m") else other

abbrev pub request_field : Bool → Option ℕ → Option Headers → Text → Option Text
request_field binary timeout_ms user name =
    let k = to_lower_case name in
    if codes "te" === k
    then some (codes "trailers")
    else timeout_or timeout_ms k (
        if codes "x-user-agent" === k
        then some user_agent
        else if codes "content-type" === k
        then some (request_type binary)
        else get (user_headers user) name)

pub timed_headers-lookup :
    (h : Headers) (timeout : Option ℕ) (k : Text) (rest : Option Text)
    → lookup k h ≡ rest
    → lookup k (timed_headers h timeout) ≡ timeout_or timeout k rest
unfolding timed_headers
timed_headers-lookup h none k rest e = e
timed_headers-lookup h (some t) k rest e =
    lookup-insert (codes "grpc-timeout") k (print t ++ codes "m") h ∙ rw e refl

typed_headers : Bool → Option Headers → Headers
typed_headers binary user =
    insert (codes "x-user-agent") user_agent
      (insert (codes "content-type") (request_type binary) (user_headers user))

all_fields : Bool → Option ℕ → Option Headers → Headers
unfolding typed_headers
all_fields binary timeout_ms user =
    insert (codes "te") (codes "trailers") (timed_headers (typed_headers binary user) timeout_ms)

fields_are_set :
    (binary : Bool) (timeout_ms : Option ℕ) (user : Option Headers)
    → create_request_header binary timeout_ms user ≡ ok (all_fields binary timeout_ms user)
unfolding create_request_header all_fields is_name lower all_visible typed_headers
fields_are_set binary timeout_ms user =
    let typed = insert (codes "content-type") (request_type binary) (user_headers user) in
    let agent = insert (codes "x-user-agent") user_agent typed in
    ground (
      arith,
      checked-set_constant (user_headers user) header_content_type (request_type binary) refl
          (request_type-visible binary),
      checked-set_constant typed header_user_agent user_agent refl refl,
      set_timeout-timed agent timeout_ms,
      checked-set_constant (timed_headers agent timeout_ms) (codes "Te") (codes "trailers") refl
          refl,
    )

all_fields-get :
    (binary : Bool) (timeout_ms : Option ℕ) (user : Option Headers) (name : Text)
    → get (all_fields binary timeout_ms user) name ≡ request_field binary timeout_ms user name
unfolding all_fields typed_headers get
all_fields-get binary timeout_ms user name =
    let k = to_lower_case name in
    let h = user_headers user in
    lookup-insert (codes "te") k (codes "trailers")
      (timed_headers (typed_headers binary user) timeout_ms)
    ∙ rw
        (timed_headers-lookup (typed_headers binary user) timeout_ms k
          (if codes "x-user-agent" === k
            then some user_agent
            else if codes "content-type" === k
            then some (request_type binary)
            else get h name)
          (lookup-insert_two (codes "x-user-agent") (codes "content-type") user_agent
            (request_type binary) k h (get h name) refl))
        refl

-- Creating the headers never throws. The result has the content type of the format, the user agent,
-- "trailers" as "Te" and the timeout if one is given, each in place of a value that the user gave;
-- every other name has the user's value.
pub grpc_create_request_header-get :
    (binary : Bool) (timeout_ms : Option ℕ) (user : Option Headers)
    → (h : Headers) × (create_request_header binary timeout_ms user ≡ ok h)
      × ((name : Text) → get h name ≡ request_field binary timeout_ms user name)
grpc_create_request_header-get binary timeout_ms user = (
  all_fields binary timeout_ms user,
  fields_are_set binary timeout_ms user,
  all_fields-get binary timeout_ms user,
)

-- the timeout that a server reads from the headers that were created
abbrev pub sent_timeout : Result Headers → Timeout
sent_timeout (ok h) = parse_timeout (get h header_timeout)
sent_timeout (err e) = absent

-- A timeout below 10^8 milliseconds that a client sends is the one that the server reads.
pub grpc_timeout-sent :
    (binary : Bool) (t : ℕ) (user : Option Headers)
    → t < 10 ^ 8
    → sent_timeout (create_request_header binary (some t) user) ≡ nanoseconds (millisecond * t)
unfolding lower ◌===◌ unit_to_multiplicand
grpc_timeout-sent binary t user h = rw (fields_are_set binary (some t) user) (
    rw (all_fields-get binary (some t) user header_timeout)
      (parse_timeout-unit t b'm' millisecond h refl))
