-- ===== src/GrpcWeb/RequestHeader.antt =====
-- create-request-header.ts of packages/connect-core/src/protocol-grpc-web. The names of the header
-- fields, the timeout and the encoding fields are those of gRPC.
use connect_web.Headers.Laws.{lookup-insert_two, lookup-insert}
use connect_web.Envelope.{Compression}
use connect_web.ConnectError.{checked, ◌>>=◌, ok, Result}
use connect_web.Headers.Values.{checked-set_constant, all_visible}
use connect_web.Headers.{set, insert, is_name, Headers, get}
use connect_web.Prelude.{
  ℕ, Bool, true, false, List, ◌≡◌, refl, ◌∙◌, Option, some, arith, if◌then◌else◌,
}
use connect_web.Text.{◌===◌, lower, to_lower_case, Text, codes}
use connect_web.Connect.RequestHeader.{user_headers}
use connect_web.Grpc.RequestHeader.{
  header_content_type, header_user_agent, user_agent, set_timeout, set_encodings, timed_headers,
  set_timeout-timed, timed_headers-lookup, timeout_or,
}
use connect_web.GrpcWeb.ContentType.{content_type_proto, content_type_json}

abbrev pub request_type : Bool → Text
request_type binary = if binary then content_type_proto else content_type_json

unfoldable pub create_request_header : Bool → Option ℕ → Option Headers → Result Headers
unfolding set_timeout
create_request_header binary timeout_ms user = do
  typed ← checked (set (user_headers user) header_content_type (request_type binary))
  web ← checked (set typed (codes "X-Grpc-Web") (codes "1"))
  agent ← checked (set web header_user_agent user_agent)
  set_timeout agent timeout_ms

unfoldable pub create_request_header_with_compression :
    Bool → Option ℕ → Option Headers → List Compression → Option Compression → Result Headers
unfolding create_request_header set_encodings
create_request_header_with_compression binary timeout_ms user accept send = do
  plain ← create_request_header binary timeout_ms user
  set_encodings plain accept send

request_type-visible : (binary : Bool) → all_visible (request_type binary) ≡ true
unfolding all_visible
request_type-visible true = refl
request_type-visible false = refl

-- what a gRPC-web request has under a lower-case name, in front of the user's own headers
abbrev pub request_field : Bool → Option ℕ → Option Headers → Text → Option Text
request_field binary timeout_ms user name =
    let k = to_lower_case name in
    timeout_or timeout_ms k (
      if codes "x-user-agent" === k
      then some user_agent
      else if codes "x-grpc-web" === k
      then some (codes "1")
      else if codes "content-type" === k
      then some (request_type binary)
      else get (user_headers user) name)

web_headers : Bool → Option Headers → Headers
web_headers binary user =
    insert (codes "x-grpc-web") (codes "1")
      (insert (codes "content-type") (request_type binary) (user_headers user))

agent_headers : Bool → Option Headers → Headers
unfolding web_headers
agent_headers binary user = insert (codes "x-user-agent") user_agent (web_headers binary user)

fields_are_set :
    (binary : Bool) (timeout_ms : Option ℕ) (user : Option Headers)
    → create_request_header binary timeout_ms user
      ≡ ok (timed_headers (agent_headers binary user) timeout_ms)
unfolding create_request_header is_name lower all_visible web_headers agent_headers
fields_are_set binary timeout_ms user =
    let typed = insert (codes "content-type") (request_type binary) (user_headers user) in
    ground (
      arith,
      checked-set_constant (user_headers user) header_content_type (request_type binary) refl
          (request_type-visible binary),
      checked-set_constant typed (codes "X-Grpc-Web") (codes "1") refl refl,
      checked-set_constant (web_headers binary user) header_user_agent user_agent refl refl,
      set_timeout-timed (agent_headers binary user) timeout_ms,
    )

fields-get :
    (binary : Bool) (timeout_ms : Option ℕ) (user : Option Headers) (name : Text)
    → get (timed_headers (agent_headers binary user) timeout_ms) name
      ≡ request_field binary timeout_ms user name
unfolding agent_headers web_headers get
fields-get binary timeout_ms user name =
    let k = to_lower_case name in
    let h = user_headers user in
    timed_headers-lookup (agent_headers binary user) timeout_ms k
      (if codes "x-user-agent" === k
        then some user_agent
        else if codes "x-grpc-web" === k
        then some (codes "1")
        else if codes "content-type" === k
        then some (request_type binary)
        else get h name)
      (lookup-insert (codes "x-user-agent") k user_agent (web_headers binary user)
        ∙ rw
            (lookup-insert_two (codes "x-grpc-web") (codes "content-type") (codes "1")
              (request_type binary) k h (get h name) refl)
            refl)

-- Creating the headers never throws. The result has the content type of the format, "1" as
-- "X-Grpc-Web", the user agent and the timeout if one is given, each in place of a value that the
-- user gave; every other name has the user's value.
pub grpc_web_create_request_header-get :
    (binary : Bool) (timeout_ms : Option ℕ) (user : Option Headers)
    → (h : Headers) × (create_request_header binary timeout_ms user ≡ ok h)
      × ((name : Text) → get h name ≡ request_field binary timeout_ms user name)
grpc_web_create_request_header-get binary timeout_ms user = (
  timed_headers (agent_headers binary user) timeout_ms,
  fields_are_set binary timeout_ms user,
  fields-get binary timeout_ms user,
)
