-- ===== src/Node/Universal.antt =====
-- private/universal.ts of packages/connect-node/src: requests and responses of a server.
use connect_web.Prelude.{ℕ, Option, none}
use connect_web.Text.{Text}
use connect_web.Headers.{Headers}
use connect_web.ConnectError.{Bytes}
use connect_web.Stream.{Stream}

-- `UniversalServerRequest`
pub record ServerRequest : Type 0 where
  pub http_version : Text
  pub method : Text
  pub header : Headers
  pub body : Stream Bytes

pub data Body : Type 0 where
  no_body : Body
  byte_body : Bytes → Body
  stream_body : Stream Bytes → Body

-- `UniversalServerResponse`. The source returns objects that the implementation may still change while
-- the body is read; here, they hold what they hold when the body has been read to its end.
pub record ServerResponse : Type 0 where
  pub status : ℕ
  pub header : Option Headers
  pub body : Body
  pub trailer : Option Headers

-- a response with a status only
abbrev pub status_only : ℕ → ServerResponse
status_only status = record { status = status; header = none; body = no_body; trailer = none }

abbrev pub response_ok : ServerResponse
response_ok = status_only 200

abbrev pub response_not_found : ServerResponse
response_not_found = status_only 404

abbrev pub response_unsupported_media_type : ServerResponse
response_unsupported_media_type = status_only 415

abbrev pub response_method_not_allowed : ServerResponse
response_method_not_allowed = status_only 405

abbrev pub response_version_not_supported : ServerResponse
response_version_not_supported = status_only 505
