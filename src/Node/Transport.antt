-- ===== src/Node/Transport.antt =====
-- What the transports of packages/connect-node/src have in common: private/universal.ts and
-- node-transport-options.ts, with `transformNormalizeMessage` of connect-core.
pub mod Connect
pub mod Grpc
pub mod GrpcWeb
pub mod Calls
use connect_web.Prelude.{
  get_elem?, ℕ, zero, suc, ◌+◌, ◌-◌, ◌*◌, ◌/◌, ◌%◌, ◌^◌, ◌≤◌, ◌<◌, Bool, true, false, not, ◌&&◌,
  ◌||◌, List, [], ◌∷◌, ◌++◌, map, ℤ, pos, negsuc, ◌≡◌, refl, sym, ap, ap₂, ◌∙◌, ◌≢◌, ◌↔◌, ◌⊎◌, inl,
  inr, Option, none, some, String, arith, leb, ltb, ◌==◌, if◌then◌else◌, Bool-cases, Option-cases,
  ==_iff, leb→le, ltb→lt, lt→ltb, tests, length, length-append, take, drop, take-append-drop,
  length-take, length-drop, length-map, fun_ext, replicate, length-replicate, append-nil,
  append_assoc,
}
use connect_web.Text.{Text, codes}
use connect_web.Headers.{Headers}
use connect_web.ConnectError.{ok, Result, Bytes}
use connect_web.Envelope.{Compression}
use connect_web.Serialization.{Input, whole_message, partial_message, MessageType}
use connect_web.Stream.{map_stream, Stream, done, raise, next}

-- `UniversalClientRequest`
pub record ClientRequest : Type 0 where
  pub url : Text
  pub method : Text
  pub header : Headers
  pub body : Stream Bytes

-- `UniversalClientResponse`; the trailer is what it holds when the body has been read to its end
pub record ClientResponse : Type 0 where
  pub status : ℕ
  pub header : Headers
  pub body : Stream Bytes
  pub trailer : Headers

-- `UniversalClientFn`
abbrev pub ClientFn : Type 0
ClientFn = ClientRequest → Result ClientResponse

-- the options as `validateNodeTransportOptions` returns them, with the base URL
pub record TransportOptions : Type 0 where
  pub base_url : Text
  pub use_binary_format : Bool
  pub accept_compression : List Compression
  pub send_compression : Option Compression
  pub compress_min_bytes : ℕ
  pub read_max_bytes : ℕ
  pub write_max_bytes : ℕ

-- `UnaryRequest` and `StreamRequest`
pub record Request (A : Type 0) : Type 0 where
  pub url : Text
  pub header : Headers
  pub message : A

-- `UnaryResponse` and `StreamResponse`
pub record Response (A : Type 0) : Type 0 where
  pub header : Headers
  pub message : A
  pub trailer : Headers

-- `message instanceof I ? message : new I(message)`
unfoldable pub normalize_message : {A P : Type 0} → MessageType A P → Input A P → Result A
normalize_message type (whole_message m) = ok m
normalize_message type (partial_message p) = type.create p

unfoldable pub transform_normalize_message :
    {A P : Type 0} → MessageType A P → Stream (Input A P) → Stream A
unfolding normalize_message map_stream
transform_normalize_message type = map_stream (normalize_message type)

-- messages as they go into the second `transformNormalizeMessage`
unfoldable pub as_inputs : {A P : Type 0} → Stream A → Stream (Input A P)
as_inputs done = done
as_inputs (raise e) = raise e
as_inputs (next m s) = next (whole_message m) (as_inputs s)
