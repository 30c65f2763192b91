-- ===== src/Node/Handler.antt =====
-- What the handlers of the three protocols in packages/connect-node/src have in common.
use connect_web.Prelude.{ℕ, List, [], Option, none, some}
use connect_web.Text.{Text, codes}
use connect_web.Code.{internal}
use connect_web.Headers.{Headers, set}
use connect_web.ConnectError.{
  ConnectError, Reason, Result, ok, err, connect_error, error_object, other_value, new_error,
  checked, Bytes,
}
use connect_web.Stream.{Stream, done, raise, next}
use connect_web.Envelope.{Compression}

-- `ProtocolHandlerFactInit`, as far as the handlers read it
pub record HandlerInit : Type 0 where
  pub accept_compression : List Compression
  pub compress_min_bytes : ℕ
  pub read_max_bytes : ℕ
  pub write_max_bytes : ℕ

abbrev pub method_post : Text
method_post = codes "POST"

-- an error as it is sent: what is not a ConnectError is not shown to the client
unfoldable pub internal_error : Reason → ConnectError
internal_error (connect_error e) = e
internal_error (error_object name msg) =
    new_error (codes "internal error") internal [] [] (some msg)
internal_error (other_value text) = new_error (codes "internal error") internal [] [] (some text)

-- `if (compression.error) throw compression.error; return undefined`
unfoldable pub raise_negotiated : Option ConnectError → Result (Option Bytes)
raise_negotiated none = ok none
raise_negotiated (some e) = err (connect_error e)

-- `if (compression.response) { header.set(name, compression.response.name) }`
unfoldable pub set_encoding : Headers → Text → Option Compression → Result Headers
set_encoding h name none = ok h
set_encoding h name (some c) = checked (set h name c.name)

-- the error that a stream ends with
unfoldable pub final_error {ℓ} : {A : Type ℓ} → Stream A → Option Reason
final_error done = none
final_error (raise e) = some e
final_error (next x s) = final_error s
