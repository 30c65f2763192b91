-- ===== src/AsyncIterable/Transforms.antt =====
-- The transforms of packages/connect-core/src/async-iterable.ts that work element by element.
use Prim.Native.Nat.{bit_or}
use connect_web.Code.{invalid_argument}
use connect_web.Compression.{assert_write_max_bytes}
use connect_web.Stream.{done, next, raise, Stream, map_stream}
use connect_web.Envelope.{
  Compression, has_flag, envelope_decompress, envelope_compress, encode_envelope, EnvelopedMessage,
}
use connect_web.Serialization.{Serialization}
use connect_web.ConnectError.{
  simple_error, connect_error, ◌>>◌, ◌>>=◌, ok, err, Bytes, Result, Reason,
}
use connect_web.Prelude.{ℕ, Bool, Option, none, some, if◌then◌else◌, length}
use connect_web.Text.{codes}

-- `ParsedEnvelopedMessage`: a message, or the end of the stream
pub data Parsed (A E : Type 0) : Type 0 where
  message_value : A → Parsed A E
  end_value : E → Parsed A E

module _ {A : Type 0} where
  unfoldable pub yield_caught : Result (Option A) → Stream A
  yield_caught (ok none) = done
  yield_caught (ok (some caught)) = next caught done
  yield_caught (err e) = raise e

  -- `catchError` may return a last value, and may throw
  unfoldable pub transform_catch : (Reason → Result (Option A)) → Stream A → Stream A
  unfolding yield_caught
  transform_catch catch_error done = done
  transform_catch catch_error (raise e) = yield_caught (catch_error e)
  transform_catch catch_error (next x s) = next x (transform_catch catch_error s)

  unfoldable pub transform_catch_finally : (Option Reason → Result (Option A)) → Stream A → Stream A
  unfolding yield_caught
  transform_catch_finally catch_finally done = yield_caught (catch_finally none)
  transform_catch_finally catch_finally (raise e) = yield_caught (catch_finally (some e))
  transform_catch_finally catch_finally (next x s) =
      next x (transform_catch_finally catch_finally s)

  -- `provide` may throw
  unfoldable pub transform_append : Result (Option A) → Stream A → Stream A
  unfolding yield_caught
  transform_append provide done = yield_caught provide
  transform_append provide (raise e) = raise e
  transform_append provide (next x s) = next x (transform_append provide s)

  unfoldable pub transform_prepend : Result (Option A) → Stream A → Stream A
  transform_prepend (err e) s = raise e
  transform_prepend (ok none) s = s
  transform_prepend (ok (some x)) s = next x s

  unfoldable pub serialize_message : Serialization A → ℕ → A → Result EnvelopedMessage
  unfolding assert_write_max_bytes
  serialize_message serialization write_max_bytes chunk = do
    bytes ← serialization.serialize chunk
    assert_write_max_bytes write_max_bytes (length bytes)
        >> ok (record { flags = 0; payload = bytes })

  -- `transformSerializeEnvelope`, without an end
  unfoldable pub transform_serialize_envelope :
      Serialization A → ℕ → Stream A → Stream EnvelopedMessage
  unfolding serialize_message map_stream
  transform_serialize_envelope serialization write_max_bytes =
      map_stream (serialize_message serialization write_max_bytes)

  -- `transformParseEnvelope`, without a serialization for the end: whether it is null or undefined
  -- decides if an end is refused or skipped
  unfoldable pub transform_parse_envelope :
      Serialization A → Option ℕ → Bool → Stream EnvelopedMessage → Stream A
  transform_parse_envelope serialization end_flag end_is_null done = done
  transform_parse_envelope serialization end_flag end_is_null (raise e) = raise e
  transform_parse_envelope serialization end_flag end_is_null (next e s) =
      let rest = transform_parse_envelope serialization end_flag end_is_null s in
      let parsed : Stream A = elim (serialization.parse e.payload) [
        | ok x ↦ next x rest
        | err r ↦ raise r
      ] in
      elim end_flag [
        | none ↦ parsed
        | some flag ↦
            if has_flag e.flags flag
            then (if end_is_null
                then raise
                    (connect_error (simple_error (codes "unexpected end flag") invalid_argument))
                else rest)
            else parsed
      ]

module _ {A E : Type 0} where
  unfoldable pub serialize_parsed :
      Serialization A → ℕ → Serialization E → Parsed A E → Result EnvelopedMessage
  serialize_parsed serialization end_flag end_serialization (message_value x) =
      serialization.serialize x >>= λ bytes. ok (record { flags = 0; payload = bytes })
  serialize_parsed serialization end_flag end_serialization (end_value x) =
      end_serialization.serialize x >>= λ bytes.
      ok (record { flags = bit_or 0 end_flag; payload = bytes })

  -- `transformSerializeEnvelope` with an end; it does not look at its limit of bytes
  unfoldable pub transform_serialize_envelope_end :
      Serialization A → ℕ → ℕ → Serialization E → Stream (Parsed A E) → Stream EnvelopedMessage
  unfolding serialize_parsed map_stream
  transform_serialize_envelope_end serialization write_max_bytes end_flag end_serialization =
      map_stream (serialize_parsed serialization end_flag end_serialization)

  unfoldable pub parse_parsed :
      Serialization A → ℕ → Serialization E → EnvelopedMessage → Result (Parsed A E)
  parse_parsed serialization end_flag end_serialization e =
      if has_flag e.flags end_flag
      then (end_serialization.parse e.payload >>= (λ x. ok (end_value x)))
      else (serialization.parse e.payload >>= (λ x. ok (message_value x)))

  -- `transformParseEnvelope` with a serialization for the end
  unfoldable pub transform_parse_envelope_end :
      Serialization A → ℕ → Serialization E → Stream EnvelopedMessage → Stream (Parsed A E)
  unfolding parse_parsed map_stream
  transform_parse_envelope_end serialization end_flag end_serialization =
      map_stream (parse_parsed serialization end_flag end_serialization)

unfoldable pub transform_compress_envelope :
    Option Compression → ℕ → Stream EnvelopedMessage → Stream EnvelopedMessage
unfolding envelope_compress map_stream
transform_compress_envelope compression compress_min_bytes =
    map_stream (λ e. envelope_compress e compression compress_min_bytes)

unfoldable pub transform_decompress_envelope :
    Option Compression → ℕ → Stream EnvelopedMessage → Stream EnvelopedMessage
unfolding envelope_decompress map_stream
transform_decompress_envelope compression read_max_bytes =
    map_stream (λ e. envelope_decompress e compression read_max_bytes)

unfoldable pub transform_join_envelopes : Stream EnvelopedMessage → Stream Bytes
unfolding encode_envelope map_stream
transform_join_envelopes = map_stream (λ e. ok (encode_envelope e.flags e.payload))
