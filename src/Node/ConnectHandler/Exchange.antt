-- ===== src/Node/ConnectHandler/Exchange.antt =====
-- The transforms of a streaming handler of the Connect protocol, against those of
-- AsyncIterable/Pipeline: messages and the end behind them.
use Prim.Native.Nat.{bit_or}
use connect_web.Prelude.{
  ℕ, ◌≤◌, false, List, [], ◌∷◌, map, ◌≡◌, refl, sym, ap, ◌∙◌, Option, none, some, arith, length,
}
use connect_web.Headers.{Headers}
use connect_web.ConnectError.{Reason, Result, ok, err, Bytes, ok_then, ◌>>=◌}
use connect_web.Serialization.{Serialization}
use connect_web.Stream.{
  Stream, done, raise, next, of_list, prepend, map_stream, map_stream-next, map_stream-raise,
}
use connect_web.Compression.{assert_write_max_bytes}
use connect_web.Envelope.{Compression, EnvelopedMessage, has_flag}
use connect_web.AsyncIterable.Transforms.{
  Parsed, message_value, end_value, serialize_message, serialize_parsed, parse_parsed,
  transform_serialize_envelope, transform_serialize_envelope_end, transform_parse_envelope,
  transform_parse_envelope_end, transform_catch_finally, yield_caught,
}
use connect_web.AsyncIterable.Pipeline.{IsEndFlag, AllTransmit, Reads}
use connect_web.Connect.EndStream.{EndStreamResponse, end_stream_flag}
use connect_web.Node.ConnectHandler.Streaming.{end_of, final_end}

-- the end of a stream, with the error if there is one
abbrev pub ended_by : {A : Type 0} → Option Reason → Stream A
ended_by none = done
ended_by (some e) = raise e

-- a message that can be written, and is within the limit for writing
abbrev pub IsWritable : {A : Type 0} → Serialization A → ℕ → A → Type 0
IsWritable s write_max x = (b : Bytes) × (s.serialize x ≡ ok b) × (length b ≤ write_max)

abbrev pub AllWritable : {A : Type 0} → Serialization A → ℕ → List A → Type 0
AllWritable s write_max [] = Unit {0}
AllWritable s write_max (x ∷ xs) = IsWritable s write_max x × AllWritable s write_max xs

module _ {A E : Type 0} (messages : Serialization A) (end_flag write_max : ℕ)
    (ends : Serialization E) where
  -- the envelope of a message, on both branches of `transformSerializeEnvelope`
  written :
      (x : A)
      → IsWritable messages write_max x
      → (e : EnvelopedMessage) × (serialize_message messages write_max x ≡ ok e)
        × (serialize_parsed messages end_flag ends (message_value x) ≡ ok e)
  unfolding serialize_message serialize_parsed assert_write_max_bytes
  written x (b, w, short) = (record { flags = 0; payload = b }, ground arith, ground arith)

  -- without an end, the branches agree
  pub serialize-messages :
      (xs : List A)
      → AllWritable messages write_max xs
      → transform_serialize_envelope messages write_max (of_list xs)
        ≡ transform_serialize_envelope_end messages write_max end_flag ends
            (of_list (map message_value xs))
  unfolding transform_serialize_envelope transform_serialize_envelope_end of_list
  serialize-messages [] h = unfold map_stream in refl
  serialize-messages (x ∷ xs) (h, hs) =
      let (e, plain, parsed) = written x h in
      map_stream-next (serialize_message messages write_max) x e (of_list xs) plain
      ∙ ap (next e) (serialize-messages xs hs)
      ∙ sym (
          map_stream-next (serialize_parsed messages end_flag ends) (message_value x) e
            (of_list (map message_value xs)) parsed)

-- a list of values and the end behind them
abbrev pub with_end : {A E : Type 0} → List A → E → List (Parsed A E)
with_end [] e = end_value e ∷ []
with_end (x ∷ xs) e = message_value x ∷ with_end xs e

module _ {A : Type 0} (messages : Serialization A) (write_max : ℕ)
    (ends : Serialization EndStreamResponse) (trailer : Headers) (failure : Option Reason) where
  end_case :
      (r : Result Bytes)
      → ends.serialize (end_of trailer failure) ≡ r
      → yield_caught (final_end ends trailer failure)
        ≡ transform_serialize_envelope_end messages write_max end_stream_flag ends
            (of_list (end_value (end_of trailer failure) ∷ []))
  unfolding final_end transform_serialize_envelope_end of_list serialize_parsed yield_caught
  end_case (ok b) e =
      ap yield_caught
        (ok_then (λ b. ok (some (record { flags = end_stream_flag; payload = b }))) e refl)
      ∙ sym (
          map_stream-next (serialize_parsed messages end_stream_flag ends)
            (end_value (end_of trailer failure)) (record { flags = 2; payload = b }) done
            (ok_then (λ b. ok (record { flags = bit_or 0 end_stream_flag; payload = b })) e refl))
  end_case (err x) e =
      ap yield_caught
        (ap (λ r. r >>= λ b. ok (some (record { flags = end_stream_flag; payload = b }))) e)
      ∙ sym (
          map_stream-raise (serialize_parsed messages end_stream_flag ends)
            (end_value (end_of trailer failure)) x done
            (ap (λ r. r >>= λ b. ok (record { flags = bit_or 0 end_stream_flag; payload = b })) e))

  end-alike :
      (f : Option Reason)
      → f ≡ failure
      → transform_catch_finally
          (final_end ends trailer)
          (transform_serialize_envelope messages write_max (ended_by f))
        ≡ transform_serialize_envelope_end messages write_max end_stream_flag ends
            (of_list (end_value (end_of trailer failure) ∷ []))
  unfolding transform_catch_finally transform_serialize_envelope
  end-alike none e =
      ap (λ g. yield_caught (final_end ends trailer g)) e
      ∙ end_case (ends.serialize (end_of trailer failure)) refl
  end-alike (some x) e =
      ap (λ g. yield_caught (final_end ends trailer g)) e
      ∙ end_case (ends.serialize (end_of trailer failure)) refl

  -- the outputs with the end that `transformCatchFinally` adds are sent as messages and an end
  pub output-alike :
      (ms : List A)
      → AllWritable messages write_max ms
      → transform_catch_finally
          (final_end ends trailer)
          (transform_serialize_envelope messages write_max (prepend ms (ended_by failure)))
        ≡ transform_serialize_envelope_end messages write_max end_stream_flag ends
            (of_list (with_end ms (end_of trailer failure)))
  unfolding transform_catch_finally transform_serialize_envelope transform_serialize_envelope_end
      of_list prepend
  output-alike [] h = end-alike failure refl
  output-alike (x ∷ xs) (h, hs) =
      let (e, plain, parsed) = written messages end_stream_flag write_max ends x h in
      ap (transform_catch_finally (final_end ends trailer)) (
        map_stream-next (serialize_message messages write_max) x e (prepend xs (ended_by failure))
          plain)
      ∙ ap (next e) (output-alike xs hs)
      ∙ sym (
          map_stream-next (serialize_parsed messages end_stream_flag ends) (message_value x) e
            (of_list (with_end xs (end_of trailer failure))) parsed)

-- an end without a value, which every payload is read as
abbrev pub no_end : Serialization (Unit {0})
no_end = record { serialize = λ x. ok []; parse = λ b. ok tt }

pub strip_ends : {A E : Type 0} → Stream (Parsed A E) → Stream A
strip_ends done = done
strip_ends (raise e) = raise e
strip_ends (next (message_value x) s) = next x (strip_ends s)
strip_ends (next (end_value e) s) = strip_ends s

abbrev pub as_messages : {A : Type 0} → List A → List (Parsed A (Unit {0}))
as_messages xs = map message_value xs

abbrev pub AllRead : {A : Type 0} → Serialization A → Option Compression → ℕ → List A → Type 0
AllRead s compression max [] = Unit {0}
AllRead s compression max (x ∷ xs) = Reads s compression max x × AllRead s compression max xs

pub two-IsEndFlag : IsEndFlag end_stream_flag
two-IsEndFlag = record {
  byte = omega arith;
  marks = unfold has_flag in refl;
  not_zero = unfold has_flag in refl;
  plain = unfold has_flag in refl;
}

module _ {A : Type 0} (messages : Serialization A) (flag : ℕ) where
  -- a parser that skips ends, and one that reads them
  pub parse-strip_ends :
      (s : Stream EnvelopedMessage)
      → transform_parse_envelope messages (some flag) false s
        ≡ strip_ends (transform_parse_envelope_end messages flag no_end s)
  unfolding transform_parse_envelope transform_parse_envelope_end strip_ends map_stream parse_parsed
  parse-strip_ends done = refl
  parse-strip_ends (raise e) = refl
  parse-strip_ends (next e s) = ground (arith, parse-strip_ends s)

  pub strip_ends-messages : (xs : List A) → strip_ends (of_list (as_messages xs)) ≡ of_list xs
  unfolding strip_ends of_list
  strip_ends-messages [] = refl
  strip_ends-messages (x ∷ xs) = ap (next x) (strip_ends-messages xs)

  pub AllRead-AllTransmit :
      (compression : Option Compression) (min max : ℕ) (xs : List A)
      → AllRead messages compression max xs
      → AllTransmit messages flag no_end compression min max (map message_value xs)
  AllRead-AllTransmit compression min max [] h = tt
  AllRead-AllTransmit compression min max (x ∷ xs) (h, hs) =
      (h, AllRead-AllTransmit compression min max xs hs)

pub with_end-AllTransmit :
    {A E : Type 0} (messages : Serialization A) (flag : ℕ) (ends : Serialization E)
    (compression : Option Compression) (min max : ℕ) (ms : List A) (e : E)
    → AllRead messages compression max ms
    → Reads ends compression max e
    → AllTransmit messages flag ends compression min max (with_end ms e)
with_end-AllTransmit messages flag ends compression min max [] e h k = (k, tt)
with_end-AllTransmit messages flag ends compression min max (x ∷ xs) e (h, hs) k =
    (h, with_end-AllTransmit messages flag ends compression min max xs e hs k)
