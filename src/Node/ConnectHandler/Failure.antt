-- ===== src/Node/ConnectHandler/Failure.antt =====
-- How the unary handler of connect-handler.ts in packages/connect-node/src reports an error, and how a
-- client takes it.
use connect_web.Node.ConnectHandler.ErrorHeader.{error_type, AllOther}
use mathlib.Core.List.{flatten}
use connect_web.Pattern.{match_whole, chain, strip_literal, tag}
use connect_web.Prelude.{
  ℕ, ◌-◌, ◌^◌, ◌≤◌, Bool, true, false, [], ◌∷◌, ◌≡◌, refl, ap, ◌∙◌, Option, none, some, arith, ◌==◌,
  length, append-nil,
}
use connect_web.Headers.{Headers}
use connect_web.Headers.Order.{IsSorted}
use connect_web.ConnectError.{ConnectError, Reason, Result, ok, Bytes, ok_then, ◌>>=◌}
use connect_web.Stream.{Stream, done, raise, next, of_list, map_stream}
use connect_web.Compression.{Negotiated}
use connect_web.Envelope.{EnvelopedMessage, envelope_compress, has_flag}
use connect_web.Serialization.{Lookup}
use connect_web.AsyncIterable.ReadAllBytes.{no_hint, sink_all_bytes, parse_length_hint}
use connect_web.AsyncIterable.ReadAllBytes.Reading.{read_all_bytes-unknown}
use connect_web.AsyncIterable.Transforms.{
  transform_catch, yield_caught, transform_serialize_envelope, transform_compress_envelope,
}
use connect_web.Connect.ContentType.{parse_content_type}
use connect_web.Connect.HttpStatus.{code_to_http_status, code_to_http_status-bounds}
use connect_web.Connect.RequestHeader.{unary}
use connect_web.Connect.TrailerMux.{trailer_mux}
use connect_web.Connect.ValidateResponse.{validate_response, validate_response_iff-unary_error}
use connect_web.Node.Universal.{ServerResponse, byte_body}
use connect_web.Node.Implementation.{Context, ImplSpec}
use connect_web.Node.Handler.{HandlerInit, internal_error, final_error}
use connect_web.Node.ConnectHandler.Unary.{
  error_header, catch_unary, status_after, header_after, finish_unary, set_unwrapped,
  unwrap_envelopes, unary_output, unary_response,
}

one_envelope : Bytes → Stream EnvelopedMessage
one_envelope b = next (record { flags = 0; payload = b }) done

caught : Result (Option EnvelopedMessage) → Stream EnvelopedMessage
unfolding yield_caught
caught r = yield_caught r

abbrev failed_response : Reason → Headers → Bytes → ServerResponse
failed_response e muxed b = record {
  status = code_to_http_status (internal_error e).code;
  header = some muxed;
  body = byte_body b;
  trailer = none;
}

sink-one :
    (b : Bytes)
    → length b ≤ 2 ^ 53 - 1
    → sink_all_bytes (2 ^ 53 - 1) no_hint (unwrap_envelopes (one_envelope b)) ≡ ok b
unfolding sink_all_bytes unwrap_envelopes one_envelope map_stream of_list parse_length_hint flatten
sink-one b h =
    read_all_bytes-unknown (2 ^ 53 - 1) no_hint (b ∷ []) refl
    ∙ rw (append-nil b) (ground (arith, h))

finish_error :
    (after : Context) (e : Reason) (g muxed : Headers) (b : Bytes)
    → error_header after.response_header (internal_error e) ≡ ok g
    → length b ≤ 2 ^ 53 - 1
    → trailer_mux g after.response_trailer ≡ ok muxed
    → finish_unary none after (some e) (one_envelope b) ≡ ok (failed_response e muxed b)
unfolding finish_unary header_after set_unwrapped one_envelope status_after
finish_error after e g muxed b made short muxes =
    ok_then _ made (ok_then _ (sink-one b short) (ok_then _ muxes refl))

not_success : (n : ℕ) → 400 ≤ n → (n == 200) ≡ false
not_success n h = ground arith

taken_for_error :
    (binary : Bool) (h g trailer muxed : Headers) (e : Reason)
    → IsSorted h
    → AllOther (internal_error e).metadata
    → error_header h (internal_error e) ≡ ok g
    → trailer_mux g trailer ≡ ok muxed
    → validate_response unary binary (code_to_http_status (internal_error e).code) muxed ≡ ok true
unfolding parse_content_type match_whole chain strip_literal tag
taken_for_error binary h g trailer muxed e sorted other made muxes =
    let status = code_to_http_status (internal_error e).code in
    (validate_response_iff-unary_error unary binary status muxed).1 (
      ap parse_content_type
            (error_type h g trailer muxed (internal_error e) sorted other made muxes)
          ∙ refl,
      rw (not_success status (code_to_http_status-bounds (internal_error e).code).0) refl,
    )

module _ {I O P : Type 0} (to_json_bytes : ConnectError → Result Bytes) (serialization : Lookup I O)
    (opt : HandlerInit) (spec : ImplSpec I O P) (binary : Bool) (compression : Negotiated) where
  plain :
      (b : Bytes)
      → transform_compress_envelope none opt.compress_min_bytes (one_envelope b) ≡ one_envelope b
  unfolding transform_compress_envelope one_envelope map_stream envelope_compress has_flag
  plain b = refl

  -- the envelope of the error takes the place of the outputs
  error_output :
      (h g : Headers) (outputs : Stream O) (e : Reason) (b : Bytes)
      → compression.response ≡ none
      → transform_serialize_envelope (serialization.get_o binary) opt.write_max_bytes outputs
        ≡ raise e
      → error_header h (internal_error e) ≡ ok g
      → to_json_bytes (internal_error e) ≡ ok b
      → unary_output to_json_bytes serialization opt spec binary compression h outputs
        ≡ one_envelope b
  unfolding unary_output one_envelope catch_unary transform_catch caught
  error_output h g outputs e b n o made written =
      ap
        (λ s.
          transform_compress_envelope compression.response opt.compress_min_bytes
            (transform_catch (catch_unary to_json_bytes h) s))
        o
      ∙ ap (λ r. transform_compress_envelope compression.response opt.compress_min_bytes (caught r))
          (ok_then
            (λ _. to_json_bytes (internal_error e) >>= λ bytes.
              ok (some (record { flags = 0; payload = bytes })))
            made
            (ok_then (λ bytes. ok (some (record { flags = 0; payload = bytes }))) written refl))
      ∙ ap (λ c. transform_compress_envelope c opt.compress_min_bytes (one_envelope b)) n
      ∙ plain b

  -- If serializing the outputs fails at once, no compression was negotiated, the error can be written and
  -- does not set the content type, and the trailers are valid, then the response has the status of the
  -- code and the error as JSON in its body, and a client takes it for a unary error, whatever the format
  -- of the request.
  pub unary_response-validate_response :
      (after : Context) (outputs : Stream O) (e : Reason) (g muxed : Headers) (b : Bytes)
      → compression.response ≡ none
      → transform_serialize_envelope (serialization.get_o binary) opt.write_max_bytes outputs
        ≡ raise e
      → IsSorted after.response_header
      → AllOther (internal_error e).metadata
      → error_header after.response_header (internal_error e) ≡ ok g
      → to_json_bytes (internal_error e) ≡ ok b
      → length b ≤ 2 ^ 53 - 1
      → trailer_mux g after.response_trailer ≡ ok muxed
      → (r : ServerResponse) × (unary_response to_json_bytes serialization opt spec binary
            compression after outputs
          ≡ ok r)
        × (r.status ≡ code_to_http_status (internal_error e).code)
        × (r.header ≡ some muxed)
        × (r.body ≡ byte_body b)
        × (validate_response unary binary r.status muxed ≡ ok true)
  unfolding unary_response
  unary_response-validate_response after outputs e g muxed b n o sorted other made written short
        muxes =
      (
        failed_response e muxed b,
        ap
              (λ f. finish_unary compression.response after f (
                unary_output to_json_bytes serialization opt spec binary compression
                  after.response_header outputs))
              (ap final_error o)
            ∙ ap (finish_unary compression.response after (some e))
                (error_output after.response_header g outputs e b n o made written)
            ∙ ap (λ c. finish_unary c after (some e) (one_envelope b)) n
            ∙ finish_error after e g muxed b made short muxes,
        refl,
        refl,
        refl,
        taken_for_error binary after.response_header g after.response_trailer muxed e sorted other
            made muxes,
      )
