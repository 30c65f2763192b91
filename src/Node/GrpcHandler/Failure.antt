-- ===== src/Node/GrpcHandler/Failure.antt =====
-- How the handler of grpc-handler.ts in packages/connect-node/src reports an error.
use connect_web.Prelude.{
  ℕ, Bool, true, List, [], ◌∷◌, ◌≡◌, refl, ap, ◌∙◌, Option, none, some, arith,
}
use connect_web.Headers.{Headers}
use connect_web.Text.Percent.{encode_uri_component}
use connect_web.Text.Percent.RoundTrip.{AllUnits}
use connect_web.ConnectError.{Reason, Result, ok, Bytes, ok_then}
use connect_web.Stream.{Stream, done, raise, next, prepend}
use connect_web.Compression.{Negotiated}
use connect_web.Serialization.{Lookup}
use connect_web.AsyncIterable.Transforms.{transform_catch, yield_caught}
use connect_web.Grpc.TrailerStatus.{
  StatusLibrary, set_trailer_status, find_trailer_error, is_listed,
}
use connect_web.Grpc.TrailerStatus.RoundTrip.{
  CanSend, found_error, find_trailer_error-set_trailer_status,
}
use connect_web.Node.Universal.{stream_body}
use connect_web.Node.Implementation.{Context, ImplSpec, transform_invoke_implementation}
use connect_web.Node.Handler.{HandlerInit, internal_error, final_error}
use connect_web.Node.GrpcHandler.{
  grpc_input, grpc_output, grpc_response, catch_error, trailer_after,
}

final_error-prepend :
    {A : Type 0} (xs : List A) (e : Reason) → final_error (prepend xs (raise e)) ≡ some e
unfolding final_error prepend
final_error-prepend [] e = refl
final_error-prepend (x ∷ xs) e = final_error-prepend xs e

transform_catch-prepend :
    {A : Type 0} (f : Reason → Result (Option A)) (xs : List A) (e : Reason)
    → f e ≡ ok none
    → transform_catch f (prepend xs (raise e)) ≡ prepend xs done
unfolding transform_catch prepend yield_caught
transform_catch-prepend f [] e h = ap yield_caught h
transform_catch-prepend f (x ∷ xs) e h = ap (next x) (transform_catch-prepend f xs e h)

trailer_after-set :
    (lib : StatusLibrary) (target t : Headers) (e : Reason)
    → set_trailer_status lib target (some (internal_error e)) ≡ ok t
    → trailer_after lib target (some e) ≡ t
unfolding trailer_after
trailer_after-set lib target t e h = ground (arith, h)

-- If the response ends with an error behind some chunks of its body, then the body is sent with these
-- chunks and ends without an error, and a client finds the error in the trailer, one that is not a
-- ConnectError as an internal error; if its code is listed and the library can send it.
pub grpc_response-found_error :
    {I O P : Type 0} (lib : StatusLibrary) (serialization : Lookup I O) (opt : HandlerInit)
    (spec : ImplSpec I O P) (binary : Bool) (compression : Negotiated) (context after : Context)
    (body : Stream Bytes) (outputs : Stream O) (chunks : List Bytes) (e : Reason) (encoded : List ℕ)
    → transform_invoke_implementation spec context
        (grpc_input lib serialization opt spec binary compression body)
      ≡ (outputs, after)
    → grpc_output lib serialization opt spec binary compression outputs ≡ prepend chunks (raise e)
    → is_listed (internal_error e).code ≡ true
    → AllUnits (internal_error e).raw_message
    → encode_uri_component (internal_error e).raw_message ≡ some encoded
    → CanSend lib after.response_trailer (internal_error e) (internal_error e).details
    → let r = grpc_response lib serialization opt spec binary compression context body in
      (t : Headers) × (r.body ≡ stream_body (prepend chunks done))
      × (r.trailer ≡ some t)
      × (find_trailer_error lib t ≡ ok (some (found_error lib t (internal_error e))))
unfolding grpc_response catch_error
grpc_response-found_error {O} lib serialization opt spec binary compression context after body
      outputs chunks e encoded i o l u c s =
    let (t, set, found) =
      find_trailer_error-set_trailer_status lib after.response_trailer (internal_error e) encoded l
        u c s in
    let bytes =
      λ (x : Stream O × Context). grpc_output lib serialization opt spec binary compression x.0 in
    (
      t,
      ap (λ x. stream_body (transform_catch (catch_error lib x.1.response_trailer) (bytes x))) i
          ∙ ap (λ x. stream_body (transform_catch (catch_error lib after.response_trailer) x)) o
          ∙ ap stream_body (
              transform_catch-prepend (catch_error lib after.response_trailer) chunks e
                (ok_then (λ _. ok none) set refl)),
      ap (λ x. some (trailer_after lib x.1.response_trailer (final_error (bytes x)))) i
          ∙ ap (λ x. some (trailer_after lib after.response_trailer (final_error x))) o
          ∙ ap (λ x. some (trailer_after lib after.response_trailer x))
              (final_error-prepend chunks e)
          ∙ ap some (trailer_after-set lib after.response_trailer t e set),
      found,
    )
