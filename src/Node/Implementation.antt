-- ===== src/Node/Implementation.antt =====
-- implementation.ts of packages/connect-node/src: what a user provides for a method, and how it is
-- invoked. What an implementation sets in its context, it sets before its first output.
use connect_web.Prelude.{List, [], ◌∷◌, ◌++◌, some}
use connect_web.Code.{internal, invalid_argument}
use connect_web.Text.{Text, codes}
use connect_web.Headers.{Headers, append, copy}
use connect_web.ConnectError.{
  Reason, Result, ok, err, connect_error, new_error, simple_error, checked, reason_text, ◌>>=◌,
}
use connect_web.Stream.{Stream, done, raise, next, map_stream}

-- `HandlerContext`, without the method and the service
pub record Context : Type 0 where
  pub request_header : Headers
  pub response_header : Headers
  pub response_trailer : Headers

-- `new Headers(init)` for an object: each of its fields is appended
unfoldable pub headers_of : Headers → List (Text × Text) → Result Headers
headers_of h [] = ok h
headers_of h ((name, value) ∷ fields) = checked (append h name value) >>= λ g. headers_of g fields

unfoldable pub create_handler_context :
    Headers → List (Text × Text) → List (Text × Text) → Result Context
unfolding headers_of
create_handler_context request header trailer = do
  response_header ← headers_of [] header
  response_trailer ← headers_of [] trailer
  ok (record {
    request_header = copy request;
    response_header = response_header;
    response_trailer = response_trailer;
  })

-- `O | PartialMessage<O>`
pub data Output (O P : Type 0) : Type 0 where
  whole_output : O → Output O P
  partial_output : P → Output O P

-- `MethodImpl`: the four kinds of `ImplSpec`, each with what it leaves in the context
pub data MethodImpl (I O P : Type 0) : Type 0 where
  unary_impl : (I → Context → Result (Output O P) × Context) → MethodImpl I O P
  server_streaming_impl : (I → Context → Stream (Output O P) × Context) → MethodImpl I O P
  client_streaming_impl : (Stream I → Context → Result (Output O P) × Context) → MethodImpl I O P
  bidi_streaming_impl : (Stream I → Context → Stream (Output O P) × Context) → MethodImpl I O P

-- `ImplSpec`, with the names of the service, the method and the output type, and the constructor of the
-- latter, which may throw
pub record ImplSpec (I O P : Type 0) : Type 0 where
  pub service : Text
  pub method : Text
  pub impl : MethodImpl I O P
  pub output_type : Text
  pub construct : P → Result O

pub missing_input : Text → Reason
missing_input kind = connect_error (
    simple_error (codes "protocol error: missing input message for " ++ (kind ++ codes " method"))
      invalid_argument)

pub extra_input : Text → Reason
extra_input kind = connect_error (
    simple_error
      (codes "protocol error: received extra input message for " ++ (kind ++ codes " method"))
      invalid_argument)

module _ {I O : Type 0} where
  -- `input2.done !== true` throws
  unfoldable pub no_more : Text → Stream I → Stream O
  unfolding extra_input
  no_more kind done = done
  no_more kind (raise e) = raise e
  no_more kind (next x rest) = raise (extra_input kind)

module _ {O : Type 0} where
  -- one output, and then what follows it
  unfoldable pub yield_then : Result O → Stream O → Stream O
  yield_then (ok o) rest = next o rest
  yield_then (err e) rest = raise e

  -- all outputs, and then what follows them
  unfoldable pub yield_all_then : Stream O → Stream O → Stream O
  yield_all_then done rest = rest
  yield_all_then (raise e) rest = raise e
  yield_all_then (next o s) rest = next o (yield_all_then s rest)

module _ {I O P : Type 0} where
  unfoldable pub normalize_output : ImplSpec I O P → Output O P → Result O
  normalize_output spec (whole_output m) = ok m
  normalize_output spec (partial_output p) = elim (spec.construct p) [
    | ok m ↦ ok m
    | err e ↦ err (
        connect_error (
          new_error (codes "failed to normalize message " ++ spec.output_type) internal [] []
            (some (reason_text e))))
  ]

  unfoldable pub invoke_unary :
      ImplSpec I O P
      → (I → Context → Result (Output O P) × Context)
      → Context
      → Stream I
      → Stream O × Context
  unfolding missing_input no_more yield_then normalize_output
  invoke_unary spec f context done = (raise (missing_input (codes "unary")), context)
  invoke_unary spec f context (raise e) = (raise e, context)
  invoke_unary spec f context (next x rest) =
      let (output, after) = f x context in
      (yield_then (output >>= normalize_output spec) (no_more (codes "unary") rest), after)

  unfoldable pub invoke_server_streaming :
      ImplSpec I O P
      → (I → Context → Stream (Output O P) × Context)
      → Context
      → Stream I
      → Stream O × Context
  unfolding missing_input no_more yield_all_then normalize_output map_stream
  invoke_server_streaming spec f context done =
      (raise (missing_input (codes "server-streaming")), context)
  invoke_server_streaming spec f context (raise e) = (raise e, context)
  invoke_server_streaming spec f context (next x rest) =
      let (outputs, after) = f x context in
      (
        yield_all_then (map_stream (normalize_output spec) outputs)
            (no_more (codes "server-streaming") rest),
        after,
      )

  invoke : ImplSpec I O P → MethodImpl I O P → Context → Stream I → Stream O × Context
  unfolding invoke_unary invoke_server_streaming yield_then normalize_output map_stream
  invoke spec (unary_impl f) context input = invoke_unary spec f context input
  invoke spec (server_streaming_impl f) context input = invoke_server_streaming spec f context input
  invoke spec (client_streaming_impl f) context input =
      let (output, after) = f input context in
      (yield_then (output >>= normalize_output spec) done, after)
  invoke spec (bidi_streaming_impl f) context input =
      let (outputs, after) = f input context in (map_stream (normalize_output spec) outputs, after)

  -- `transformInvokeImplementation(spec, context)`: the outputs, and the context that is left
  unfoldable pub transform_invoke_implementation :
      ImplSpec I O P → Context → Stream I → Stream O × Context
  unfolding invoke
  transform_invoke_implementation spec context input = invoke spec spec.impl context input
