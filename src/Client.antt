-- ===== src/Client.antt =====
-- promise-client.ts and any-client.ts of packages/connect-core/src. What a call does is the sequence of
-- what it hands out: headers and trailers to the callbacks of its options, both given, and messages.
pub mod Callbacks
use connect_web.Prelude.{
  get_elem?, ℕ, zero, suc, ◌+◌, ◌-◌, ◌*◌, ◌/◌, ◌%◌, ◌^◌, ◌≤◌, ◌<◌, Bool, true, false, not, ◌&&◌,
  ◌||◌, List, [], ◌∷◌, ◌++◌, map, ℤ, pos, negsuc, ◌≡◌, refl, sym, ap, ap₂, ◌∙◌, ◌≢◌, ◌↔◌, ◌⊎◌, inl,
  inr, Option, none, some, String, arith, leb, ltb, ◌==◌, if◌then◌else◌, Bool-cases, Option-cases,
  ==_iff, leb→le, ltb→lt, lt→ltb, tests, length, length-append, take, drop, take-append-drop,
  length-take, length-drop, length-map, fun_ext, replicate, length-replicate, append-nil,
  append_assoc,
}
use connect_web.Text.{Text, codes}
use connect_web.Code.{internal}
use connect_web.Headers.{Headers}
use connect_web.ConnectError.{Reason, Result, ok, err, connect_error, simple_error}
use connect_web.Stream.{Stream, done, raise, next, of_list}
use connect_web.Serialization.{Input, MessageType}
use connect_web.Connect.RequestHeader.{
  MethodKind, unary, server_streaming, client_streaming, bidi_streaming,
}
use connect_web.Node.Transport.{Response, normalize_message, transform_normalize_message}
use connect_web.Transport.{Transport}

-- `onHeader` and `onTrailer` of `CallOptions`, and the messages
pub data Event (A : Type 0) : Type 0 where
  header_event : Headers → Event A
  trailer_event : Headers → Event A
  message_event : A → Event A

-- `CallOptions`
pub record CallOptions : Type 0 where
  pub timeout_ms : Option ℕ
  pub headers : Option Headers

missing_message : Reason
missing_message =
    connect_error (simple_error (codes "protocol error: missing response message") internal)

module _ {O : Type 0} where
  -- `yield* response.message`, and then the trailer
  unfoldable pub messages_then_trailer : Headers → Stream O → Stream (Event O)
  messages_then_trailer trailer done = next (trailer_event trailer) done
  messages_then_trailer trailer (raise e) = raise e
  messages_then_trailer trailer (next m s) =
      next (message_event m) (messages_then_trailer trailer s)

  unfoldable pub streamed : Result (Response (Stream O)) → Stream (Event O)
  unfolding messages_then_trailer
  streamed (err e) = raise e
  streamed (ok response) =
      next (header_event response.header) (messages_then_trailer response.trailer response.message)

  -- the last message, behind one that was read before
  unfoldable pub last_message : Option O → Stream O → Result O
  unfolding missing_message
  last_message none done = err missing_message
  last_message (some m) done = ok m
  last_message read (raise e) = err e
  last_message read (next m s) = last_message (some m) s

  unfoldable pub returned : Headers → Result O → Stream (Event O)
  returned trailer (err e) = raise e
  returned trailer (ok m) = next (trailer_event trailer) (next (message_event m) done)

module _ {I PI O : Type 0} (transport : Transport I PI O) where
  unfoldable pub create_unary_fn : CallOptions → Input I PI → Stream (Event O)
  unfolding returned
  create_unary_fn options input = elim (transport.unary options.timeout_ms options.headers input) [
    | err e ↦ raise e
    | ok response ↦
        next (header_event response.header) (returned response.trailer (ok response.message))
  ]

module _ {I PI O : Type 0} (transport : Transport I PI O) (type : MessageType I PI) where
  unfoldable pub create_server_streaming_fn : CallOptions → Input I PI → Stream (Event O)
  unfolding streamed normalize_message of_list
  create_server_streaming_fn options input = elim (normalize_message type input) [
    | err e ↦ raise e
    | ok m ↦ streamed (transport.stream options.timeout_ms options.headers (of_list (m ∷ [])))
  ]

  unfoldable pub create_client_streaming_fn : CallOptions → Stream (Input I PI) → Stream (Event O)
  unfolding transform_normalize_message last_message returned
  create_client_streaming_fn options request =
      elim (transport.stream options.timeout_ms options.headers
        (transform_normalize_message type request)) [
          | err e ↦ raise e
          | ok response ↦
              next (header_event response.header)
                (returned response.trailer (last_message none response.message))
        ]

  unfoldable pub create_bidi_streaming_fn : CallOptions → Stream (Input I PI) → Stream (Event O)
  unfolding streamed transform_normalize_message
  create_bidi_streaming_fn options request = streamed (
      transport.stream options.timeout_ms options.headers
        (transform_normalize_message type request))

-- a method of a client, by what it takes
pub data ClientMethod (I PI O : Type 0) : Type 0 where
  of_one : (CallOptions → Input I PI → Stream (Event O)) → ClientMethod I PI O
  of_many : (CallOptions → Stream (Input I PI) → Stream (Event O)) → ClientMethod I PI O

-- the function that `createPromiseClient` gives to `makeAnyClient`
unfoldable pub promise_method :
    {I PI O : Type 0}
    → Transport I PI O
    → MessageType I PI
    → MethodKind
    → Option (ClientMethod I PI O)
unfolding create_unary_fn create_server_streaming_fn create_client_streaming_fn
    create_bidi_streaming_fn
promise_method transport type unary = some (of_one (create_unary_fn transport))
promise_method transport type server_streaming =
    some (of_one (create_server_streaming_fn transport type))
promise_method transport type client_streaming =
    some (of_many (create_client_streaming_fn transport type))
promise_method transport type bidi_streaming =
    some (of_many (create_bidi_streaming_fn transport type))

-- `makeAnyClient`, on the entries of `service.methods`
unfoldable pub make_any_client {ℓ κ} :
    {M : Type ℓ} {C : Type κ} → List (Text × M) → (M → Option C) → List (Text × C)
make_any_client [] create_method = []
make_any_client ((name, method) ∷ methods) create_method =
    let rest = make_any_client methods create_method in
    elim (create_method method) [ none ↦ rest | some f ↦ (name, f) ∷ rest ]
