-- ===== src/Client/Callbacks.antt =====
-- callback-client.ts of packages/connect-core/src: the calls of the callbacks that a user gave, which
-- return. That the signal of a call is aborted means that it is when the call ends.
use connect_web.Prelude.{
  Bool, true, false, ◌&&◌, List, [], ◌∷◌, ◌++◌, map, ◌≡◌, refl, ap, ◌∙◌, inl, inr, Option, none,
  some, arith, if◌then◌else◌, Bool-cases,
}
use connect_web.Code.{Code, internal, canceled}
use connect_web.Headers.{Headers}
use connect_web.ConnectError.{
  ◌>>=◌, ConnectError, Reason, Result, ok, err, connect_error_from_reason,
}
use connect_web.Stream.{Stream, done, raise, next, of_list}
use connect_web.Serialization.{Input, MessageType}
use connect_web.Connect.RequestHeader.{
  MethodKind, unary, server_streaming, client_streaming, bidi_streaming,
}
use connect_web.Node.Transport.{Response, normalize_message}
use connect_web.Transport.{Transport}
use connect_web.Client.{
  Event, header_event, trailer_event, message_event, CallOptions, messages_then_trailer, streamed,
  create_server_streaming_fn,
}

-- a call of `onHeader`, `onTrailer` or `onResponse`, of `callback`, or of `onClose`
pub data Call (A : Type 0) : Type 0 where
  told : Event A → Call A
  called : Option ConnectError → A → Call A
  closed : Option ConnectError → Call A

is_canceled : Code → Bool
is_canceled canceled = true
is_canceled _ = false

-- `err.code === Code.Canceled && abort.signal.aborted`
unfoldable pub is_discarded : Bool → ConnectError → Bool
unfolding is_canceled
is_discarded aborted e = is_canceled e.code && aborted

module _ {O : Type 0} (aborted : Bool) where
  -- the callback for a reason, with a new message
  unfoldable pub failed : O → Reason → List (Call O)
  unfolding connect_error_from_reason is_discarded
  failed empty reason =
      let e = connect_error_from_reason reason internal in
      if is_discarded aborted e then [] else called (some e) empty ∷ []

  unfoldable pub closed_by : Reason → Call O
  unfolding connect_error_from_reason is_discarded
  closed_by reason =
      let e = connect_error_from_reason reason internal in
      if is_discarded aborted e then closed none else closed (some e)

  -- the calls for the messages, and for the end
  unfoldable pub read_all : Headers → Stream O → List (Call O)
  unfolding closed_by
  read_all trailer done = told (trailer_event trailer) ∷ closed none ∷ []
  read_all trailer (raise e) = closed_by e ∷ []
  read_all trailer (next m s) = told (message_event m) ∷ read_all trailer s

module _ {I PI O : Type 0} (transport : Transport I PI O) (aborted : Bool) where
  unfoldable pub unary_calls : O → CallOptions → Input I PI → List (Call O)
  unfolding failed
  unary_calls empty options input =
      elim (transport.unary options.timeout_ms options.headers input) [
        | err e ↦ failed aborted empty e
        | ok response ↦
            told (header_event response.header)
            ∷ told (trailer_event response.trailer)
            ∷ called none response.message
            ∷ []
      ]

module _ {I PI O : Type 0} (transport : Transport I PI O) (type : MessageType I PI)
    (aborted : Bool) where
  -- the calls for a normalized message
  stream_calls : CallOptions → I → List (Call O)
  unfolding read_all closed_by of_list
  stream_calls options m =
      elim (transport.stream options.timeout_ms options.headers (of_list (m ∷ []))) [
        | err e ↦ closed_by aborted e ∷ []
        | ok response ↦
            told (header_event response.header) ∷ read_all aborted response.trailer response.message
      ]

  -- the message is normalized before `run`, so that what its constructor throws reaches the caller
  unfoldable pub server_streaming_calls : CallOptions → Input I PI → Result (List (Call O))
  unfolding stream_calls normalize_message
  server_streaming_calls options input =
      normalize_message type input >>= λ m. ok (stream_calls options m)

-- the function that `createCallbackClient` gives to `makeAnyClient`
unfoldable pub callback_method :
    {I PI O : Type 0}
    → Transport I PI O
    → MessageType I PI
    → O
    → MethodKind
    → Option (Bool → CallOptions → Input I PI → Result (List (Call O)))
unfolding unary_calls server_streaming_calls
callback_method transport type empty unary =
    some (λ aborted options input. ok (unary_calls transport aborted empty options input))
callback_method transport type empty server_streaming =
    some (λ aborted. server_streaming_calls transport type aborted)
callback_method transport type empty client_streaming = none
callback_method transport type empty bidi_streaming = none

-- the calls for what a promise client hands out, and how it ends
unfoldable pub calls_for : {O : Type 0} → Bool → Stream (Event O) → List (Call O)
unfolding closed_by
calls_for aborted done = closed none ∷ []
calls_for aborted (raise e) = closed_by aborted e ∷ []
calls_for aborted (next e s) = told e ∷ calls_for aborted s

read_all-calls_for :
    {O : Type 0} (aborted : Bool) (trailer : Headers) (s : Stream O)
    → read_all aborted trailer s ≡ calls_for aborted (messages_then_trailer trailer s)
unfolding read_all calls_for messages_then_trailer
read_all-calls_for aborted trailer done = refl
read_all-calls_for aborted trailer (raise e) = refl
read_all-calls_for aborted trailer (next m s) =
    ap (λ cs. told (message_event m) ∷ cs) (read_all-calls_for aborted trailer s)

closed_by-closed :
    {O : Type 0} (aborted : Bool) (e : Reason)
    → (x : Option ConnectError) × (closed_by {O = O} aborted e ≡ closed x)
unfolding closed_by
closed_by-closed aborted e =
    elim (Bool-cases (is_discarded aborted (connect_error_from_reason e internal))) [
      | inl y ↦ (none, ground arith)
      | inr n ↦ (some (connect_error_from_reason e internal), ground arith)
    ]

-- one call of the close callback, behind all others
closed_once :
    {O : Type 0} (aborted : Bool) (s : Stream (Event O))
    → (es : List (Event O)) × (x : Option ConnectError) × (calls_for aborted s
        ≡ map told es ++ (closed x ∷ []))
unfolding calls_for
closed_once aborted done = ([], none, refl)
closed_once {O = O} aborted (raise e) =
    let (x, same) = closed_by-closed {O = O} aborted e in ([], x, ap (λ c. c ∷ []) same)
closed_once aborted (next e s) =
    let (es, x, same) = closed_once aborted s in (e ∷ es, x, ap (λ cs. told e ∷ cs) same)

-- What a call with callbacks is to do, by the message that its input is normalized to, against what the
-- promise client hands out: if that throws, both throw at once; otherwise the calls are those for what the
-- promise client hands out, with one call of the close callback behind all others.
abbrev pub Agrees :
    {I O : Type 0} → Bool → Result I → Result (List (Call O)) → Stream (Event O) → Type 0
Agrees {O = O} aborted (err e) calls events = (calls ≡ err e) × (events ≡ raise e)
Agrees {O = O} aborted (ok m) calls events =
    (cs : List (Call O)) × (calls ≡ ok cs)
    × (cs ≡ calls_for aborted events)
    × ((es : List (Event O)) × (x : Option ConnectError) × (cs ≡ map told es ++ (closed x ∷ [])))

-- A call of a server-streaming method with callbacks makes the calls for what the promise client hands out
-- for the same arguments, in the same order, and one call of the close callback behind them; if the
-- constructor of the message throws, it throws the same, and so does the promise client.
pub server_streaming_calls-create_server_streaming_fn :
    {I PI O : Type 0} (transport : Transport I PI O) (type : MessageType I PI) (aborted : Bool)
    (options : CallOptions) (input : Input I PI)
    → Agrees aborted
        (normalize_message type input)
        (server_streaming_calls transport type aborted options input)
        (create_server_streaming_fn transport type options input)
unfolding server_streaming_calls create_server_streaming_fn
server_streaming_calls-create_server_streaming_fn {I = I} {O = O} transport type aborted options
      input =
    by_message (normalize_message type input)
  where
    by_response :
        (r : Result (Response (Stream O)))
        → elim r [
          | err e ↦ closed_by aborted e ∷ []
          | ok response ↦
              told (header_event response.header)
              ∷ read_all aborted response.trailer response.message
        ]
          ≡ calls_for aborted (streamed r)
    by_response (err e) = unfold streamed calls_for in refl
    by_response (ok response) =
        unfold streamed calls_for in
        ap (λ cs. told (header_event response.header) ∷ cs)
          (read_all-calls_for aborted response.trailer response.message)

    sends : I → Result (Response (Stream O))
    sends m = transport.stream options.timeout_ms options.headers (of_list (m ∷ []))

    by_message :
        (r : Result I)
        → Agrees aborted r
            (r >>= λ m. ok (stream_calls transport type aborted options m))
            (elim r [ err e ↦ raise e | ok m ↦ streamed (sends m) ])
    by_message (err e) = (refl, refl)
    by_message (ok m) =
        let same = by_response (sends m) in
        let (es, x, once) = closed_once aborted (streamed (sends m)) in
        (stream_calls transport type aborted options m, refl, same, (es, x, same ∙ once))
