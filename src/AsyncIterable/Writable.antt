-- ===== src/AsyncIterable/Writable.antt =====
-- `createWritableIterable` of packages/connect-core/src/async-iterable.ts: a queue between those that
-- write and the one that reads. A call of `write`, `close`, `next` or `throw` runs to its end before
-- another, and returns a promise. Calls are numbered in the order they are made, and the number
-- of a call stands for the functions that settle its promise.
pub mod Invariant
pub mod Order
pub mod Promises
pub mod Drain
use connect_web.Prelude.{
  get_elem?, ℕ, zero, suc, ◌+◌, ◌-◌, ◌*◌, ◌/◌, ◌%◌, ◌^◌, ◌≤◌, ◌<◌, Bool, true, false, not, ◌&&◌,
  ◌||◌, List, [], ◌∷◌, ◌++◌, map, ℤ, pos, negsuc, ◌≡◌, refl, sym, ap, ap₂, ◌∙◌, ◌≢◌, ◌↔◌, ◌⊎◌, inl,
  inr, Option, none, some, String, arith, leb, ltb, ◌==◌, if◌then◌else◌, Bool-cases, Option-cases,
  ==_iff, leb→le, ltb→lt, lt→ltb, tests, length, length-append, take, drop, take-append-drop,
  length-take, length-drop, length-map, fun_ext, replicate, length-replicate, append-nil,
  append_assoc,
}
use connect_web.Code.{unknown}
use connect_web.Text.{Text, codes}
use connect_web.ConnectError.{
  ConnectError, Reason, connect_error, error_object, other_value, simple_error,
}

-- the argument of `throw`, an `Error` by its type: a ConnectError, or one by its name and message
pub data ErrorObject : Type 0 where
  connect : ConnectError → ErrorObject
  plain : Text → Text → ErrorObject

-- it as a value that is thrown
abbrev pub as_reason : ErrorObject → Reason
as_reason (connect e) = connect_error e
as_reason (plain name msg) = error_object name msg

-- `{ value, done: false }` and `{ value: undefined, done: true }`
pub data IteratorResult {ℓ} (A : Type ℓ) : Type ℓ where
  value : A → IteratorResult A
  finished : IteratorResult A

-- what a promise settles with: of `write` and `close`, of `next`, of `throw`, or a rejection
pub data Outcome {ℓ} (A : Type ℓ) : Type ℓ where
  accepted : Outcome A
  received : IteratorResult A → Outcome A
  thrown : IteratorResult A → Outcome A
  rejected : Reason → Outcome A

-- `QueueElement`, with the call whose promise `resolve` and `reject` settle
pub record QueueElement {ℓ} (A : Type ℓ) : Type ℓ where
  pub payload : IteratorResult A
  pub writer : ℕ

-- the promises that a call settles, in order, each with its outcome
abbrev pub Settled {ℓ} : Type ℓ → Type ℓ
Settled A = List (ℕ × Outcome A)

pub data Call {ℓ} (A : Type ℓ) : Type ℓ where
  writes : A → Call A
  closes : Call A
  reads : Call A
  throws : ErrorObject → Call A

-- The variables that the functions share, and the number of the next call. `queue_resolve` is the
-- call of `next` that waits.
pub record Writable {ℓ} (A : Type ℓ) : Type ℓ where
  pub queue : List (QueueElement A)
  pub queue_resolve : Option ℕ
  pub error : Option ErrorObject
  pub closed : Bool
  pub calls : ℕ

-- `String(error)`
unfoldable pub string_of_error : Text → Text → Text
string_of_error [] msg = msg
string_of_error (c ∷ cs) [] = c ∷ cs
string_of_error (c ∷ cs) (m ∷ ms) = (c ∷ cs) ++ (codes ": " ++ (m ∷ ms))

unfoldable pub string_of : ErrorObject → Text
unfolding string_of_error
string_of (connect e) = string_of_error (codes "ConnectError") e.text
string_of (plain name msg) = string_of_error name msg

module _ {ℓ} {A : Type ℓ} where
  unfoldable pub create_writable_iterable : Writable A
  create_writable_iterable = record {
    queue = [];
    queue_resolve = none;
    error = none;
    closed = false;
    calls = 0;
  }

  unfoldable pub is_closed : Writable A → Bool
  is_closed s = s.closed

  hand_over : Writable A → IteratorResult A → Option ℕ → Writable A × Settled A
  hand_over s payload (some reader) = (
    record s { queue_resolve = none; calls = suc s.calls },
    (reader, received payload) ∷ (s.calls, accepted) ∷ [],
  )
  hand_over s payload none = (
    record s {
      queue = s.queue ++ record { payload = payload; writer = s.calls } ∷ [];
      calls = suc s.calls;
    },
    [],
  )

  process_unless : Writable A → IteratorResult A → Option ErrorObject → Writable A × Settled A
  unfolding hand_over
  process_unless s payload (some e) =
      (record s { calls = suc s.calls }, (s.calls, rejected (other_value (string_of e))) ∷ [])
  process_unless s payload none = hand_over s payload s.queue_resolve

  unfoldable pub process : Writable A → IteratorResult A → Writable A × Settled A
  unfolding process_unless
  process s payload = process_unless s payload s.error

  refuse : Writable A → Text → Writable A × Settled A
  refuse s msg = (
    record s { calls = suc s.calls },
    (s.calls, rejected (connect_error (simple_error msg unknown))) ∷ [],
  )

  unfoldable pub write : Writable A → A → Writable A × Settled A
  unfolding process refuse
  write s payload =
      if s.closed
      then refuse s (codes "cannot write, already closed")
      else process s (value payload)

  unfoldable pub close : Writable A → Writable A × Settled A
  unfolding process refuse
  close s =
      if s.closed
      then refuse s (codes "cannot close, already closed")
      else process (record s { closed = true }) finished

  shift : Writable A → List (QueueElement A) → Writable A × Settled A
  shift s [] = (record s { queue_resolve = some s.calls; calls = suc s.calls }, [])
  shift s (elem ∷ rest) = (
    record s { queue = rest; calls = suc s.calls },
    (elem.writer, accepted) ∷ (s.calls, received elem.payload) ∷ [],
  )

  next_unless : Writable A → Option ErrorObject → Writable A × Settled A
  unfolding shift
  next_unless s (some e) =
      (record s { calls = suc s.calls }, (s.calls, rejected (other_value (string_of e))) ∷ [])
  next_unless s none = shift s s.queue

  -- `next()` of the iterator
  unfoldable pub read_next : Writable A → Writable A × Settled A
  unfolding next_unless
  read_next s = next_unless s s.error

  unfoldable pub reject_all : ErrorObject → List (QueueElement A) → Settled A
  reject_all e [] = []
  reject_all e (item ∷ items) = (item.writer, rejected (as_reason e)) ∷ reject_all e items

  -- `throw(e)` of the iterator
  unfoldable pub throw_into : Writable A → ErrorObject → Writable A × Settled A
  unfolding reject_all
  throw_into s e = (
    record s { error = some e; queue = []; calls = suc s.calls },
    reject_all e s.queue ++ (s.calls, thrown finished) ∷ [],
  )

  unfoldable pub step : Writable A → Call A → Writable A × Settled A
  unfolding write close read_next throw_into
  step s (writes x) = write s x
  step s closes = close s
  step s reads = read_next s
  step s (throws e) = throw_into s e

  -- any calls, one after another, and all that they settle
  unfoldable pub run : Writable A → List (Call A) → Writable A × Settled A
  unfolding step
  run s [] = (s, [])
  run s (c ∷ cs) =
      let (now, settled) = step s c in let (last, later) = run now cs in (last, settled ++ later)
