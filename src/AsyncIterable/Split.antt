-- ===== src/AsyncIterable/Split.antt =====
-- `transformSplitEnvelope` of packages/connect-core/src/async-iterable.ts: chunks of bytes, however
-- they were cut, are put together and taken apart into enveloped messages.
pub mod Drain
pub mod Chunks
pub mod Frames
use connect_web.Prelude.{
  ℕ, zero, suc, ◌+◌, ◌-◌, ◌*◌, ◌/◌, ◌%◌, ◌^◌, ◌≤◌, ◌<◌, Bool, true, false, not, ◌&&◌, ◌||◌, List,
  [], ◌∷◌, ◌++◌, map, ℤ, pos, negsuc, ◌≡◌, refl, sym, ap, ap₂, ◌∙◌, ◌≢◌, ◌↔◌, ◌⊎◌, inl, inr, Option,
  none, some, String, arith, leb, ltb, ◌==◌, if◌then◌else◌, Bool-cases, Option-cases, ==_iff,
  leb→le, ltb→lt, lt→ltb, tests, length, length-append, take, drop, take-append-drop, length-take,
  length-drop, length-map, fun_ext, replicate, length-replicate, append-nil, append_assoc,
}
use connect_web.Text.{codes, Text}
use connect_web.Text.Decimal.{print}
use connect_web.Code.{invalid_argument}
use connect_web.ConnectError.{Bytes, Reason, connect_error, simple_error, Result, ok, err}
use connect_web.Compression.{assert_read_max_bytes}
use connect_web.Envelope.{EnvelopedMessage}
use connect_web.Stream.{Stream, done, raise, next, prepend}

-- what the first five bytes of a buffer say
pub record Header : Type 0 where
  pub size : ℕ
  pub flags : ℕ

-- `view.getUint32(1)`
abbrev pub get_uint32 : ℕ → ℕ → ℕ → ℕ → ℕ
get_uint32 a b c d = a * 2 ^ 24 + b * 2 ^ 16 + c * 2 ^ 8 + d

-- `peekHeader`, with `none` while the header is incomplete
unfoldable pub peek_header : Bytes → Option Header
peek_header (f ∷ a ∷ b ∷ c ∷ d ∷ rest) = some (record { size = get_uint32 a b c d; flags = f })
peek_header _ = none

-- `shiftEnvelope`: the envelope, or none if it is incomplete, and the remainder of the buffer
unfoldable pub shift_envelope : Bytes → Header → Option EnvelopedMessage × Bytes
shift_envelope buffer header = if ltb (length buffer) (5 + header.size) then (none, buffer) else (
  some (record { flags = header.flags; payload = take header.size (drop 5 buffer) }),
  drop (5 + header.size) buffer,
)

-- the envelopes that the inner loop yields, and the buffer or the error that it leaves
abbrev pub Drained : Type 0
Drained = List EnvelopedMessage × Result Bytes

-- The inner loop. Each round but the last takes five bytes or more, so that a fuel above the length
-- of the buffer is enough.
pub drain : ℕ → ℕ → Bytes → Drained
unfolding peek_header shift_envelope
drain zero read_max_bytes buffer = ([], ok buffer)
drain (suc fuel) read_max_bytes buffer = elim (peek_header buffer) [
  | none ↦ ([], ok buffer)
  | some header ↦ elim (assert_read_max_bytes read_max_bytes header.size true) [
    | err e ↦ ([], err e)
    | ok _ ↦
        let (shifted, rest) = shift_envelope buffer header in
        elim shifted [
          | none ↦ ([], ok rest)
          | some env ↦ let (envs, end) = drain fuel read_max_bytes rest in (env ∷ envs, end)
        ]
  ]
]

abbrev pub drain_all : ℕ → Bytes → Drained
drain_all read_max_bytes buffer = drain (suc (length buffer)) read_max_bytes buffer

unfoldable pub incomplete_message : Bytes → Text
unfolding peek_header
incomplete_message buffer = elim (peek_header buffer) [
  | none ↦ codes "protocol error: incomplete envelope"
  | some header ↦
      codes "protocol error: promised "
      ++ (print header.size
          ++ (codes " bytes in enveloped message, got "
              ++ (print (length buffer - 5) ++ codes " bytes")))
]

-- the check behind the loop over the source
pub finish : Bytes → Stream EnvelopedMessage
unfolding incomplete_message
finish buffer =
    if ltb 0 (length buffer)
    then raise (connect_error (simple_error (incomplete_message buffer) invalid_argument))
    else done

-- the loop over the source, with what is left in the buffer
pub split_from : ℕ → Bytes → Stream Bytes → Stream EnvelopedMessage
split_from read_max_bytes buffer done = finish buffer
split_from read_max_bytes buffer (raise e) = raise e
split_from read_max_bytes buffer (next chunk source) =
    let (envs, end) = drain_all read_max_bytes (buffer ++ chunk) in
    prepend envs (elim end [ err e ↦ raise e | ok rest ↦ split_from read_max_bytes rest source ])

unfoldable pub transform_split_envelope : ℕ → Stream Bytes → Stream EnvelopedMessage
unfolding split_from
transform_split_envelope read_max_bytes = split_from read_max_bytes []
