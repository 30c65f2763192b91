-- ===== src/AsyncIterable/ReadAllBytes.antt =====
-- `readAllBytes` and `parseLengthHint` of packages/connect-core/src/async-iterable.ts.
pub mod Reading
use connect_web.Code.{invalid_argument}
use connect_web.Stream.{done, next, raise, Stream}
use connect_web.ConnectError.{err, ◌>>=◌, throw_error, ok, ◌>>◌, Result, Bytes}
use connect_web.Compression.{assert_read_max_bytes}
use connect_web.Envelope.{zeros, write}
use connect_web.Prelude.{
  ℕ, zero, suc, ◌+◌, ◌-◌, ◌*◌, ◌/◌, ◌%◌, ◌^◌, ◌≤◌, ◌<◌, Bool, true, false, not, ◌&&◌, ◌||◌, List,
  [], ◌∷◌, ◌++◌, map, ℤ, pos, negsuc, ◌≡◌, refl, sym, ap, ap₂, ◌∙◌, ◌≢◌, ◌↔◌, ◌⊎◌, inl, inr, Option,
  none, some, String, arith, leb, ltb, ◌==◌, if◌then◌else◌, Bool-cases, Option-cases, ==_iff,
  leb→le, ltb→lt, lt→ltb, tests, length, length-append, take, drop, take-append-drop, length-take,
  length-drop, length-map, fun_ext, replicate, length-replicate, append-nil, append_assoc,
}
use connect_web.Text.{Text, codes}
use connect_web.Text.Decimal.{parse_int, print}

-- the length hint: null or undefined, a number without a fraction, or the text of a header
pub data LengthHint : Type 0 where
  no_hint : LengthHint
  number_hint : ℤ → LengthHint
  text_hint : Text → LengthHint

-- `Number.isSafeInteger(n) && n >= 0`
safe : ℤ → Option ℕ
safe (pos n) = if ltb n (2 ^ 53) then some n else none
safe (negsuc n) = none

-- the promised length, if the hint is one
unfoldable pub parse_length_hint : LengthHint → Option ℕ
unfolding safe
parse_length_hint no_hint = none
parse_length_hint (number_hint z) = safe z
parse_length_hint (text_hint s) = elim (parse_int s) [ none ↦ none | some z ↦ safe z ]

pub promised : ℕ → ℕ → Text
promised hint received =
    codes "protocol error: promised "
    ++ (print hint ++ (codes " bytes, received " ++ print received))

-- the loop with a promised length: `buffer.set(chunk, offset)`
read_promised : ℕ → Bytes → ℕ → Stream Bytes → Result Bytes
unfolding promised write
read_promised hint buffer offset done =
    if ltb offset hint then throw_error (promised hint offset) invalid_argument else ok buffer
read_promised hint buffer offset (raise e) = err e
read_promised hint buffer offset (next chunk source) =
    let rest = read_promised hint (write buffer offset chunk) (offset + length chunk) source in
    if ltb hint (offset + length chunk)
    then throw_error (promised hint (offset + length chunk)) invalid_argument
    else rest

-- the loop without one: the chunks, and their number of bytes
read_chunks : ℕ → ℕ → Stream Bytes → Result (List Bytes × ℕ)
unfolding assert_read_max_bytes
read_chunks read_max_bytes count done = ok ([], count)
read_chunks read_max_bytes count (raise e) = err e
read_chunks read_max_bytes count (next chunk source) =
    assert_read_max_bytes read_max_bytes (count + length chunk) false
    >> (read_chunks read_max_bytes (count + length chunk) source >>= λ r. ok (chunk ∷ r.0, r.1))

set_all : Bytes → ℕ → List Bytes → Bytes
unfolding write
set_all buf offset [] = buf
set_all buf offset (c ∷ cs) = set_all (write buf offset c) (offset + length c) cs

unfoldable pub read_all_bytes : Stream Bytes → ℕ → LengthHint → Result Bytes
unfolding parse_length_hint read_promised read_chunks set_all assert_read_max_bytes
read_all_bytes source read_max_bytes hint = elim (parse_length_hint hint) [
  | some n ↦ assert_read_max_bytes read_max_bytes n true >> read_promised n (zeros n) 0 source
  | none ↦ read_chunks read_max_bytes 0 source >>= λ r. ok (set_all (zeros r.1) 0 r.0)
]

-- `transformReadAllBytes`: one element
unfoldable pub transform_read_all_bytes : ℕ → LengthHint → Stream Bytes → Stream Bytes
unfolding read_all_bytes
transform_read_all_bytes read_max_bytes hint source =
    elim (read_all_bytes source read_max_bytes hint) [
      | ok bytes ↦ next bytes done
      | err e ↦ raise e
    ]

-- `sinkAllBytes`
unfoldable pub sink_all_bytes : ℕ → LengthHint → Stream Bytes → Result Bytes
unfolding read_all_bytes
sink_all_bytes read_max_bytes hint source = read_all_bytes source read_max_bytes hint
