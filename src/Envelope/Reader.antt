-- ===== src/Envelope/Reader.antt =====
-- `createEnvelopeReadableStream` of packages/connect-core/src/envelope.ts: each pull reads from the
-- source until the buffer holds an envelope, and enqueues it. The length is put together with
-- `<<`, which works on signed numbers of 32 bits.
pub mod Pulls
use connect_web.Prelude.{
  ℕ, zero, suc, ◌+◌, ◌-◌, ◌*◌, ◌/◌, ◌%◌, ◌^◌, ◌≤◌, ◌<◌, Bool, true, false, not, ◌&&◌, ◌||◌, List,
  [], ◌∷◌, ◌++◌, map, ℤ, pos, negsuc, ◌≡◌, refl, sym, ap, ap₂, ◌∙◌, ◌≢◌, ◌↔◌, ◌⊎◌, inl, inr, Option,
  none, some, String, arith, leb, ltb, ◌==◌, if◌then◌else◌, Bool-cases, Option-cases, ==_iff,
  leb→le, ltb→lt, lt→ltb, tests, length, length-append, take, drop, take-append-drop, length-take,
  length-drop, length-map, fun_ext, replicate, length-replicate, append-nil, append_assoc,
}
use Prim.Native.Nat.{min}
use connect_web.Text.{codes}
use connect_web.Code.{data_loss}
use connect_web.ConnectError.{Bytes, Reason, connect_error, simple_error}
use connect_web.Envelope.{EnvelopedMessage}
use connect_web.Stream.{Stream, done, raise, next}

-- the signed number of 32 bits with this bit pattern
unfoldable pub int32 : ℕ → ℤ
int32 n = let m = n % 2 ^ 32 in if ltb m (2 ^ 31) then pos m else negsuc (2 ^ 32 - m - 1)

-- `z << 8`
unfoldable pub shift_left : ℤ → ℤ
unfolding int32
shift_left (pos n) = int32 (n * 256)
shift_left (negsuc n) = int32 ((2 ^ 32 - suc n % 2 ^ 32) * 256)

unfoldable pub plus : ℤ → ℕ → ℤ
plus (pos n) k = pos (n + k)
plus (negsuc n) k = if leb (suc n) k then pos (k - suc n) else negsuc (n - k)

-- the loop over the bytes 1 to 4
unfoldable pub read_length : ℤ → Bytes → ℤ
unfolding shift_left plus
read_length length [] = length
read_length length (b ∷ bs) = read_length (plus (shift_left length) b) bs

pub record SignedHeader : Type 0 where
  pub size : ℤ
  pub flags : ℕ

-- a position in a buffer of `len` bytes, counted from the end if it is negative
abbrev pub position : ℕ → ℤ → ℕ
position len (pos n) = min n len
position len (negsuc n) = len - suc n

-- `buffer.subarray(from, to)` and `buffer.subarray(from)`
unfoldable pub subarray : Bytes → ℕ → ℤ → Bytes
subarray buffer from to =
    take (position (length buffer) to - min from (length buffer)) (drop from buffer)

unfoldable pub subarray_from : Bytes → ℤ → Bytes
subarray_from buffer from = drop (position (length buffer) from) buffer

-- the first test of the loop: the header is read once, as soon as it is there
unfoldable pub note_header : Option SignedHeader → Bytes → Option SignedHeader
note_header none (f ∷ a ∷ b ∷ c ∷ d ∷ rest) =
    some (record { size = read_length (pos 0) (a ∷ b ∷ c ∷ d ∷ []); flags = f })
note_header header buffer = header

-- `header !== undefined && buffer.byteLength >= header.length + 5`
unfoldable pub has_envelope : Option SignedHeader → Bytes → Bool
has_envelope none buffer = false
has_envelope (some header) buffer = elim (plus header.size 5) [
  | pos n ↦ leb n (length buffer)
  | negsuc n ↦ true
]

-- why the loop stopped: with what it knows of the header, or by an error of the source
pub data Loop : Type 0 where
  stopped : Option SignedHeader → Bytes → Stream Bytes → Loop
  failed : Reason → Loop

unfoldable pub read_loop : Option SignedHeader → Bytes → Stream Bytes → Loop
read_loop header buffer done = stopped (note_header header buffer) buffer done
read_loop header buffer (raise e) =
    let header = note_header header buffer in
    if has_envelope header buffer then stopped header buffer (raise e) else failed e
read_loop header buffer (next chunk source) =
    let header = note_header header buffer in
    elim (has_envelope header buffer) [
      | true ↦ stopped header buffer (next chunk source)
      | false ↦ read_loop header (buffer ++ chunk) source
    ]

-- what a pull does to the controller, and the buffer and source that it leaves
pub data Pulled : Type 0 where
  close : Pulled
  error : Reason → Pulled
  enqueue : EnvelopedMessage → Bytes → Stream Bytes → Pulled

unfoldable pub after_loop : Loop → Pulled
after_loop (failed e) = error e
after_loop (stopped none [] source) = close
after_loop (stopped none (b ∷ bs) source) =
    error (connect_error (simple_error (codes "premature end of stream") data_loss))
after_loop (stopped (some header) buffer source) =
    enqueue (record { flags = header.flags; payload = subarray buffer 5 (plus header.size 5) })
      (subarray_from buffer (plus header.size 5)) source

unfoldable pub pull : Bytes → Stream Bytes → Pulled
pull buffer source = after_loop (read_loop none buffer source)
