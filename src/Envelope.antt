-- ===== src/Envelope.antt =====
-- packages/connect-core/src/envelope.ts: one byte of flags, four bytes of length, and the payload.
-- A `Uint8Array` is a list of bytes, and writing into one is `write`.
pub mod Encoding
pub mod Flags
pub mod Reader
use connect_web.Prelude.{
  ℕ, zero, suc, ◌+◌, ◌-◌, ◌*◌, ◌/◌, ◌%◌, ◌^◌, ◌≤◌, ◌<◌, Bool, true, false, not, ◌&&◌, ◌||◌, List,
  [], ◌∷◌, ◌++◌, map, ℤ, pos, negsuc, ◌≡◌, refl, sym, ap, ap₂, ◌∙◌, ◌≢◌, ◌↔◌, ◌⊎◌, inl, inr, Option,
  none, some, String, arith, leb, ltb, ◌==◌, if◌then◌else◌, Bool-cases, Option-cases, ==_iff,
  leb→le, ltb→lt, lt→ltb, tests, length, length-append, take, drop, take-append-drop, length-take,
  length-drop, length-map, fun_ext, replicate, length-replicate, append-nil, append_assoc,
}
use Prim.Native.Nat.{bit_and, bit_or, bit_xor}
use connect_web.Text.{codes}
use connect_web.Code.{internal, invalid_argument}
use connect_web.ConnectError.{Bytes, Result, ok, err, ◌>>=◌, throw_error}

pub record EnvelopedMessage : Type 0 where
  pub flags : ℕ
  pub payload : Bytes

-- `new Uint8Array(n)`
abbrev pub zeros : ℕ → Bytes
zeros n = replicate n 0

pub overwrite : Bytes → Bytes → Bytes
overwrite buf [] = buf
overwrite [] (b ∷ bs) = []
overwrite (x ∷ buf) (b ∷ bs) = b ∷ overwrite buf bs

-- `buf.set(bs, offset)` where it fits
unfoldable pub write : Bytes → ℕ → Bytes → Bytes
unfolding overwrite
write buf zero bs = overwrite buf bs
write [] (suc o) bs = []
write (x ∷ buf) (suc o) bs = x ∷ write buf o bs

-- `v.setUint8(_, n)` and `v.setUint32(_, n)`: big endian, and modulo the width
abbrev pub uint8 : ℕ → Bytes
uint8 n = n % 256 ∷ []

abbrev pub uint32 : ℕ → Bytes
uint32 n = n / 2 ^ 24 % 256 ∷ n / 2 ^ 16 % 256 ∷ n / 2 ^ 8 % 256 ∷ n % 256 ∷ []

-- `encodeEnvelope`
unfoldable pub encode_envelope : ℕ → Bytes → Bytes
unfolding write
encode_envelope flags payload =
    let bytes = write (zeros (length payload + 5)) 5 payload in
    write (write bytes 0 (uint8 flags)) 1 (uint32 (length payload))

-- the sum of `envelopes.reduce`
pub total_length : ℕ → List EnvelopedMessage → ℕ
total_length acc [] = acc
total_length acc (e ∷ es) = total_length (acc + length e.payload + 5) es

pub write_envelopes : Bytes → ℕ → List EnvelopedMessage → Bytes
unfolding write
write_envelopes bytes offset [] = bytes
write_envelopes bytes offset (e ∷ es) =
    let header =
      write (write bytes offset (uint8 e.flags)) (offset + 1) (uint32 (length e.payload)) in
    write_envelopes (write header (offset + 5) e.payload) (offset + (length e.payload + 5)) es

-- `encodeEnvelopes`: one buffer for all of them
unfoldable pub encode_envelopes : List EnvelopedMessage → Bytes
unfolding total_length write_envelopes
encode_envelopes es = write_envelopes (zeros (total_length 0 es)) 0 es

-- packages/connect-core/src/compression.ts: a named algorithm; its two functions come from
-- outside, and may throw.
pub record Compression : Type 0 where
  pub name : List ℕ
  pub compress : Bytes → Result Bytes
  pub decompress : Bytes → ℕ → Result Bytes

abbrev pub compressed_flag : ℕ
compressed_flag = 0b00000001

-- `(flags & flag) === flag`
unfoldable pub has_flag : ℕ → ℕ → Bool
has_flag flags flag = bit_and flags flag == flag

unfoldable pub envelope_compress :
    EnvelopedMessage → Option Compression → ℕ → Result EnvelopedMessage
envelope_compress e compression min_bytes =
    if has_flag e.flags compressed_flag
    then throw_error (codes "invalid envelope, already compressed") internal
    else elim compression [
      | none ↦ ok e
      | some c ↦
          if leb min_bytes (length e.payload)
          then (do
            small ← c.compress e.payload
            ok (record { flags = bit_or e.flags compressed_flag; payload = small }))
          else ok e
    ]

unfoldable pub envelope_decompress :
    EnvelopedMessage → Option Compression → ℕ → Result EnvelopedMessage
envelope_decompress e compression read_max_bytes =
    if has_flag e.flags compressed_flag
    then elim compression [
      | none ↦
          throw_error (codes "received compressed envelope, but do not know how to decompress")
            invalid_argument
      | some c ↦ do
        large ← c.decompress e.payload read_max_bytes
        ok (record { flags = bit_xor e.flags compressed_flag; payload = large })
    ]
    else ok e
