-- ===== src/Envelope/Flags.antt =====
-- The flags of an envelope under compression: what `envelopeCompress` sets `envelopeDecompress` takes
-- away again.
use connect_web.Prelude.{
  ℕ, zero, suc, ◌<◌, Bool, true, false, ◌&&◌, ◌||◌, ◌≡◌, refl, inl, inr, some, arith, leb, ltb,
  ◌==◌, ==_iff, ltb→lt, length,
}
use Prim.Native.Nat.{bit_or, bit_xor}
use connect_web.ConnectError.{Result-cases, Bytes, ok}
use connect_web.Envelope.{
  EnvelopedMessage, Compression, compressed_flag, has_flag, envelope_compress, envelope_decompress,
}

-- whether a test holds of every number under a bound
holds_under : (ℕ → Bool) → ℕ → Bool
holds_under test (suc bound) = holds_under test bound && test bound
holds_under test zero = true

holds_under-at :
    (test : ℕ → Bool) (c bound : ℕ) → c < bound → holds_under test bound ≡ true → test c ≡ true
unfolding holds_under
holds_under-at test c (suc bound) low every = ground (arith, holds_under-at test c bound)
holds_under-at test c zero low every = absurd (omega arith)

abbrev marked : ℕ → ℕ
marked flags = bit_or flags compressed_flag

-- Over a byte: the flag is there once it is set, and toggling it gives a byte without it back.
set_flag_table : holds_under (λ x. has_flag (marked x) compressed_flag) 256 ≡ true
unfolding holds_under has_flag
set_flag_table = refl

abbrev toggles_back : ℕ → Bool
toggles_back x = has_flag x compressed_flag || bit_xor (marked x) compressed_flag == x

toggle_flag_table : holds_under toggles_back 256 ≡ true
unfolding holds_under has_flag
toggle_flag_table = refl

set_flag_byte : holds_under (λ x. ltb (marked x) 256) 256 ≡ true
unfolding holds_under
set_flag_byte = refl

module _ (flags : ℕ) (byte : flags < 256) where
  pub bit_or-byte : bit_or flags compressed_flag < 256
  bit_or-byte =
      ltb→lt (marked flags) 256
        (holds_under-at (λ x. ltb (marked x) 256) flags 256 byte set_flag_byte)

  pub has_flag-set : has_flag (bit_or flags compressed_flag) compressed_flag ≡ true
  has_flag-set =
      holds_under-at (λ x. has_flag (marked x) compressed_flag) flags 256 byte set_flag_table

  pub toggle-set :
      has_flag flags compressed_flag ≡ false
      → bit_xor (bit_or flags compressed_flag) compressed_flag ≡ flags
  toggle-set h =
      (==_iff _ flags).0 (rw h at (holds_under-at toggles_back flags 256 byte toggle_flag_table))

-- the payload is compressed only from the configured size on
module _ (e : EnvelopedMessage) (c : Compression) (min max : ℕ) where
  -- For eight flags, and a compression that restores this payload within the limit: whatever
  -- `envelopeCompress` returns, `envelopeDecompress` takes back to the same envelope.
  pub decompress-compress :
      {e' : EnvelopedMessage}
      → e.flags < 256
      → ((small : Bytes) → c.compress e.payload ≡ ok small → c.decompress small max ≡ ok e.payload)
      → envelope_compress e (some c) min ≡ ok e'
      → envelope_decompress e' (some c) max ≡ ok e
  unfolding envelope_compress envelope_decompress
  decompress-compress byte inverse h = elim (Result-cases (c.compress e.payload)) [
    | inl (small, done) ↦
        ground (arith, inverse small done, has_flag-set e.flags byte, toggle-set e.flags byte)
    | inr (reason, failed) ↦ ground arith
  ]

  -- `envelopeCompress` sets the flag exactly when it compresses: without a failure of the
  -- compression, the flag of the result says whether the payload has the configured size.
  pub compress-has_flag :
      {e' : EnvelopedMessage}
      → e.flags < 256
      → envelope_compress e (some c) min ≡ ok e'
      → has_flag e'.flags compressed_flag ≡ leb min (length e.payload)
  unfolding envelope_compress
  compress-has_flag byte h = elim (Result-cases (c.compress e.payload)) [
    | inl (small, done) ↦ ground (arith, has_flag-set e.flags byte)
    | inr (reason, failed) ↦ ground arith
  ]
