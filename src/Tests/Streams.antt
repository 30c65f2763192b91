-- ===== src/Tests/Streams.antt =====
-- Runs of the envelopes and of the streams of bytes.
use connect_web.Serialization.{Serialization}
use connect_web.Code.{invalid_argument, resource_exhausted}
use connect_web.Compression.{read_max_message}
use connect_web.Envelope.Reader.Pulls.{pull_truncated, read_length-negative}
use connect_web.Envelope.Flags.{decompress-compress}
use connect_web.Envelope.{total_length}
use connect_web.Envelope.Encoding.{
  each_encoded, encode_envelopes-encode_envelope, encode_envelopes-frames,
}
use connect_web.AsyncIterable.Split.Chunks.{split_chunks_irrelevant}
use connect_web.Text.{codes}
use connect_web.AsyncIterable.Transforms.{end_value, message_value, Parsed}
use connect_web.AsyncIterable.Split.{incomplete_message, get_uint32, transform_split_envelope}
use connect_web.ConnectError.{◌>>=◌, simple_error, ok, connect_error, Bytes}
use connect_web.Envelope.Reader.{enqueue, pull, read_length}
use connect_web.Envelope.{
  EnvelopedMessage, envelope_compress, Compression, has_flag, encode_envelopes, envelope_decompress,
}
use connect_web.AsyncIterable.Split.Frames.{
  split_truncated, split_too_large, split-encode_envelopes, Fits, IsCutFrame,
}
use connect_web.AsyncIterable.Pipeline.{Reads, receive, receive-send, send, IsEndFlag, AllTransmit}
use connect_web.Prelude.{
  ◌-◌, ◌^◌, ◌<◌, true, List, [], ◌∷◌, ◌++◌, pos, negsuc, ◌≡◌, refl, sym, ap, some, arith, length,
  drop, append-nil,
}
use connect_web.Stream.{prepend, done, raise, next, of_list}
use mathlib.Core.List.{flatten}

abbrev first : EnvelopedMessage
first = record { flags = 0; payload = 10 ∷ 20 ∷ 30 ∷ [] }

abbrev last : EnvelopedMessage
last = record { flags = 2; payload = b'{' ∷ b'}' ∷ [] }

abbrev both : List EnvelopedMessage
both = first ∷ last ∷ []

first-Fits : Fits 8 first
first-Fits = record { flags_fit = omega arith; length_fits = omega arith; within = omega arith }

last-Fits : Fits 8 last
last-Fits = record { flags_fit = omega arith; length_fits = omega arith; within = omega arith }

-- the bytes of both, cut within a header and within a payload
abbrev pieces : List Bytes
pieces =
    (0 ∷ 0 ∷ 0 ∷ [])
    ∷ (0 ∷ 3 ∷ 10 ∷ 20 ∷ [])
    ∷ []
    ∷ (30 ∷ 2 ∷ 0 ∷ 0 ∷ 0 ∷ 2 ∷ b'{' ∷ b'}' ∷ [])
    ∷ []

pieces-encode : flatten pieces ≡ encode_envelopes both
unfolding flatten
pieces-encode = sym (encode_envelopes-frames both)

split-encode_envelopes_example : transform_split_envelope 8 (of_list pieces) ≡ of_list both
split-encode_envelopes_example =
    split-encode_envelopes 8 both pieces (first-Fits, (last-Fits, tt)) pieces-encode

split_chunks_irrelevant_example :
    transform_split_envelope 8 (of_list pieces)
    ≡ transform_split_envelope 8 (of_list (flatten pieces ∷ []))
split_chunks_irrelevant_example =
    split_chunks_irrelevant 8 pieces (flatten pieces ∷ []) (unfold flatten in refl)

abbrev cut_tail : Bytes
cut_tail = 2 ∷ 0 ∷ 0 ∷ 0 ∷ 2 ∷ b'{' ∷ []

cut_tail-IsCutFrame : IsCutFrame 8 cut_tail
cut_tail-IsCutFrame = record {
  env = last;
  missing = b'}' ∷ [];
  splits = refl;
  some_missing = omega arith;
  some_there = omega arith;
  fits = last-Fits;
}

abbrev cut_pieces : List Bytes
cut_pieces = (0 ∷ 0 ∷ 0 ∷ 0 ∷ 3 ∷ 10 ∷ 20 ∷ 30 ∷ []) ∷ cut_tail ∷ []

one_and_tail :
    (tail : Bytes)
    → flatten ((0 ∷ 0 ∷ 0 ∷ 0 ∷ 3 ∷ 10 ∷ 20 ∷ 30 ∷ []) ∷ tail ∷ [])
      ≡ encode_envelopes (first ∷ []) ++ tail
unfolding flatten
one_and_tail tail = rw (encode_envelopes-frames (first ∷ []), append-nil tail) refl

split_truncated_example :
    transform_split_envelope 8 (of_list cut_pieces)
    ≡ next first
        (raise (connect_error (simple_error (incomplete_message cut_tail) invalid_argument)))
unfolding prepend
split_truncated_example =
    split_truncated 8 (first ∷ []) cut_pieces cut_tail (first-Fits, tt) (one_and_tail cut_tail)
      cut_tail-IsCutFrame

abbrev large_tail : Bytes
large_tail = 0 ∷ 0 ∷ 0 ∷ 0 ∷ 9 ∷ 1 ∷ []

split_too_large_example :
    transform_split_envelope 8 (of_list ((0 ∷ 0 ∷ 0 ∷ 0 ∷ 3 ∷ 10 ∷ 20 ∷ 30 ∷ []) ∷ large_tail ∷ []))
    ≡ next first
        (raise (connect_error (simple_error (read_max_message 8 9 true) resource_exhausted)))
unfolding prepend
split_too_large_example =
    split_too_large 8 (first ∷ []) ((0 ∷ 0 ∷ 0 ∷ 0 ∷ 3 ∷ 10 ∷ 20 ∷ 30 ∷ []) ∷ large_tail ∷ []) 0 9
      (1 ∷ []) (first-Fits, tt) (omega arith) (omega arith) (one_and_tail large_tail)

encode_envelopes-encode_envelope_example :
    (encode_envelopes both ≡ each_encoded both) × (total_length 0 both ≡ length (each_encoded both))
encode_envelopes-encode_envelope_example = encode_envelopes-encode_envelope both

-- an algorithm that writes a mark in front
abbrev marking : Compression
marking = record {
  name = codes "mark";
  compress = λ b. ok (99 ∷ b);
  decompress = λ b max. ok (drop 1 b);
}

abbrev packed : EnvelopedMessage
packed = record { flags = 1; payload = 99 ∷ 10 ∷ 20 ∷ 30 ∷ [] }

first-packed : envelope_compress first (some marking) 2 ≡ ok packed
unfolding envelope_compress has_flag
first-packed = refl

decompress-compress_example : envelope_decompress packed (some marking) 8 ≡ ok first
decompress-compress_example =
    decompress-compress first marking 2 8 (omega arith)
      (λ small e. sym (ap (λ r. r >>= λ b. ok (drop 1 b)) e)) first-packed

pull_truncated_example :
    pull (2 ∷ 0 ∷ 0 ∷ 0 ∷ 2 ∷ b'{' ∷ []) done
    ≡ enqueue (record { flags = 2; payload = b'{' ∷ [] }) [] done
pull_truncated_example =
    pull_truncated last (b'{' ∷ []) (b'}' ∷ []) (omega arith) (omega arith) refl (omega arith)

read_length-negative_example :
    read_length (pos 0) (128 ∷ 0 ∷ 0 ∷ 1 ∷ []) ≡ negsuc (2 ^ 32 - get_uint32 128 0 0 1 - 1)
read_length-negative_example =
    read_length-negative 128 0 0 1 (omega arith) (omega arith) (omega arith) (omega arith)
      (omega arith)

abbrev two_chunks : List Bytes
two_chunks = (1 ∷ 2 ∷ []) ∷ (3 ∷ []) ∷ []

-- messages of bytes, with a letter in front
abbrev lettered : Serialization Bytes
lettered = record { serialize = λ b. ok (b'm' ∷ b); parse = λ b. ok (drop 1 b) }

abbrev said : List (Parsed Bytes Bytes)
said = message_value (1 ∷ 2 ∷ 3 ∷ []) ∷ message_value [] ∷ end_value (7 ∷ []) ∷ []

two-IsEndFlag : IsEndFlag 2
two-IsEndFlag = record {
  byte = omega arith;
  marks = unfold has_flag in refl;
  not_zero = unfold has_flag in refl;
  plain = unfold has_flag in refl;
}

lettered-Reads : (b : Bytes) → length b < 90 → Reads lettered (some marking) 100 b
lettered-Reads b h = (
  b'm' ∷ b,
  refl,
  (refl, (omega arith, (omega arith, (99 ∷ b'm' ∷ b, refl, (refl, (omega arith, omega arith)))))),
)

said-Transmits : AllTransmit lettered 2 lettered (some marking) 2 100 said
said-Transmits = (
  lettered-Reads (1 ∷ 2 ∷ 3 ∷ []) (omega arith),
  (lettered-Reads [] (omega arith), (lettered-Reads (7 ∷ []) (omega arith), tt)),
)

receive-send_example :
    (chunks : List Bytes) × (send lettered 2 lettered 100 (some marking) 2 (of_list said)
      ≡ of_list chunks)
    × ((cs : List Bytes)
        → flatten cs ≡ flatten chunks
        → receive lettered 2 lettered (some marking) 100 (of_list cs) ≡ of_list said)
receive-send_example =
    receive-send lettered 2 lettered (some marking) 2 100 100 said two-IsEndFlag said-Transmits
