-- ===== src/AsyncIterable/Pipeline.antt =====
-- The way of a stream of messages through the transforms of both sides: serialize, compress and
-- join on one, split, decompress and parse on the other.
use connect_web.Serialization.{Serialization}
use connect_web.Envelope.Encoding.{encode_envelopes-frames, encode_envelope-frame, frames}
use connect_web.Envelope.Flags.{bit_or-byte, toggle-set, has_flag-set}
use Prim.Native.Nat.{bit_or}
use mathlib.Core.List.{flatten}
use connect_web.AsyncIterable.Split.Frames.{split-encode_envelopes, Fits, AllFit}
use connect_web.AsyncIterable.Split.{transform_split_envelope}
use connect_web.ConnectError.{ok, Bytes}
use connect_web.Envelope.{
  encode_envelopes, compressed_flag, has_flag, encode_envelope, envelope_decompress,
  EnvelopedMessage, envelope_compress, Compression,
}
use connect_web.AsyncIterable.Transforms.{
  parse_parsed, serialize_parsed, end_value, message_value, transform_join_envelopes,
  transform_compress_envelope, transform_decompress_envelope, Parsed,
  transform_serialize_envelope_end, transform_parse_envelope_end,
}
use connect_web.Prelude.{
  ℕ, ◌^◌, ◌≤◌, ◌<◌, true, false, List, [], ◌∷◌, ◌++◌, ◌≡◌, refl, sym, ap, ap₂, ◌∙◌, inl, inr,
  Option, none, some, arith, leb, Bool-cases, length,
}
use connect_web.Stream.{map_stream-next, next, map_stream, of_list, Stream}

-- what the sender does with its messages, as a stream of bytes
unfoldable pub send :
    {A E : Type 0}
    → Serialization A
    → ℕ
    → Serialization E
    → ℕ
    → Option Compression
    → ℕ
    → Stream (Parsed A E)
    → Stream Bytes
unfolding transform_serialize_envelope_end transform_compress_envelope transform_join_envelopes
send messages end_flag ends write_max compression min s = transform_join_envelopes (
    transform_compress_envelope compression min
      (transform_serialize_envelope_end messages write_max end_flag ends s))

unfoldable pub receive :
    {A E : Type 0}
    → Serialization A
    → ℕ
    → Serialization E
    → Option Compression
    → ℕ
    → Stream Bytes
    → Stream (Parsed A E)
unfolding transform_parse_envelope_end transform_decompress_envelope transform_split_envelope
receive messages end_flag ends compression max s =
    transform_parse_envelope_end messages end_flag ends
      (transform_decompress_envelope compression max (transform_split_envelope max s))

-- a compression that may shrink or fail, but restores what it made
abbrev pub Restores : Option Compression → ℕ → Bytes → Type 0
Restores none max b = Unit {0}
Restores (some c) max b =
    (small : Bytes) × (c.compress b ≡ ok small)
    × ((c.decompress small max ≡ ok b) × ((length small < 2 ^ 32) × (length small ≤ max)))

-- A flag that marks the end: one of the eight, apart from the flag of a compressed message.
pub record IsEndFlag (flag : ℕ) : Type 0 where
  pub byte : bit_or 0 flag < 256
  pub marks : has_flag (bit_or 0 flag) flag ≡ true
  pub not_zero : has_flag 0 flag ≡ false
  pub plain : has_flag (bit_or 0 flag) compressed_flag ≡ false

-- what happens to an envelope on the way
record Passes (compression : Option Compression) (min max : ℕ) (e : EnvelopedMessage) : Type 0 where
  packed : EnvelopedMessage
  packs : envelope_compress e compression min ≡ ok packed
  unpacks : envelope_decompress packed compression max ≡ ok e
  fits : Fits max packed

passes :
    (compression : Option Compression) (min max : ℕ) (e : EnvelopedMessage)
    → has_flag e.flags compressed_flag ≡ false
    → Fits max e
    → Restores compression max e.payload
    → Passes compression min max e
unfolding envelope_compress envelope_decompress
passes none min max e plain fits r = record {
  packed = e;
  packs = ground arith;
  unpacks = ground arith;
  fits = fits;
}
passes (some c) min max e plain fits (small, made, (restored, (short, within))) =
    elim (Bool-cases (leb min (length e.payload))) [
      | inl large ↦ record {
        packed = record { flags = bit_or e.flags compressed_flag; payload = small };
        packs = ground arith;
        unpacks =
            ground
              (arith, has_flag-set e.flags fits.flags_fit, toggle-set e.flags fits.flags_fit plain);
        fits = record {
          flags_fit = bit_or-byte e.flags fits.flags_fit;
          length_fits = short;
          within = within;
        };
      }
      | inr little ↦ record {
        packed = e;
        packs = ground arith;
        unpacks = ground arith;
        fits = fits;
      }
    ]

-- a serialization that can read what it writes of one value, within the size of an envelope
abbrev pub Reads : {A : Type 0} → Serialization A → Option Compression → ℕ → A → Type 0
Reads s compression max x =
    (b : Bytes) × (s.serialize x ≡ ok b)
    × ((s.parse b ≡ ok x) × ((length b < 2 ^ 32) × ((length b ≤ max) × Restores compression max b)))

module _ {A E : Type 0} (messages : Serialization A) (end_flag : ℕ) (ends : Serialization E)
    (compression : Option Compression) (min max : ℕ) where
  abbrev pub Transmits : Parsed A E → Type 0
  Transmits (message_value x) = Reads messages compression max x
  Transmits (end_value x) = Reads ends compression max x

  abbrev pub AllTransmit : List (Parsed A E) → Type 0
  AllTransmit [] = Unit {0}
  AllTransmit (m ∷ ms) = Transmits m × AllTransmit ms

  record Sent (m : Parsed A E) : Type 0 where
    envelope : EnvelopedMessage
    serializes : serialize_parsed messages end_flag ends m ≡ ok envelope
    parses : parse_parsed messages end_flag ends envelope ≡ ok m
    passing : Passes compression min max envelope

  sent : (m : Parsed A E) → IsEndFlag end_flag → Transmits m → Sent m
  unfolding serialize_parsed parse_parsed
  sent (message_value x) flag (b, written, (read, (short, (within, r)))) =
      let e : EnvelopedMessage = record { flags = 0; payload = b } in
      record {
        envelope = e;
        serializes = ground arith;
        parses = ground (arith, flag.not_zero);
        passing =
            passes compression min max e (unfold has_flag in refl)
              (record { flags_fit = omega arith; length_fits = short; within = within }) r;
      }
  sent (end_value x) flag (b, written, (read, (short, (within, r)))) =
      let e : EnvelopedMessage = record { flags = bit_or 0 end_flag; payload = b } in
      record {
        envelope = e;
        serializes = ground arith;
        parses = ground (arith, flag.marks);
        passing =
            passes compression min max e flag.plain
              (record { flags_fit = flag.byte; length_fits = short; within = within }) r;
      }

  record AllSent (ms : List (Parsed A E)) : Type 0 where
    envelopes : List EnvelopedMessage
    packs :
        (write_max : ℕ)
        → transform_compress_envelope compression min
            (transform_serialize_envelope_end messages write_max end_flag ends (of_list ms))
          ≡ of_list envelopes
    unpacks :
        transform_parse_envelope_end messages end_flag ends
          (transform_decompress_envelope compression max (of_list envelopes))
        ≡ of_list ms
    fit : AllFit max envelopes

  all_sent : (ms : List (Parsed A E)) → IsEndFlag end_flag → AllTransmit ms → AllSent ms
  unfolding transform_compress_envelope transform_serialize_envelope_end
      transform_parse_envelope_end transform_decompress_envelope of_list
  all_sent [] flag h = record {
    envelopes = [];
    packs = λ write_max. refl;
    unpacks = refl;
    fit = tt;
  }
  all_sent (m ∷ ms) flag (h, hs) =
      let s = sent m flag h in
      let p = s.passing in
      let rest = all_sent ms flag hs in
      record {
        envelopes = p.packed ∷ rest.envelopes;
        packs = λ write_max.
            ap (map_stream (λ e. envelope_compress e compression min)) (
              map_stream-next (serialize_parsed messages end_flag ends) m s.envelope (of_list ms)
                s.serializes)
            ∙ map_stream-next (λ e. envelope_compress e compression min) s.envelope p.packed
                (map_stream (serialize_parsed messages end_flag ends) (of_list ms)) p.packs
            ∙ ap (next p.packed) (rest.packs write_max);
        unpacks =
            ap (map_stream (parse_parsed messages end_flag ends)) (
              map_stream-next (λ e. envelope_decompress e compression max) p.packed s.envelope
                (of_list rest.envelopes) p.unpacks)
            ∙ map_stream-next (parse_parsed messages end_flag ends) s.envelope m
                (map_stream (λ e. envelope_decompress e compression max) (of_list rest.envelopes))
                s.parses
            ∙ ap (next m) rest.unpacks;
        fit = (p.fits, rest.fit);
      }

frame_list : List EnvelopedMessage → List Bytes
frame_list [] = []
frame_list (e ∷ es) = encode_envelope e.flags e.payload ∷ frame_list es

join-frame_list :
    (es : List EnvelopedMessage) → transform_join_envelopes (of_list es) ≡ of_list (frame_list es)
unfolding transform_join_envelopes frame_list of_list map_stream
join-frame_list [] = refl
join-frame_list (e ∷ es) = ap (next (encode_envelope e.flags e.payload)) (join-frame_list es)

flatten-frame_list : (es : List EnvelopedMessage) → flatten (frame_list es) ≡ encode_envelopes es
unfolding frame_list flatten
flatten-frame_list es = go es ∙ sym (encode_envelopes-frames es)
  where
    go : (es : List EnvelopedMessage) → flatten (frame_list es) ≡ frames es
    go [] = refl
    go (e ∷ es) = ap₂ (λ a b. a ++ b) (encode_envelope-frame e) (go es)

-- If the serializations can read what they write of each value, the compression restores what it
-- made, and all sizes are within the limit of the reader and of an envelope, then sending yields
-- chunks without an error, and receiving their bytes, cut into chunks in any way, yields the same
-- values in the same order, the end among them, without an error.
pub receive-send :
    {A E : Type 0} (messages : Serialization A) (end_flag : ℕ) (ends : Serialization E)
    (compression : Option Compression) (min max write_max : ℕ) (ms : List (Parsed A E))
    → IsEndFlag end_flag
    → AllTransmit messages end_flag ends compression min max ms
    → (chunks : List Bytes) × (send messages end_flag ends write_max compression min (of_list ms)
        ≡ of_list chunks)
      × ((cs : List Bytes)
          → flatten cs ≡ flatten chunks
          → receive messages end_flag ends compression max (of_list cs) ≡ of_list ms)
unfolding send receive
receive-send messages end_flag ends compression min max write_max ms flag h =
    let s = all_sent messages end_flag ends compression min max ms flag h in
    let es = s.envelopes in
    (
      frame_list es,
      ap transform_join_envelopes (s.packs write_max) ∙ join-frame_list es,
      λ cs e.
          ap
            (λ t.
              transform_parse_envelope_end messages end_flag ends
                (transform_decompress_envelope compression max t))
            (split-encode_envelopes max es cs s.fit (e ∙ flatten-frame_list es))
          ∙ s.unpacks,
    )
