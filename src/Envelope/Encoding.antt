-- ===== src/Envelope/Encoding.antt =====
-- The bytes that the two encoders write, against the frame of the protocol description.
use connect_web.Prelude.{
  ℕ, zero, suc, ◌+◌, ◌-◌, ◌%◌, ◌≤◌, List, [], ◌∷◌, ◌++◌, ◌≡◌, refl, sym, ap, ap₂, ◌∙◌, arith,
  length, length-append, append_assoc,
}
use connect_web.ConnectError.{Bytes}
use connect_web.Envelope.{
  EnvelopedMessage, zeros, write, overwrite, uint8, uint32, total_length, write_envelopes,
  encode_envelope, encode_envelopes,
}

-- One byte of flags, four bytes of length in big endian, and the payload.
abbrev pub frame : EnvelopedMessage → Bytes
frame e = e.flags % 256 ∷ (uint32 (length e.payload) ++ e.payload)

abbrev pub frames : List EnvelopedMessage → Bytes
frames [] = []
frames (e ∷ es) = frame e ++ frames es

-- five zeros in front
zeros_five : (n : ℕ) → zeros (n + 5) ≡ 0 ∷ 0 ∷ 0 ∷ 0 ∷ 0 ∷ zeros n
zeros_five n = let e : n + 5 ≡ suc (suc (suc (suc (suc n)))) = omega arith in ap zeros e

zeros_add : (a b c : ℕ) → c ≡ a + b → zeros c ≡ zeros a ++ zeros b
zeros_add zero b c e = ap zeros (omega arith)
zeros_add (suc a) b zero e = absurd (omega arith)
zeros_add (suc a) b (suc c) e = ap (◌∷◌ 0) (zeros_add a b c (omega arith))

overwrite-zeros : (bs rest : Bytes) → overwrite (zeros (length bs) ++ rest) bs ≡ bs ++ rest
unfolding overwrite
overwrite-zeros [] [] = refl
overwrite-zeros [] (x ∷ rest) = refl
overwrite-zeros (b ∷ bs) rest = ap (◌∷◌ b) (overwrite-zeros bs rest)

zeros_here : (bs : Bytes) → overwrite (zeros (length bs)) bs ≡ bs
unfolding overwrite
zeros_here [] = refl
zeros_here (b ∷ bs) = ap (◌∷◌ b) (zeros_here bs)

write-append :
    (pre buf bs : Bytes) (o o' : ℕ)
    → o' ≡ length pre + o
    → write (pre ++ buf) o' bs ≡ pre ++ write buf o bs
unfolding write
write-append [] buf bs o o' e = ap (λ k. write buf k bs) (omega arith)
write-append (x ∷ pre) buf bs o zero e = absurd (omega arith)
write-append (x ∷ pre) buf bs o (suc o') e = ap (◌∷◌ x) (write-append pre buf bs o o' (omega arith))

-- a chunk that fits behind what is written
pub write-zeros :
    (pre c : Bytes) (k offset : ℕ)
    → offset ≡ length pre
    → length c ≤ k
    → write (pre ++ zeros k) offset c ≡ (pre ++ c) ++ zeros (k - length c)
unfolding write
write-zeros pre c k offset at fits = rw (zeros_add (length c) (k - length c) k (omega arith)) (
    write-append pre (zeros (length c) ++ zeros (k - length c)) c 0 offset (omega arith)
    ∙ rw (overwrite-zeros c (zeros (k - length c)))
        (sym (append_assoc pre c (zeros (k - length c)))))

-- `encodeEnvelope` writes the frame.
pub encode_envelope-frame : (e : EnvelopedMessage) → encode_envelope e.flags e.payload ≡ frame e
unfolding encode_envelope overwrite
encode_envelope-frame e = simp (zeros_five, zeros_here)

length-frame : (e : EnvelopedMessage) → length (frame e) ≡ length e.payload + 5
length-frame e = omega arith

-- one envelope, written at its offset into what is left of the buffer
module _ (pre : Bytes) (e : EnvelopedMessage) (rest : ℕ) (offset : ℕ)
    (at : offset ≡ length pre) where
  abbrev room : Bytes
  room = zeros (length e.payload + 5) ++ zeros rest

  write_one :
      write
        (write
          (write (pre ++ room) offset (uint8 e.flags))
          (offset + 1)
          (uint32 (length e.payload)))
        (offset + 5)
        e.payload
      ≡ (pre ++ frame e) ++ zeros rest
  unfolding write overwrite
  write_one = rw zeros_five (
      rw (write-append pre _ (uint8 e.flags) 0 offset (omega arith)) (
        rw (write-append pre _ (uint32 (length e.payload)) 1 (offset + 1) (omega arith)) (
          rw (write-append pre _ e.payload 5 (offset + 5) (omega arith))
            (rw overwrite-zeros (sym (append_assoc pre (frame e) (zeros rest)))))))

write_envelopes-frames :
    (es : List EnvelopedMessage) (pre : Bytes) (offset : ℕ)
    → offset ≡ length pre
    → write_envelopes (pre ++ zeros (length (frames es))) offset es ≡ pre ++ frames es
unfolding write_envelopes
write_envelopes-frames [] pre offset at = refl
write_envelopes-frames (e ∷ es) pre offset at =
    let room : zeros (length (frames (e ∷ es)))
        ≡ zeros (length e.payload + 5) ++ zeros (length (frames es)) =
      zeros_add (length e.payload + 5) (length (frames es)) (length (frames (e ∷ es)))
        (omega (arith, length-append (frame e) (frames es), length-frame e)) in
    rw room (
      rw (write_one pre e (length (frames es)) offset at) (
        write_envelopes-frames es (pre ++ frame e) (offset + (length e.payload + 5))
          (omega (arith, length-append pre (frame e), length-frame e))
        ∙ append_assoc pre (frame e) (frames es)))

total_length-frames :
    (es : List EnvelopedMessage) (acc : ℕ) → total_length acc es ≡ acc + length (frames es)
unfolding total_length
total_length-frames [] acc = omega arith
total_length-frames (e ∷ es) acc = omega (
  arith,
  total_length-frames es (acc + length e.payload + 5),
  length-append (frame e) (frames es),
  length-frame e,
)

pub encode_envelopes-frames : (es : List EnvelopedMessage) → encode_envelopes es ≡ frames es
unfolding encode_envelopes
encode_envelopes-frames es = rw (total_length-frames es 0) (
    rw (let e : 0 + length (frames es) ≡ length (frames es) = omega arith in e)
      (write_envelopes-frames es [] 0 refl))

-- what `encodeEnvelope` returns for each envelope, one behind another
abbrev pub each_encoded : List EnvelopedMessage → Bytes
each_encoded [] = []
each_encoded (e ∷ es) = encode_envelope e.flags e.payload ++ each_encoded es

each_encoded-frames : (es : List EnvelopedMessage) → each_encoded es ≡ frames es
each_encoded-frames [] = refl
each_encoded-frames (e ∷ es) =
    ap₂ (λ a b. a ++ b) (encode_envelope-frame e) (each_encoded-frames es)

-- `encodeEnvelopes` returns what `encodeEnvelope` returns for each envelope in turn, and this has the length
-- of the buffer that it allocates.
pub encode_envelopes-encode_envelope :
    (es : List EnvelopedMessage)
    → (encode_envelopes es ≡ each_encoded es) × (total_length 0 es ≡ length (each_encoded es))
encode_envelopes-encode_envelope es = (
  encode_envelopes-frames es ∙ sym (each_encoded-frames es),
  omega (arith, total_length-frames es 0, ap length (each_encoded-frames es)),
)
