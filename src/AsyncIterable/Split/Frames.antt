-- ===== src/AsyncIterable/Split/Frames.antt =====
-- `transformSplitEnvelope` on the bytes that the encoders write, whole, cut short, or with an envelope
-- that is too large.
use connect_web.Prelude.{
  ℕ, suc, ◌+◌, ◌/◌, ◌%◌, ◌^◌, ◌≤◌, ◌<◌, true, List, [], ◌∷◌, ◌++◌, ◌≡◌, refl, sym, ap, ap₂, ◌∙◌,
  arith, lt→ltb, length, length-append, take, drop, append-nil, append_assoc,
}
use mathlib.Core.List.{flatten}
use connect_web.ConnectError.{Bytes, connect_error, simple_error, ok, err}
use connect_web.Code.{invalid_argument, resource_exhausted}
use connect_web.Compression.{assert_read_max_bytes, read_max_message}
use connect_web.Envelope.{EnvelopedMessage, uint32, encode_envelopes}
use connect_web.Envelope.Encoding.{frame, frames, encode_envelopes-frames}
use connect_web.Stream.{raise, of_list, prepend, of_list-prepend}
use connect_web.AsyncIterable.Split.{
  get_uint32, peek_header, Drained, drain, drain_all, finish, incomplete_message,
  transform_split_envelope,
}
use connect_web.AsyncIterable.Split.Drain.{
  Buffer-cases, drain-enough, drain-few, drain-error, drain-short, drain_fuel, push,
}
use connect_web.AsyncIterable.Split.Chunks.{ended, outcome, transform_split_envelope-outcome}

-- An envelope that can be sent and received: eight flags, a length of four bytes, and a payload
-- within the limit of the reader.
pub record Fits (max : ℕ) (e : EnvelopedMessage) : Type 0 where
  pub flags_fit : e.flags < 256
  pub length_fits : length e.payload < 2 ^ 32
  pub within : length e.payload ≤ max

abbrev pub AllFit : ℕ → List EnvelopedMessage → Type 0
AllFit max [] = Unit {0}
AllFit max (e ∷ es) = Fits max e × AllFit max es

size_of :
    (n : ℕ)
    → n < 2 ^ 32
    → get_uint32 (n / 2 ^ 24 % 256) (n / 2 ^ 16 % 256) (n / 2 ^ 8 % 256) (n % 256) ≡ n
size_of n h = omega arith

assert_fits : (max n : ℕ) → n ≤ max → assert_read_max_bytes max n true ≡ ok tt
unfolding assert_read_max_bytes
assert_fits max n h = ground arith

take-length : (xs ys : Bytes) → take (length xs) (xs ++ ys) ≡ xs
take-length [] ys = refl
take-length (x ∷ xs) ys = ap (◌∷◌ x) (take-length xs ys)

drop-length : (xs ys : Bytes) → drop (length xs) (xs ++ ys) ≡ ys
drop-length [] ys = refl
drop-length (x ∷ xs) ys = drop-length xs ys

-- a frame at the start of a buffer is taken off
drain-frame :
    (max : ℕ) (e : EnvelopedMessage) (tail : Bytes)
    → Fits max e
    → drain_all max (frame e ++ tail) ≡ push e (drain_all max tail)
drain-frame max e tail fits =
    let n = length e.payload in
    let size = size_of n fits.length_fits in
    let rest = e.payload ++ tail in
    let small : e.flags % 256 ≡ e.flags = omega (arith, fits.flags_fit) in
    drain-enough (length (frame e ++ tail)) max (e.flags % 256) (n / 2 ^ 24 % 256)
      (n / 2 ^ 16 % 256) (n / 2 ^ 8 % 256) (n % 256) rest (rw size (assert_fits max n fits.within))
      (rw size (ground (arith, length-append e.payload tail)))
    ∙ ap₂ push
        (λ i. record {
          flags = small i;
          payload = (ap (λ k. take k rest) size ∙ take-length e.payload tail) i;
        })
        (ap (λ k. drain (length (frame e ++ tail)) max k)
            (ap (λ k. drop k rest) size ∙ drop-length e.payload tail)
          ∙ drain_fuel (length (frame e ++ tail)) (suc (length tail)) max (Buffer-cases tail)
              (omega (arith, length-append e.payload tail)) (omega arith))

-- a list of envelopes in front of what else is drained
before : List EnvelopedMessage → Drained → Drained
before es (envs, end) = (es ++ envs, end)

drain-frames :
    (max : ℕ) (es : List EnvelopedMessage) (tail : Bytes)
    → AllFit max es
    → drain_all max (frames es ++ tail) ≡ before es (drain_all max tail)
unfolding before
drain-frames max [] tail fit = refl
drain-frames max (e ∷ es) tail (fit, rest) =
    ap (drain_all max) (append_assoc (frame e) (frames es) tail)
    ∙ drain-frame max e (frames es ++ tail) fit
    ∙ ap (push e) (drain-frames max es tail rest)

outcome-before :
    (es : List EnvelopedMessage) (tail : Drained)
    → tail.0 ≡ []
    → outcome (before es tail) ≡ prepend es (ended tail.1)
unfolding before outcome
outcome-before es (envs, end) h = rw (h, append-nil) refl

-- the envelopes in front of a tail that yields none
split-frames-tail :
    (max : ℕ) (es : List EnvelopedMessage) (cs : List Bytes) (tail : Bytes)
    → AllFit max es
    → flatten cs ≡ encode_envelopes es ++ tail
    → (drain_all max tail).0 ≡ []
    → transform_split_envelope max (of_list cs) ≡ prepend es (ended (drain_all max tail).1)
split-frames-tail max es cs tail fit bytes none_more =
    transform_split_envelope-outcome max cs
    ∙ ap (λ b. outcome (drain_all max b)) (bytes ∙ ap (λ b. b ++ tail) (encode_envelopes-frames es))
    ∙ ap outcome (drain-frames max es tail fit)
    ∙ outcome-before es (drain_all max tail) none_more

-- If every envelope fits, then the source whose chunks hold what `encodeEnvelopes` writes, cut in any
-- way, is split into exactly these envelopes, in order, and ends without an error.
pub split-encode_envelopes :
    (max : ℕ) (es : List EnvelopedMessage) (cs : List Bytes)
    → AllFit max es
    → flatten cs ≡ encode_envelopes es
    → transform_split_envelope max (of_list cs) ≡ of_list es
unfolding ended finish
split-encode_envelopes max es cs fit bytes =
    let nothing : drain_all max [] ≡ ([], ok []) =
      drain-short 1 max [] (unfold peek_header in refl) in
    split-frames-tail max es cs [] fit (bytes ∙ sym (append-nil (encode_envelopes es)))
      (ap (λ (d : Drained). d.0) nothing)
    ∙ ap (λ (d : Drained). prepend es (ended d.1)) nothing
    ∙ sym (of_list-prepend es)

-- a proper part of a frame: some bytes are there and some are missing
pub record IsCutFrame (max : ℕ) (tail : Bytes) : Type 0 where
  pub env : EnvelopedMessage
  pub missing : Bytes
  pub splits : frame env ≡ tail ++ missing
  pub some_missing : 0 < length missing
  pub some_there : 0 < length tail
  pub fits : Fits max env

drain-cut :
    (max : ℕ) (tail missing : Bytes) (e : EnvelopedMessage)
    → frame e ≡ tail ++ missing
    → 0 < length missing
    → Fits max e
    → drain_all max tail ≡ ([], ok tail)
drain-cut max (f ∷ a ∷ b ∷ c ∷ d ∷ rest) missing e splits more fits =
    let n = length e.payload in
    let same : get_uint32 a b c d
        ≡ get_uint32 (n / 2 ^ 24 % 256) (n / 2 ^ 16 % 256) (n / 2 ^ 8 % 256) (n % 256) =
      cc in
    let size : get_uint32 a b c d ≡ n = same ∙ size_of n fits.length_fits in
    let payload : e.payload ≡ rest ++ missing = cc in
    let total : n ≡ length rest + length missing = ap length payload ∙ length-append rest missing in
    drain-few (length (f ∷ a ∷ b ∷ c ∷ d ∷ rest)) max f a b c d rest
      (rw size (assert_fits max n fits.within)) (rw size (ground arith))
drain-cut max tail missing e splits more fits =
    drain-short (suc (length tail)) max tail (unfold peek_header in refl)

finish-pos :
    (tail : Bytes)
    → 0 < length tail
    → finish tail ≡ raise (connect_error (simple_error (incomplete_message tail) invalid_argument))
unfolding finish
finish-pos tail h = rw (lt→ltb 0 (length tail) h)

-- If the source ends within an envelope, and this envelope and those in front of it fit the limit
-- for reading, then those in front of it are yielded, and then an error with code invalid_argument
-- is raised.
pub split_truncated :
    (max : ℕ) (es : List EnvelopedMessage) (cs : List Bytes) (tail : Bytes)
    → AllFit max es
    → flatten cs ≡ encode_envelopes es ++ tail
    → IsCutFrame max tail
    → transform_split_envelope max (of_list cs)
      ≡ prepend es (raise (connect_error (simple_error (incomplete_message tail) invalid_argument)))
unfolding ended
split_truncated max es cs tail fit bytes cut =
    let left = drain-cut max tail cut.missing cut.env cut.splits cut.some_missing cut.fits in
    split-frames-tail max es cs tail fit bytes (ap (λ (d : Drained). d.0) left)
    ∙ ap (λ (d : Drained). prepend es (ended d.1)) left
    ∙ ap (prepend es) (finish-pos tail cut.some_there)

-- If a header promises more bytes than the reader allows, then the envelopes in front of it are
-- yielded, and then an error with code resource_exhausted that names both numbers is raised,
-- whatever follows the header.
pub split_too_large :
    (max : ℕ) (es : List EnvelopedMessage) (cs : List Bytes) (flags n : ℕ) (rest : Bytes)
    → AllFit max es
    → n < 2 ^ 32
    → max < n
    → flatten cs ≡ encode_envelopes es ++ (flags ∷ (uint32 n ++ rest))
    → transform_split_envelope max (of_list cs)
      ≡ prepend es
          (raise (connect_error (simple_error (read_max_message max n true) resource_exhausted)))
unfolding ended
split_too_large max es cs flags n rest fit small large bytes =
    let tail = flags ∷ (uint32 n ++ rest) in
    let e = connect_error (simple_error (read_max_message max n true) resource_exhausted) in
    let refused : drain_all max tail ≡ ([], err e) =
      drain-error (length tail) max flags (n / 2 ^ 24 % 256) (n / 2 ^ 16 % 256) (n / 2 ^ 8 % 256)
        (n % 256) rest (rw (size_of n small) (unfold assert_read_max_bytes in ground arith)) in
    split-frames-tail max es cs tail fit bytes (ap (λ (d : Drained). d.0) refused)
    ∙ ap (λ (d : Drained). prepend es (ended d.1)) refused
