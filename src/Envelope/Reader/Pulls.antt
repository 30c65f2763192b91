-- ===== src/Envelope/Reader/Pulls.antt =====
-- What a pull enqueues: the next envelope for lengths below 2 ^ 31, however the source is cut; and what
-- it does where the source ends early.
use connect_web.Prelude.{
  ℕ, zero, suc, ◌+◌, ◌-◌, ◌/◌, ◌%◌, ◌^◌, ◌≤◌, ◌<◌, true, false, List, [], ◌∷◌, ◌++◌, pos, negsuc,
  ◌≡◌, refl, sym, ap, ap₂, ◌∙◌, ◌⊎◌, inl, inr, Option, none, some, arith, Bool-cases, length,
  length-append, take, drop, append-nil, append_assoc,
}
use Prim.Native.Nat.{min}
use mathlib.Core.List.{flatten}
use connect_web.ConnectError.{Bytes}
use connect_web.Envelope.{EnvelopedMessage}
use connect_web.Envelope.Encoding.{frame}
use connect_web.Stream.{Stream, done, next, of_list}
use connect_web.AsyncIterable.Split.{get_uint32}
use connect_web.Envelope.Reader.{
  SignedHeader, int32, plus, read_length, position, subarray, subarray_from, note_header,
  has_envelope, Loop, stopped, read_loop, enqueue, after_loop, pull,
}

-- Below 2 ^ 31 the signed length is the unsigned one.
pub read_length-get_uint32 :
    (a b c d : ℕ)
    → a < 128
    → b < 256
    → c < 256
    → d < 256
    → read_length (pos 0) (a ∷ b ∷ c ∷ d ∷ []) ≡ pos (get_uint32 a b c d)
unfolding read_length int32
read_length-get_uint32 a b c d ha hb hc hd = ground arith

-- If the first of the four bytes of a length is 128 or more, so that the length is 2 ^ 31 or more,
-- then the signed length is negative: it is the length less 2 ^ 32.
pub read_length-negative :
    (a b c d : ℕ)
    → 128 ≤ a
    → a < 256
    → b < 256
    → c < 256
    → d < 256
    → read_length (pos 0) (a ∷ b ∷ c ∷ d ∷ []) ≡ negsuc (2 ^ 32 - get_uint32 a b c d - 1)
unfolding read_length int32
read_length-negative a b c d la ha hb hc hd = ground arith

module _ {A : Type 0} where
  -- the longer of two beginnings of a list holds the shorter one
  prefix_split :
      (xs ys zs ws : List A)
      → xs ++ ys ≡ zs ++ ws
      → length zs ≤ length xs
      → (t : List A) × (xs ≡ zs ++ t) × (ws ≡ t ++ ys)
  prefix_split xs ys [] ws e h = (xs, refl, sym e)
  prefix_split [] ys (z ∷ zs) ws e h = absurd (omega arith)
  prefix_split (x ∷ xs) ys (z ∷ zs) ws e h =
      let (t, p, q) = prefix_split xs ys zs ws (cc) (omega arith) in
      (t, ap₂ (λ z zs. z ∷ zs) (cc) p, q)

  take-length : (xs ys : List A) → take (length xs) (xs ++ ys) ≡ xs
  take-length [] ys = refl
  take-length (x ∷ xs) ys = ap (◌∷◌ x) (take-length xs ys)

  drop-length : (xs ys : List A) (n : ℕ) → n ≡ length xs → drop n (xs ++ ys) ≡ ys
  drop-length [] ys zero e = refl
  drop-length [] ys (suc n) e = absurd (omega arith)
  drop-length (x ∷ xs) ys zero e = absurd (omega arith)
  drop-length (x ∷ xs) ys (suc n) e = drop-length xs ys n (omega arith)

abbrev header_of : EnvelopedMessage → SignedHeader
header_of e = record { size = pos (length e.payload); flags = e.flags }

-- the header is known once five bytes are there
note-frame :
    (e : EnvelopedMessage) (rest : Bytes)
    → e.flags < 256
    → length e.payload < 2 ^ 31
    → note_header none (frame e ++ rest) ≡ some (header_of e)
unfolding note_header
note-frame e rest byte small =
    let n = length e.payload in
    let size : read_length (pos 0)
          (n / 2 ^ 24 % 256 ∷ n / 2 ^ 16 % 256 ∷ n / 2 ^ 8 % 256 ∷ n % 256 ∷ [])
        ≡ pos n =
      read_length-get_uint32 (n / 2 ^ 24 % 256) (n / 2 ^ 16 % 256) (n / 2 ^ 8 % 256) (n % 256)
        (omega arith) (omega arith) (omega arith) (omega arith)
      ∙ ap pos (omega arith) in
    let flags : e.flags % 256 ≡ e.flags = omega arith in
    λ i. some (record { size = size i; flags = flags i })

abbrev Known : Option SignedHeader → Bytes → Type 0
Known h buf = (h ≡ none) ⊎ (h ≡ note_header none buf)

note_idem : (buf : Bytes) → note_header (note_header none buf) buf ≡ note_header none buf
unfolding note_header
note_idem (f ∷ a ∷ b ∷ c ∷ d ∷ rest) = refl
note_idem buf = refl

note-Known :
    (h : Option SignedHeader) (buf : Bytes) → Known h buf → note_header h buf ≡ note_header none buf
note-Known h buf (inl e) = rw e
note-Known h buf (inr e) = ap (λ k. note_header k buf) e ∙ note_idem buf

Known-append : (buf more : Bytes) → Known (note_header none buf) (buf ++ more)
unfolding note_header
Known-append (f ∷ a ∷ b ∷ c ∷ d ∷ rest) more = inr refl
Known-append [] more = inl refl
Known-append (f ∷ []) more = inl refl
Known-append (f ∷ a ∷ []) more = inl refl
Known-append (f ∷ a ∷ b ∷ []) more = inl refl
Known-append (f ∷ a ∷ b ∷ c ∷ []) more = inl refl

-- a buffer that starts like the frame holds the envelope exactly if it is as long as the frame
has_envelope-frame :
    (e : EnvelopedMessage) (buf tail more : Bytes)
    → e.flags < 256
    → length e.payload < 2 ^ 31
    → buf ++ more ≡ frame e ++ tail
    → has_envelope (note_header none buf) buf ≡ true
    → length (frame e) ≤ length buf
unfolding note_header has_envelope plus
has_envelope-frame e (f ∷ a ∷ b ∷ c ∷ d ∷ rest) tail more byte small same h =
    let known : note_header none (f ∷ a ∷ b ∷ c ∷ d ∷ rest) ≡ some (header_of e) =
      ap (note_header none) same ∙ note-frame e tail byte small in
    let enough = rw known at h in ground arith
has_envelope-frame e buf tail more byte small same h = cc

module _ (h : Option SignedHeader) (buf c : Bytes) (source : Stream Bytes)
    (known : Known h buf) where
  read_loop-stop :
      has_envelope (note_header none buf) buf ≡ true
      → read_loop h buf (next c source) ≡ stopped (note_header none buf) buf (next c source)
  unfolding read_loop
  read_loop-stop enough = ground (arith, note-Known h buf known)

  read_loop-more :
      has_envelope (note_header none buf) buf ≡ false
      → read_loop h buf (next c source) ≡ read_loop (note_header none buf) (buf ++ c) source
  unfolding read_loop
  read_loop-more more = ground (arith, note-Known h buf known)

-- With the length below 2 ^ 31: the loop stops with the header of the frame that the bytes begin
-- with, once the whole frame is in the buffer.
record Stops (e : EnvelopedMessage) (tail : Bytes) (l : Loop) : Type 0 where
  buffer : Bytes
  chunks : List Bytes
  stops : l ≡ stopped (some (header_of e)) buffer (of_list chunks)
  holds : buffer ++ flatten chunks ≡ frame e ++ tail
  whole : length (frame e) ≤ length buffer

read_loop-frame :
    (e : EnvelopedMessage) (tail : Bytes) (cs : List Bytes) (h : Option SignedHeader) (buf : Bytes)
    → e.flags < 256
    → length e.payload < 2 ^ 31
    → Known h buf
    → buf ++ flatten cs ≡ frame e ++ tail
    → Stops e tail (read_loop h buf (of_list cs))
unfolding read_loop of_list flatten
read_loop-frame e tail [] h buf byte small known same =
    let all : buf ≡ frame e ++ tail = sym (append-nil buf) ∙ same in
    record {
      buffer = buf;
      chunks = [];
      stops =
          ap (λ k. stopped k buf done)
            (note-Known h buf known ∙ ap (note_header none) all ∙ note-frame e tail byte small);
      holds = same;
      whole = omega (arith, ap length all, length-append (frame e) tail);
    }
read_loop-frame e tail (c ∷ cs) h buf byte small known same =
    elim (Bool-cases (has_envelope (note_header none buf) buf)) [
      | inl enough ↦
          let whole = has_envelope-frame e buf tail (flatten (c ∷ cs)) byte small same enough in
          let (t, begins, ends) = prefix_split buf (flatten (c ∷ cs)) (frame e) tail same whole in
          let header : note_header none buf ≡ some (header_of e) =
            ap (note_header none) begins ∙ note-frame e t byte small in
          record {
            buffer = buf;
            chunks = c ∷ cs;
            stops =
                read_loop-stop h buf c (of_list cs) known enough
                ∙ ap (λ k. stopped k buf (next c (of_list cs))) header;
            holds = same;
            whole = whole;
          }
      | inr more ↦
          let later =
            read_loop-frame e tail cs (note_header none buf) (buf ++ c) byte small
              (Known-append buf c) (append_assoc buf c (flatten cs) ∙ same) in
          record {
            buffer = later.buffer;
            chunks = later.chunks;
            stops = read_loop-more h buf c (of_list cs) known more ∙ later.stops;
            holds = later.holds;
            whole = later.whole;
          }
    ]

-- what the pull takes from a buffer that begins with the frame
module _ (e : EnvelopedMessage) (t : Bytes) where
  subarray-frame : subarray (frame e ++ t) 5 (plus (pos (length e.payload)) 5) ≡ e.payload
  unfolding subarray plus
  subarray-frame =
      let all = frame e ++ t in
      let n : position (length all) (pos (length e.payload + 5)) - min 5 (length all)
          ≡ length e.payload =
        omega (arith, length-append e.payload t) in
      ap (λ k. take k (e.payload ++ t)) n ∙ take-length e.payload t

  subarray_from-frame : subarray_from (frame e ++ t) (plus (pos (length e.payload)) 5) ≡ t
  unfolding subarray_from plus
  subarray_from-frame =
      drop-length (frame e) t (position (length (frame e ++ t)) (pos (length e.payload + 5)))
        (omega (arith, length-append (frame e) t))

-- For an envelope with eight flags and fewer than 2 ^ 31 bytes: if the buffer and the chunks that
-- remain hold its frame and then `tail`, then a pull enqueues this envelope, and the buffer and the
-- chunks that it leaves hold exactly `tail`.
pub pull-frame :
    (e : EnvelopedMessage) (tail : Bytes) (cs : List Bytes) (buf : Bytes)
    → e.flags < 256
    → length e.payload < 2 ^ 31
    → buf ++ flatten cs ≡ frame e ++ tail
    → (rest : Bytes) × (ds : List Bytes) × (pull buf (of_list cs) ≡ enqueue e rest (of_list ds))
      × (rest ++ flatten ds ≡ tail)
unfolding pull after_loop
pull-frame e tail cs buf byte small same =
    let s = read_loop-frame e tail cs none buf byte small (inl refl) same in
    let (t, begins, ends) =
      prefix_split s.buffer (flatten s.chunks) (frame e) tail s.holds s.whole in
    (
      t,
      s.chunks,
      ap after_loop (s.stops ∙ ap (λ b. stopped (some (header_of e)) b (of_list s.chunks)) begins)
          ∙ (λ i.
              enqueue (record { flags = e.flags; payload = subarray-frame e t i })
                (subarray_from-frame e t i) (of_list s.chunks)),
      sym ends,
    )

-- If the source ends when the header is there and the payload is not, then a pull raises no error:
-- it enqueues what is there of the payload as a whole envelope, and leaves an empty buffer.
pub pull_truncated :
    (e : EnvelopedMessage) (there missing : Bytes)
    → e.flags < 256
    → length e.payload < 2 ^ 31
    → e.payload ≡ there ++ missing
    → 0 < length missing
    → pull (take 5 (frame e) ++ there) done
      ≡ enqueue (record { flags = e.flags; payload = there }) [] done
unfolding pull after_loop read_loop plus
pull_truncated e there missing byte small splits more =
    let buf = take 5 (frame e) ++ there in
    let longer : length e.payload ≡ length there + length missing =
      ap length splits ∙ length-append there missing in
    let part : subarray buf 5 (pos (length e.payload + 5)) ≡ there =
      unfold subarray in
      ap (λ k. take k there)
        (let k : position (length buf) (pos (length e.payload + 5)) - min 5 (length buf)
              ≡ length there =
            omega arith in
          k)
      ∙ ap (take (length there)) (sym (append-nil there))
      ∙ take-length there [] in
    let left : subarray_from buf (pos (length e.payload + 5)) ≡ [] =
      unfold subarray_from in
      ap (drop (position (length buf) (pos (length e.payload + 5)))) (sym (append-nil buf))
      ∙ drop-length buf [] (position (length buf) (pos (length e.payload + 5))) (omega arith) in
    ap (λ h. after_loop (stopped h buf done))
      (let h : note_header none buf ≡ note_header none (frame e ++ []) =
          unfold note_header in refl in
        h ∙ note-frame e [] byte small)
    ∙ (λ i. enqueue (record { flags = e.flags; payload = part i }) (left i) done)
