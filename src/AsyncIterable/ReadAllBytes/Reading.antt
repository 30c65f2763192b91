-- ===== src/AsyncIterable/ReadAllBytes/Reading.antt =====
-- What `readAllBytes` returns, with and without a promised length.
use connect_web.Compression.{read_max_message, assert_read_max_bytes}
use connect_web.Envelope.Encoding.{write-zeros}
use connect_web.Code.{resource_exhausted, invalid_argument}
use connect_web.Envelope.{write, zeros}
use connect_web.ConnectError.{ok, throw_error, Bytes, Result}
use connect_web.Prelude.{
  ℕ, ◌+◌, ◌-◌, ◌≤◌, false, List, [], ◌∷◌, ◌++◌, ◌≡◌, refl, ◌∙◌, ◌≢◌, inl, inr, none, some, arith,
  leb, ltb, if◌then◌else◌, Bool-cases, length, length-append, append_assoc,
}
use connect_web.AsyncIterable.ReadAllBytes.{
  parse_length_hint, LengthHint, read_all_bytes, read_promised, read_chunks, set_all, promised,
}
use connect_web.Stream.{of_list}
use mathlib.Core.List.{flatten}

-- everything read so far is in front of the buffer
read_promised-ok :
    (n : ℕ) (cs : List Bytes) (pre : Bytes) (offset : ℕ)
    → offset ≡ length pre
    → offset + length (flatten cs) ≡ n
    → read_promised n (pre ++ zeros (n - offset)) offset (of_list cs) ≡ ok (pre ++ flatten cs)
unfolding read_promised of_list flatten
read_promised-ok n [] pre offset at all =
    let e : n - offset ≡ 0 = omega arith in rw e (ground arith)
read_promised-ok n (c ∷ cs) pre offset at all =
    let total = length-append c (flatten cs) in
    let left : n - offset - length c ≡ n - (offset + length c) = omega arith in
    rw (write-zeros pre c (n - offset) offset at (omega arith)) (
      rw left (
        let ih =
          read_promised-ok n cs (pre ++ c) (offset + length c) (omega (arith, length-append pre c))
            (omega arith) in
        ground (arith, append_assoc pre c (flatten cs))))

-- the count of an error is not the promised one
abbrev pub IsBroken : ℕ → Result Bytes → Type 0
IsBroken n r =
    (received : ℕ) × (received ≢ n) × (r ≡ throw_error (promised n received) invalid_argument)

read_promised-IsBroken :
    (n : ℕ) (cs : List Bytes) (buf : Bytes) (offset : ℕ)
    → offset ≤ n
    → offset + length (flatten cs) ≢ n
    → IsBroken n (read_promised n buf offset (of_list cs))
unfolding read_promised of_list flatten
read_promised-IsBroken n [] buf offset before other = elim (Bool-cases (ltb offset n)) [
  | inl less ↦ (offset, ground arith, ground arith)
  | inr not_less ↦ absurd (ground arith)
]
read_promised-IsBroken n (c ∷ cs) buf offset before other =
    elim (Bool-cases (ltb n (offset + length c))) [
      | inl more ↦ (offset + length c, ground arith, ground arith)
      | inr fits ↦
          let (received, differs, read) =
            read_promised-IsBroken n cs (write buf offset c) (offset + length c) (ground arith)
              (omega (arith, length-append c (flatten cs))) in
          (received, differs, rw fits read)
    ]

-- a number of bytes that was promised
module _ (n max : ℕ) (hint : LengthHint) (cs : List Bytes) where
  -- If the hint promises a length within the limit, and the chunks have that length together, then
  -- the result is all bytes in order.
  pub read_all_bytes-promised :
      parse_length_hint hint ≡ some n
      → n ≤ max
      → length (flatten cs) ≡ n
      → read_all_bytes (of_list cs) max hint ≡ ok (flatten cs)
  unfolding read_all_bytes assert_read_max_bytes
  read_all_bytes-promised h within all =
      let read = read_promised-ok n cs [] 0 refl (omega arith) in ground (arith, read)

  -- If they have another length, then the result is an error with code invalid_argument that names
  -- the promised length and a count of received bytes that differs from it.
  pub read_all_bytes-IsBroken :
      parse_length_hint hint ≡ some n
      → n ≤ max
      → length (flatten cs) ≢ n
      → IsBroken n (read_all_bytes (of_list cs) max hint)
  unfolding read_all_bytes assert_read_max_bytes
  read_all_bytes-IsBroken h within other =
      let (received, differs, read) =
        read_promised-IsBroken n cs (zeros n) 0 (omega arith) (omega arith) in
      (received, differs, ground (arith, read))

-- the loop without a promise
read_chunks-total :
    (max : ℕ) (cs : List Bytes) (count : ℕ)
    → count ≤ max
    → read_chunks max count (of_list cs) ≡ (
        if leb (count + length (flatten cs)) max
        then ok (cs, count + length (flatten cs))
        else throw_error (read_max_message max 0 false) resource_exhausted)
unfolding read_chunks of_list flatten assert_read_max_bytes read_max_message
read_chunks-total max [] count within = ground arith
read_chunks-total max (c ∷ cs) count within = elim (Bool-cases (ltb max (count + length c))) [
  | inl more ↦ ground (arith, length-append c (flatten cs))
  | inr fits ↦
      let later = read_chunks-total max cs (count + length c) (ground arith) in
      ground (arith, later, length-append c (flatten cs))
]

set_all-flatten :
    (cs : List Bytes) (pre : Bytes) (offset k : ℕ)
    → offset ≡ length pre
    → k ≡ length (flatten cs)
    → set_all (pre ++ zeros k) offset cs ≡ pre ++ flatten cs
unfolding set_all flatten
set_all-flatten [] pre offset k at e = rw e refl
set_all-flatten (c ∷ cs) pre offset k at e =
    let total = length-append c (flatten cs) in
    rw (write-zeros pre c k offset at (omega arith)) (
      set_all-flatten cs (pre ++ c) (offset + length c) (k - length c)
        (omega (arith, length-append pre c)) (omega arith)
      ∙ append_assoc pre c (flatten cs))

-- Without a promised length, the result is all bytes in order if they are within the limit, and
-- otherwise an error with code resource_exhausted that names the limit.
pub read_all_bytes-unknown :
    (max : ℕ) (hint : LengthHint) (cs : List Bytes)
    → parse_length_hint hint ≡ none
    → read_all_bytes (of_list cs) max hint ≡ (
        if leb (length (flatten cs)) max
        then ok (flatten cs)
        else throw_error (read_max_message max 0 false) resource_exhausted)
unfolding read_all_bytes
read_all_bytes-unknown max hint cs h =
    let all = set_all-flatten cs [] 0 (length (flatten cs)) refl refl in
    ground (arith, read_chunks-total max cs 0 (omega arith), all)
