-- ===== src/AsyncIterable/Split/Drain.antt =====
-- The inner loop of `transformSplitEnvelope`: one round on a buffer with a header, enough fuel, and
-- what more bytes at the end of the buffer change.
use connect_web.Prelude.{
  ℕ, zero, suc, ◌+◌, ◌≤◌, ◌<◌, true, false, List, [], ◌∷◌, ◌++◌, ◌≡◌, refl, sym, ap, ◌∙◌, ◌⊎◌, inl,
  inr, none, some, arith, ltb, if◌then◌else◌, Bool-cases, length, length-append, take, drop,
  length-drop,
}
use connect_web.ConnectError.{Result, Bytes, Reason, ok, err}
use connect_web.Compression.{assert_read_max_bytes}
use connect_web.Envelope.{EnvelopedMessage}
use connect_web.AsyncIterable.Split.{
  Header, get_uint32, drain_all, peek_header, shift_envelope, Drained, drain,
}

-- a buffer has a whole header, or fewer than five bytes
pub data Buffer : Bytes → Type 0 where
  short : {buf : Bytes} → peek_header buf ≡ none → Buffer buf
  whole : (f a b c d : ℕ) (rest : Bytes) → Buffer (f ∷ a ∷ b ∷ c ∷ d ∷ rest)

pub Buffer-cases : (buf : Bytes) → Buffer buf
unfolding peek_header
Buffer-cases [] = short refl
Buffer-cases (f ∷ []) = short refl
Buffer-cases (f ∷ a ∷ []) = short refl
Buffer-cases (f ∷ a ∷ b ∷ []) = short refl
Buffer-cases (f ∷ a ∷ b ∷ c ∷ []) = short refl
Buffer-cases (f ∷ a ∷ b ∷ c ∷ d ∷ rest) = whole f a b c d rest

-- an envelope in front of what else is drained
abbrev pub push : EnvelopedMessage → Drained → Drained
push env (envs, end) = (env ∷ envs, end)

pub drain-short :
    (fuel max : ℕ) (buf : Bytes) → peek_header buf ≡ none → drain fuel max buf ≡ ([], ok buf)
unfolding drain
drain-short zero max buf e = refl
drain-short (suc fuel) max buf e = ground (arith)

drop_five :
    (n : ℕ) (f a b c d : ℕ) (rest : Bytes) → drop (5 + n) (f ∷ a ∷ b ∷ c ∷ d ∷ rest) ≡ drop n rest
drop_five n f a b c d rest =
    let e : 5 + n ≡ suc (suc (suc (suc (suc n)))) = omega arith in
    ap (λ k. drop k (f ∷ a ∷ b ∷ c ∷ d ∷ rest)) e

module _ (f : ℕ) (rest : Bytes) (header : Header) (a b c d : ℕ) where
  abbrev buf : Bytes
  buf = f ∷ a ∷ b ∷ c ∷ d ∷ rest

  shift-few : ltb (length rest) header.size ≡ true → shift_envelope buf header ≡ (none, buf)
  unfolding shift_envelope
  shift-few few = ground arith

  shift-enough :
      ltb (length rest) header.size ≡ false
      → shift_envelope buf header ≡ (
        some (record { flags = header.flags; payload = take header.size rest }),
        drop header.size rest,
      )
  unfolding shift_envelope
  shift-enough enough = ground (arith, drop_five header.size f a b c d rest)

-- what a round does on a buffer with a header for `n` bytes of payload
-- `later` is what draining the rest of the buffer gives
abbrev pub round_on : Drained → ℕ → ℕ → ℕ → Bytes → Bytes → Drained
round_on later max n flags rest buf = elim (assert_read_max_bytes max n true) [
  | err e ↦ ([], err e)
  | ok _ ↦
      if ltb (length rest) n
      then ([], ok buf)
      else push (record { flags = flags; payload = take n rest }) later
]

abbrev pub round : ℕ → ℕ → ℕ → ℕ → Bytes → Bytes → Drained
round fuel max n flags rest buf = round_on (drain fuel max (drop n rest)) max n flags rest buf

pub drain-header :
    (fuel max f a b c d : ℕ) (rest : Bytes)
    → drain (suc fuel) max (f ∷ a ∷ b ∷ c ∷ d ∷ rest)
      ≡ round fuel max (get_uint32 a b c d) f rest (f ∷ a ∷ b ∷ c ∷ d ∷ rest)
unfolding drain
drain-header fuel max f a b c d rest = elim (Bool-cases (ltb (length rest) (get_uint32 a b c d))) [
  | inl few ↦
      ground (arith, shift-few f rest (record { size = get_uint32 a b c d; flags = f }) a b c d few)
  | inr enough ↦
      ground (
        arith,
        shift-enough f rest (record { size = get_uint32 a b c d; flags = f }) a b c d enough,
      )
]

module _ (fuel max f a b c d : ℕ) (rest : Bytes) where
  abbrev size : ℕ
  size = get_uint32 a b c d

  pub drain-error :
      {e : Reason}
      → assert_read_max_bytes max size true ≡ err e
      → drain (suc fuel) max (f ∷ a ∷ b ∷ c ∷ d ∷ rest) ≡ ([], err e)
  drain-error h = drain-header fuel max f a b c d rest ∙ ground arith

  pub drain-few :
      assert_read_max_bytes max size true ≡ ok tt
      → ltb (length rest) size ≡ true
      → drain (suc fuel) max (f ∷ a ∷ b ∷ c ∷ d ∷ rest) ≡ ([], ok (f ∷ a ∷ b ∷ c ∷ d ∷ rest))
  drain-few h few = drain-header fuel max f a b c d rest ∙ ground arith

  pub drain-enough :
      assert_read_max_bytes max size true ≡ ok tt
      → ltb (length rest) size ≡ false
      → drain (suc fuel) max (f ∷ a ∷ b ∷ c ∷ d ∷ rest)
        ≡ push (record { flags = f; payload = take size rest }) (drain fuel max (drop size rest))
  drain-enough h enough = drain-header fuel max f a b c d rest ∙ ground arith

unit-cases : (r : Result (Unit {0})) → (r ≡ ok tt) ⊎ ((e : Reason) × (r ≡ err e))
unit-cases (ok _) = inl refl
unit-cases (err e) = inr (e, refl)

-- Any fuel above the length of the buffer gives the same result.
pub drain_fuel :
    (fuel more max : ℕ) {buf : Bytes} (v : Buffer buf)
    → length buf < fuel
    → length buf < more
    → drain fuel max buf ≡ drain more max buf
drain_fuel zero more max v h k = absurd (omega arith)
drain_fuel (suc fuel) zero max v h k = absurd (omega arith)
drain_fuel (suc fuel) (suc more) max {buf} (short e) h k =
    drain-short (suc fuel) max buf e ∙ sym (drain-short (suc more) max buf e)
drain_fuel (suc fuel) (suc more) max (whole f a b c d rest) h k =
    let n = get_uint32 a b c d in
    rw (drain-header fuel max f a b c d rest, drain-header more max f a b c d rest)
      (ap (λ r. round_on r max n f rest (f ∷ a ∷ b ∷ c ∷ d ∷ rest))
        (drain_fuel fuel more max (Buffer-cases (drop n rest)) (omega (arith, length-drop n rest))
          (omega (arith, length-drop n rest))))

module _ {A : Type 0} where
  take-append_left : (n : ℕ) (xs ys : List A) → n ≤ length xs → take n (xs ++ ys) ≡ take n xs
  take-append_left zero xs ys h = refl
  take-append_left (suc n) [] ys h = absurd (omega arith)
  take-append_left (suc n) (x ∷ xs) ys h = ap (◌∷◌ x) (take-append_left n xs ys (omega arith))

  drop-append_left : (n : ℕ) (xs ys : List A) → n ≤ length xs → drop n (xs ++ ys) ≡ drop n xs ++ ys
  drop-append_left zero xs ys h = refl
  drop-append_left (suc n) [] ys h = absurd (omega arith)
  drop-append_left (suc n) (x ∷ xs) ys h = drop-append_left n xs ys (omega arith)

-- what is drained when more bytes arrive
abbrev pub resume : ℕ → Bytes → Drained → Drained
resume max more (envs, err e) = (envs, err e)
resume max more (envs, ok rest) =
    let (later, end) = drain_all max (rest ++ more) in (envs ++ later, end)

push-resume :
    (max : ℕ) (bytes : Bytes) (env : EnvelopedMessage) (all part : Drained)
    → all ≡ resume max bytes part
    → push env all ≡ resume max bytes (push env part)
push-resume max bytes env all (envs, ok rest) e = rw e
push-resume max bytes env all (envs, err r) e = rw e

-- nothing was taken from the buffer
drain_rest :
    (more max : ℕ) (buf bytes : Bytes)
    → length (buf ++ bytes) < suc more
    → drain (suc more) max (buf ++ bytes) ≡ resume max bytes ([], ok buf)
drain_rest more max buf bytes k =
    drain_fuel (suc more) (suc (length (buf ++ bytes))) max (Buffer-cases (buf ++ bytes)) k
      (omega arith)

-- Draining all bytes at once gives what draining a first part, and then its remainder with the
-- other bytes, gives.
pub drain-append :
    (fuel more max : ℕ) {buf : Bytes} (v : Buffer buf) (bytes : Bytes)
    → length buf < fuel
    → length (buf ++ bytes) < more
    → drain more max (buf ++ bytes) ≡ resume max bytes (drain fuel max buf)
drain-append zero more max v bytes h k = absurd (omega arith)
drain-append (suc fuel) zero max v bytes h k = absurd (omega arith)
drain-append (suc fuel) (suc more) max {buf} (short e) bytes h k =
    rw (drain-short (suc fuel) max buf e) (drain_rest more max buf bytes k)
drain-append (suc fuel) (suc more) max (whole f a b c d rest) bytes h k =
    let n = get_uint32 a b c d in
    let buf = f ∷ a ∷ b ∷ c ∷ d ∷ rest in
    elim (unit-cases (assert_read_max_bytes max n true)) [
      | inr (e, large) ↦ rw (
        drain-error fuel max f a b c d rest large,
        drain-error more max f a b c d (rest ++ bytes) large,
      )
      | inl fits ↦ elim (Bool-cases (ltb (length rest) n)) [
        | inl few ↦
            rw (drain-few fuel max f a b c d rest fits few) (drain_rest more max buf bytes k)
        | inr enough ↦
            drain-enough more max f a b c d (rest ++ bytes) fits
              (ground (arith, length-append rest bytes))
            ∙ rw
                (
                  take-append_left n rest bytes (ground arith),
                  drop-append_left n rest bytes (ground arith),
                  drain-enough fuel max f a b c d rest fits enough,
                )
                (push-resume max bytes (record { flags = f; payload = take n rest }) _ _
                  (drain-append fuel more max (Buffer-cases (drop n rest)) bytes
                    (omega (arith, length-drop n rest))
                    (omega (
                      arith,
                      length-append (drop n rest) bytes,
                      length-append rest bytes,
                      length-drop n rest,
                    ))))
      ]
    ]
