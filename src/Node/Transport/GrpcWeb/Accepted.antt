-- ===== src/Node/Transport/GrpcWeb/Accepted.antt =====
-- What a client of the gRPC-web protocol accepts, as a stream that ended without an error and as the
-- response of a unary method.
use connect_web.Prelude.{
  Bool, true, false, List, [], ◌∷◌, ◌≡◌, refl, sym, ap, ap₂, ◌∙◌, ◌≢◌, ◌↔◌, ◌⊎◌, inl, inr, Option,
  none, some, arith,
}
use connect_web.Headers.{Headers}
use connect_web.ConnectError.{Reason, Result, ok, err}
use connect_web.Stream.{Stream, done, raise, next, of_list}
use connect_web.AsyncIterable.Transforms.{Parsed, message_value, end_value}
use connect_web.Grpc.TrailerStatus.{StatusLibrary, validate_trailer}
use connect_web.Node.ConnectHandler.Exchange.{with_end}
use connect_web.Node.Transport.GrpcWeb.{no_messages, response_messages, read_messages, one_of_each}

-- the trailer is valid, or its error is thrown
validated :
    (lib : StatusLibrary) (t : Headers)
    → ((u : Unit {0}) × (validate_trailer lib t ≡ ok u))
      ⊎ ((r : Reason) × (validate_trailer lib t ≡ err r))
validated lib t = by_result (validate_trailer lib t) refl
  where
    by_result :
        (r : Result (Unit {0}))
        → validate_trailer lib t ≡ r
        → ((u : Unit {0}) × (validate_trailer lib t ≡ ok u))
          ⊎ ((r : Reason) × (validate_trailer lib t ≡ err r))
    by_result (ok u) e = inl (u, e)
    by_result (err r) e = inr (r, e)

module _ {O : Type 0} (lib : StatusLibrary) where
  raise-of_list : (r : Reason) (xs : List O) → raise r ≢ of_list xs
  unfolding of_list
  raise-of_list r [] e = ground arith
  raise-of_list r (x ∷ xs) e = ground arith

  -- nothing may follow a trailer
  after_trailer :
      (s : Stream (Parsed O Headers)) (xs : List O)
      → read_messages lib true s ≡ of_list xs
      → (s ≡ done) × (xs ≡ [])
  unfolding read_messages of_list
  after_trailer done [] e = (refl, refl)
  after_trailer done (x ∷ xs) e = ground arith
  after_trailer (raise r) xs e = absurd (raise-of_list r xs e)
  after_trailer (next (message_value x) s) [] e = ground arith
  after_trailer (next (message_value x) s) (y ∷ ys) e = ground arith
  after_trailer (next (end_value v) s) [] e = ground arith
  after_trailer (next (end_value v) s) (y ∷ ys) e = ground arith

  at_trailer :
      (t : Headers) (s : Stream (Parsed O Headers)) (r : Result (Unit {0}))
      → validate_trailer lib t ≡ r
      → read_messages lib false (next (end_value t) s)
        ≡ elim r [ err e ↦ raise e | ok u ↦ read_messages lib true s ]
  unfolding read_messages
  at_trailer t s r e = ap (λ r. elim r [ err e ↦ raise e | ok u ↦ read_messages lib true s ]) e

  accepted :
      (s : Stream (Parsed O Headers)) (xs : List O)
      → read_messages lib false s ≡ of_list xs
      → (t : Headers) × (validate_trailer lib t ≡ ok tt) × (s ≡ of_list (with_end xs t))
  unfolding of_list
  accepted done [] e = unfold read_messages in ground arith
  accepted done (x ∷ xs) e = unfold read_messages in ground arith
  accepted (raise r) xs e = unfold read_messages in absurd (raise-of_list r xs e)
  accepted (next (message_value x) s) [] e = unfold read_messages in ground arith
  accepted (next (message_value x) s) (y ∷ ys) e =
      let (same, rest) : (x ≡ y) × (read_messages lib false s ≡ of_list ys) =
        unfold read_messages in ground arith in
      let (t, valid, all) = accepted s ys rest in
      (t, valid, ap₂ (λ x s. next (message_value x) s) same all)
  accepted (next (end_value t) s) xs e = elim (validated lib t) [
    | inl (u, valid) ↦
        let (nothing, empty) = after_trailer s xs (sym (at_trailer t s (ok u) valid) ∙ e) in
        (
          t,
          valid,
          ap₂ (λ s xs. next (end_value t) s) nothing empty
              ∙ ap (λ xs. of_list (with_end xs t)) (sym empty),
        )
    | inr (r, thrown) ↦ absurd (raise-of_list r xs (sym (at_trailer t s (err r) thrown) ∙ e))
  ]

  ends :
      (xs : List O) (t : Headers)
      → validate_trailer lib t ≡ ok tt
      → read_messages lib false (of_list (with_end xs t)) ≡ of_list xs
  unfolding of_list read_messages
  ends [] t e = at_trailer t done (ok tt) e
  ends (x ∷ xs) t e = ap (next x) (ends xs t e)

  -- a response with a status in its header has no message
  nothing :
      (s : Stream (Parsed O Headers)) (xs : List O)
      → no_messages s ≡ of_list xs
      → (s ≡ done) × (xs ≡ [])
  unfolding no_messages of_list
  nothing done [] e = (refl, refl)
  nothing done (x ∷ xs) e = ground arith
  nothing (raise r) xs e = absurd (raise-of_list r xs e)
  nothing (next p s) [] e = ground arith
  nothing (next p s) (x ∷ xs) e = ground arith

  -- what a client is to accept as a stream of messages: nothing where the header has a status, and
  -- otherwise the messages with one valid trailer behind them
  abbrev pub Accepts : Bool → Stream (Parsed O Headers) → List O → Type 0
  Accepts true s xs = (s ≡ done) × (xs ≡ [])
  Accepts false s xs =
      (t : Headers) × (validate_trailer lib t ≡ ok tt) × (s ≡ of_list (with_end xs t))

  -- A client reads a stream to its end, and without an error, exactly if it is empty, where the header of
  -- the response has a status, and otherwise if it is the messages that the client was given and one
  -- trailer behind them, which is valid.
  pub read_web_messages_iff :
      (found : Bool) (s : Stream (Parsed O Headers)) (xs : List O)
      → (response_messages lib found s ≡ of_list xs) ↔ Accepts found s xs
  unfolding response_messages
  read_web_messages_iff true s xs = (
    nothing s xs,
    λ (empty, none_read). ap no_messages empty ∙ unfold no_messages of_list in rw none_read refl,
  )
  read_web_messages_iff false s xs =
      (accepted s xs, λ (t, valid, same). ap (read_messages lib false) same ∙ ends xs t valid)

module _ {O : Type 0} where
  -- one of each was received: nothing may follow
  full :
      (t : Headers) (m : O) (s : Stream (Parsed O Headers)) (u : Option Headers) (n : Option O)
      → one_of_each (some t) (some m) s ≡ ok (u, n)
      → (s ≡ done) × (u ≡ some t) × (n ≡ some m)
  unfolding one_of_each
  full t m done u n e = ground arith
  full t m (raise r) u n e = ground arith
  full t m (next (message_value x) s) u n e = ground arith
  full t m (next (end_value v) s) u n e = ground arith

  trailer_only :
      (t v : Headers) (m : O) (s : Stream (Parsed O Headers))
      → one_of_each (some v) none s ≡ ok (some t, some m)
      → (v ≡ t) × (s ≡ of_list (message_value m ∷ []))
  unfolding one_of_each of_list
  trailer_only t v m done e = ground arith
  trailer_only t v m (raise r) e = ground arith
  trailer_only t v m (next (end_value w) s) e = ground arith
  trailer_only t v m (next (message_value x) s) e =
      let (nothing, a, b) = full v x s (some t) (some m) e in ground arith

  message_only :
      (t : Headers) (m x : O) (s : Stream (Parsed O Headers))
      → one_of_each none (some x) s ≡ ok (some t, some m)
      → (x ≡ m) × (s ≡ of_list (end_value t ∷ []))
  unfolding one_of_each of_list
  message_only t m x done e = ground arith
  message_only t m x (raise r) e = ground arith
  message_only t m x (next (message_value w) s) e = ground arith
  message_only t m x (next (end_value v) s) e =
      let (nothing, a, b) = full v x s (some t) (some m) e in ground arith

  two :
      (t : Headers) (m : O) (s : Stream (Parsed O Headers))
      → one_of_each none none s ≡ ok (some t, some m)
      → (s ≡ of_list (message_value m ∷ end_value t ∷ []))
        ⊎ (s ≡ of_list (end_value t ∷ message_value m ∷ []))
  unfolding one_of_each of_list
  two t m done e = ground arith
  two t m (raise r) e = ground arith
  two t m (next (message_value x) s) e =
      let (a, b) = message_only t m x s e in inl (ap₂ (λ x s. next (message_value x) s) a b)
  two t m (next (end_value v) s) e =
      let (a, b) = trailer_only t v m s e in inr (ap₂ (λ v s. next (end_value v) s) a b)

  -- A unary response has a message and a trailer exactly if it is these two, in one order or the other.
  pub one_of_each_iff :
      (t : Headers) (m : O) (s : Stream (Parsed O Headers))
      → (one_of_each none none s ≡ ok (some t, some m)) ↔ (
          (s ≡ of_list (message_value m ∷ end_value t ∷ []))
          ⊎ (s ≡ of_list (end_value t ∷ message_value m ∷ [])))
  one_of_each_iff t m s = (
    two t m s,
    λ e. elim e [
      | inl e ↦ ap (one_of_each none none) e ∙ unfold one_of_each of_list in refl
      | inr e ↦ ap (one_of_each none none) e ∙ unfold one_of_each of_list in refl
    ],
  )
