-- ===== src/Node/Transport/Connect/Accepted.antt =====
-- What a client of the Connect protocol accepts as a stream that ended without an error.
use connect_web.Prelude.{
  true, false, List, [], ◌∷◌, ◌≡◌, refl, sym, ap, ap₂, ◌∙◌, ◌≢◌, ◌↔◌, inl, inr, none, arith,
  Option-cases,
}
use connect_web.ConnectError.{connect_error, Reason}
use connect_web.Stream.{Stream, done, raise, next, of_list}
use connect_web.AsyncIterable.Transforms.{Parsed, message_value, end_value}
use connect_web.Connect.EndStream.{EndStreamResponse}
use connect_web.Node.ConnectHandler.Exchange.{with_end}
use connect_web.Node.Transport.Connect.{read_messages}

module _ {O : Type 0} where
  raise-of_list : (r : Reason) (xs : List O) → raise r ≢ of_list xs
  unfolding of_list
  raise-of_list r [] e = ground arith
  raise-of_list r (x ∷ xs) e = ground arith

  -- nothing may follow an end
  after_end :
      (s : Stream (Parsed O EndStreamResponse)) (xs : List O)
      → read_messages true s ≡ of_list xs
      → (s ≡ done) × (xs ≡ [])
  unfolding read_messages of_list
  after_end done [] e = (refl, refl)
  after_end done (x ∷ xs) e = ground arith
  after_end (raise r) [] e = ground arith
  after_end (raise r) (x ∷ xs) e = ground arith
  after_end (next (message_value x) s) [] e = ground arith
  after_end (next (message_value x) s) (y ∷ ys) e = ground arith
  after_end (next (end_value v) s) [] e = ground arith
  after_end (next (end_value v) s) (y ∷ ys) e = ground arith

  accepted :
      (s : Stream (Parsed O EndStreamResponse)) (xs : List O)
      → read_messages false s ≡ of_list xs
      → (v : EndStreamResponse) × (v.error ≡ none) × (s ≡ of_list (with_end xs v))
  unfolding read_messages of_list
  accepted done [] e = ground arith
  accepted done (x ∷ xs) e = ground arith
  accepted (raise r) [] e = ground arith
  accepted (raise r) (x ∷ xs) e = ground arith
  accepted (next (message_value x) s) [] e = ground arith
  accepted (next (message_value x) s) (y ∷ ys) e =
      let (same, rest) : (x ≡ y) × (read_messages false s ≡ of_list ys) = ground arith in
      let (v, no_error, all) = accepted s ys rest in
      (v, no_error, ap₂ (λ x s. next (message_value x) s) same all)
  accepted (next (end_value v) s) xs e = elim (Option-cases v.error) [
    | inl no_error ↦
        let rest : read_messages true s ≡ of_list xs = ground arith in
        let (nothing, empty) = after_end s xs rest in
        (
          v,
          no_error,
          ap₂ (λ s xs. next (end_value v) s) nothing empty
              ∙ ap (λ xs. of_list (with_end xs v)) (sym empty),
        )
    | inr (r, failed) ↦
        let end : raise (connect_error r) ≡ of_list xs = ground arith in
        absurd (raise-of_list (connect_error r) xs end)
  ]

  ends :
      (xs : List O) (v : EndStreamResponse)
      → v.error ≡ none
      → read_messages false (of_list (with_end xs v)) ≡ of_list xs
  unfolding read_messages of_list
  ends [] v e = ground arith
  ends (x ∷ xs) v e = ap (next x) (ends xs v e)

  -- A client reads a stream to its end, and without an error, exactly if it is the messages that it was
  -- given and one end behind them, which has no error. It refuses a stream without an end, with two ends,
  -- and with a message behind the end.
  pub read_messages_iff :
      (s : Stream (Parsed O EndStreamResponse)) (xs : List O)
      → (read_messages false s ≡ of_list xs)
        ↔ ((v : EndStreamResponse) × (v.error ≡ none) × (s ≡ of_list (with_end xs v)))
  read_messages_iff s xs =
      (accepted s xs, λ (v, no_error, same). ap (read_messages false) same ∙ ends xs v no_error)
