-- ===== src/AsyncIterable/Writable/Invariant.antt =====
-- What holds of the queue of `createWritableIterable` between two calls.
use connect_web.Prelude.{
  ℕ, Bool, true, false, ◌&&◌, List, [], ◌∷◌, ◌++◌, ◌≡◌, refl, ◌⊎◌, inr, none, arith,
}
use connect_web.AsyncIterable.Writable.{
  ErrorObject, value, finished, QueueElement, Writable, Call, writes, closes, reads, throws,
  process, write, close, read_next, throw_into, step, run, create_writable_iterable,
}

-- an end stands at the end of the queue only, and only once the iterable is closed
abbrev pub well_ended {ℓ} : {A : Type ℓ} → Bool → List (QueueElement A) → Bool
well_ended closed [] = true
well_ended closed (elem ∷ rest) =
    let others = well_ended closed rest in
    elim elem.payload [
      | value x ↦ others
      | finished ↦ closed && elim rest [ [] ↦ true | ◌∷◌ y ys ↦ false ]
    ]

-- While a reader waits, nothing is queued; once `throw` was called, nothing is queued.
pub record Inv {ℓ} {A : Type ℓ} (s : Writable A) : Type ℓ where
  pub waiting_empty : (s.queue_resolve ≡ none) ⊎ (s.queue ≡ [])
  pub failed_empty : (s.error ≡ none) ⊎ (s.queue ≡ [])
  pub ended : well_ended s.closed s.queue ≡ true

module _ {ℓ} {A : Type ℓ} where
  well_ended-value :
      (q : List (QueueElement A)) (x : A) (n : ℕ)
      → well_ended false q ≡ true
      → well_ended false (q ++ record { payload = value x; writer = n } ∷ []) ≡ true
  well_ended-value [] x n h = refl
  well_ended-value (elem ∷ rest) x n h = ground (arith, well_ended-value rest x n)

  well_ended-finished :
      (q : List (QueueElement A)) (n : ℕ)
      → well_ended false q ≡ true
      → well_ended true (q ++ record { payload = finished; writer = n } ∷ []) ≡ true
  well_ended-finished [] n h = refl
  well_ended-finished (elem ∷ rest) n h = ground (arith, well_ended-finished rest n)

  well_ended-tail :
      (c : Bool) (elem : QueueElement A) (rest : List (QueueElement A))
      → well_ended c (elem ∷ rest) ≡ true
      → well_ended c rest ≡ true
  well_ended-tail c elem rest h = ground arith

  pub create-Inv : Inv (create_writable_iterable {A = A})
  unfolding create_writable_iterable
  create-Inv = record { waiting_empty = inr refl; failed_empty = inr refl; ended = refl }

  write-Inv : (s : Writable A) (x : A) → Inv s → Inv (write s x).0
  unfolding write process
  write-Inv s x h = ground (arith, well_ended-value s.queue x s.calls)

  close-Inv : (s : Writable A) → Inv s → Inv (close s).0
  unfolding close process
  close-Inv s h = ground (arith, well_ended-finished s.queue s.calls)

  read_next-Inv : (s : Writable A) → Inv s → Inv (read_next s).0
  unfolding read_next
  read_next-Inv s h = ground (arith, well_ended-tail s.closed)

  throw_into-Inv : (s : Writable A) (e : ErrorObject) → Inv s → Inv (throw_into s e).0
  unfolding throw_into
  throw_into-Inv s e h = record { waiting_empty = inr refl; failed_empty = inr refl; ended = refl }

  -- every call keeps the invariant
  pub step-Inv : (s : Writable A) (c : Call A) → Inv s → Inv (step s c).0
  unfolding step
  step-Inv s (writes x) h = write-Inv s x h
  step-Inv s closes h = close-Inv s h
  step-Inv s reads h = read_next-Inv s h
  step-Inv s (throws e) h = throw_into-Inv s e h

  pub run-Inv : (s : Writable A) (cs : List (Call A)) → Inv s → Inv (run s cs).0
  unfolding run
  run-Inv s [] h = h
  run-Inv s (c ∷ cs) h = run-Inv (step s c).0 cs (step-Inv s c h)

  -- so it holds after any calls on a new iterable
  pub run-create-Inv : (cs : List (Call A)) → Inv (run create_writable_iterable cs).0
  run-create-Inv cs = run-Inv create_writable_iterable cs create-Inv
