-- ===== src/AsyncIterable/Writable/Drain.antt =====
-- What happens to the queue of `createWritableIterable` when it is read to its end.
use connect_web.Prelude.{
  ℕ, suc, ◌≤◌, true, List, [], ◌∷◌, ◌++◌, ◌≡◌, refl, sym, ap, inl, inr, none, arith, Bool-cases,
  Option-cases, length, replicate,
}
use mathlib.Core.Path.{subst}
use connect_web.AsyncIterable.Writable.{
  IteratorResult, value, finished, QueueElement, Writable, Call, Settled, accepted, received,
  thrown, rejected, writes, closes, reads, throws, process, write, close, read_next, throw_into,
  step, run, create_writable_iterable,
}
use connect_web.AsyncIterable.Writable.Order.{delivered, payloads}

-- numbers that ascend, from the first on and below the second
abbrev pub AscendingIn : ℕ → ℕ → List ℕ → Type 0
AscendingIn lo hi [] = lo ≤ hi
AscendingIn lo hi (n ∷ ns) = (lo ≤ n) × AscendingIn (suc n) hi ns

AscendingIn-weaken :
    (lo lo' hi : ℕ) (ns : List ℕ) → lo' ≤ lo → AscendingIn lo hi ns → AscendingIn lo' hi ns
AscendingIn-weaken lo lo' hi [] l h = omega arith
AscendingIn-weaken lo lo' hi (n ∷ ns) l (a, b) = (omega arith, b)

AscendingIn-raise : (lo hi : ℕ) (ns : List ℕ) → AscendingIn lo hi ns → AscendingIn lo (suc hi) ns
AscendingIn-raise lo hi [] h = omega arith
AscendingIn-raise lo hi (n ∷ ns) (a, b) = (a, AscendingIn-raise (suc n) hi ns b)

AscendingIn-append :
    (lo hi : ℕ) (ns : List ℕ) → AscendingIn lo hi ns → AscendingIn lo (suc hi) (ns ++ (hi ∷ []))
AscendingIn-append lo hi [] h = (h, omega arith)
AscendingIn-append lo hi (n ∷ ns) (a, b) = (a, AscendingIn-append (suc n) hi ns b)

-- the first element leaves the queue
shorter_queue :
    (n : ℕ) (ns : List ℕ) (hi : ℕ) → AscendingIn 0 hi (n ∷ ns) → AscendingIn 0 (suc hi) ns
shorter_queue n ns hi (a, b) =
    AscendingIn-weaken (suc n) 0 (suc hi) ns (omega arith) (AscendingIn-raise (suc n) hi ns b)

module _ {ℓ} {A : Type ℓ} where
  -- the calls of `write` and `close` whose promises resolve, in order
  abbrev pub acceptances : Settled A → List ℕ
  acceptances [] = []
  acceptances ((n, accepted) ∷ rest) = n ∷ acceptances rest
  acceptances ((n, received r) ∷ rest) = acceptances rest
  acceptances ((n, thrown r) ∷ rest) = acceptances rest
  acceptances ((n, rejected e) ∷ rest) = acceptances rest

  abbrev pub writers : List (QueueElement A) → List ℕ
  writers [] = []
  writers (elem ∷ rest) = elem.writer ∷ writers rest

  next_first :
      (s : Writable A) (elem : QueueElement A) (q : List (QueueElement A))
      → s.queue ≡ elem ∷ q
      → s.error ≡ none
      → ((step s reads).0.queue ≡ q)
        × ((step s reads).0.error ≡ none)
        × ((step s reads).1 ≡ (elem.writer, accepted) ∷ (s.calls, received elem.payload) ∷ [])
  unfolding step read_next
  next_first s elem q h e = ground arith

  -- as many calls of `next` as there are elements in the queue
  drain_all :
      (s : Writable A) (q : List (QueueElement A))
      → s.queue ≡ q
      → s.error ≡ none
      → let r = run s (replicate (length q) reads) in
        (r.0.queue ≡ []) × (acceptances r.1 ≡ writers q) × (delivered r.1 ≡ payloads q)
  unfolding run
  drain_all s [] h e = (h, refl, refl)
  drain_all s (elem ∷ q) h e = ground (arith, next_first s elem q h e, drain_all (step s reads).0 q)

  writers-append :
      (q : List (QueueElement A)) (elem : QueueElement A)
      → writers (q ++ (elem ∷ [])) ≡ writers q ++ (elem.writer ∷ [])
  writers-append [] elem = refl
  writers-append (x ∷ q) elem = ap (◌∷◌ x.writer) (writers-append q elem)

  -- the queue holds the calls of `write` and `close` in the order in which they were made
  abbrev InOrder : Writable A → Type 0
  InOrder s = AscendingIn 0 s.calls (writers s.queue)

  -- a call that leaves the queue as it is
  same_queue :
      (s t : Writable A) → t.queue ≡ s.queue → t.calls ≡ suc s.calls → InOrder s → InOrder t
  same_queue s t q c h = rw q (rw c (AscendingIn-raise 0 s.calls (writers s.queue) h))

  -- one that puts an element at its end
  longer_queue :
      (s t : Writable A) (p : IteratorResult A)
      → t.queue ≡ s.queue ++ (record { payload = p; writer = s.calls } ∷ [])
      → t.calls ≡ suc s.calls
      → InOrder s
      → InOrder t
  longer_queue s t p q c h = rw q (
      rw c (
        rw (writers-append s.queue (record { payload = p; writer = s.calls }))
          (AscendingIn-append 0 s.calls (writers s.queue) h)))

  process-InOrder : (s : Writable A) (p : IteratorResult A) → InOrder s → InOrder (process s p).0
  unfolding process
  process-InOrder s p h = elim (Option-cases s.error) [
    | inl fine ↦ elim (Option-cases s.queue_resolve) [
      | inl nobody ↦ longer_queue s (process s p).0 p (ground arith) (ground arith) h
      | inr (reader, waits) ↦ same_queue s (process s p).0 (ground arith) (ground arith) h
    ]
    | inr (e, failed) ↦ same_queue s (process s p).0 (ground arith) (ground arith) h
  ]

  write-InOrder : (s : Writable A) (x : A) → InOrder s → InOrder (write s x).0
  unfolding write
  write-InOrder s x h = elim (Bool-cases s.closed) [
    | inl shut ↦ same_queue s (write s x).0 (ground arith) (ground arith) h
    | inr opened ↦
        let same : (write s x).0 ≡ (process s (value x)).0 = ground arith in
        subst InOrder (sym same) (process-InOrder s (value x) h)
  ]

  close-InOrder : (s : Writable A) → InOrder s → InOrder (close s).0
  unfolding close
  close-InOrder s h = elim (Bool-cases s.closed) [
    | inl shut ↦ same_queue s (close s).0 (ground arith) (ground arith) h
    | inr opened ↦
        let same : (close s).0 ≡ (process (record s { closed = true }) finished).0 = ground arith in
        subst InOrder (sym same) (process-InOrder (record s { closed = true }) finished h)
  ]

  drop_queue :
      (s t : Writable A) (elem : QueueElement A) (rest : List (QueueElement A))
      → s.queue ≡ elem ∷ rest
      → t.queue ≡ rest
      → t.calls ≡ suc s.calls
      → InOrder s
      → InOrder t
  drop_queue s t elem rest q r c h = rw r (
      rw c (
        shorter_queue elem.writer (writers rest) s.calls
          (subst (λ q. AscendingIn 0 s.calls (writers q)) q h)))

  read_next-InOrder : (s : Writable A) → InOrder s → InOrder (read_next s).0
  unfolding read_next
  read_next-InOrder s h = elim (Option-cases s.error) [
    | inl fine ↦ by_queue s.queue refl fine
    | inr (e, failed) ↦ same_queue s (read_next s).0 (ground arith) (ground arith) h
  ]
    where
      by_queue :
          (q : List (QueueElement A)) → s.queue ≡ q → s.error ≡ none → InOrder (read_next s).0
      by_queue [] q fine = same_queue s (read_next s).0 (ground arith) (ground arith) h
      by_queue (elem ∷ rest) q fine =
          drop_queue s (read_next s).0 elem rest q (ground arith) (ground arith) h

  step-InOrder : (s : Writable A) (c : Call A) → InOrder s → InOrder (step s c).0
  unfolding step throw_into
  step-InOrder s (writes x) h = write-InOrder s x h
  step-InOrder s closes h = close-InOrder s h
  step-InOrder s reads h = read_next-InOrder s h
  step-InOrder s (throws e) h = omega arith

  run-InOrder : (s : Writable A) (cs : List (Call A)) → InOrder s → InOrder (run s cs).0
  unfolding run
  run-InOrder s [] h = h
  run-InOrder s (c ∷ cs) h = run-InOrder (step s c).0 cs (step-InOrder s c h)

  -- After any calls on a new iterable, none of which failed it, as many calls of `next` as there are
  -- elements in the queue empty it. They give the reader all that was queued, in the order of the queue,
  -- and resolve the promises of the calls that queued it in the order in which these calls were made.
  pub drain_queue :
      (cs : List (Call A))
      → let s = (run create_writable_iterable cs).0 in
        s.error ≡ none
        → let r = run s (replicate (length s.queue) reads) in
          (r.0.queue ≡ [])
          × (delivered r.1 ≡ payloads s.queue)
          × (acceptances r.1 ≡ writers s.queue)
          × AscendingIn 0 s.calls (acceptances r.1)
  drain_queue cs e =
      let s = (run create_writable_iterable cs).0 in
      let (empty, settled, read) = drain_all s s.queue refl e in
      let order =
        run-InOrder create_writable_iterable cs (unfold create_writable_iterable in omega arith) in
      (empty, read, settled, rw settled order)
