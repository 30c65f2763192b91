-- ===== src/AsyncIterable/Writable/Order.antt =====
-- What the reader of `createWritableIterable` is given, against what was written: a first-in, first-out
-- channel with one end.
use connect_web.Prelude.{
  List, [], ◌∷◌, ◌++◌, ◌≡◌, refl, sym, ap, ◌≢◌, none, some, arith, if◌then◌else◌, append-nil,
  append_assoc,
}
use connect_web.AsyncIterable.Writable.{
  ErrorObject, IteratorResult, value, finished, QueueElement, Writable, Call, writes, closes, reads,
  throws, process, write, close, read_next, throw_into, step, run, create_writable_iterable,
  accepted, received, thrown, rejected, Settled, reject_all,
}
use connect_web.AsyncIterable.Writable.Invariant.{Inv, step-Inv, create-Inv}

module _ {ℓ} {A : Type ℓ} where
  -- what calls send: what is written before the iterable is closed or has failed, and then the end
  abbrev pub sent : List (Call A) → List (IteratorResult A)
  sent [] = []
  sent (writes x ∷ cs) = value x ∷ sent cs
  sent (closes ∷ cs) = finished ∷ []
  sent (reads ∷ cs) = sent cs
  sent (throws e ∷ cs) = []

  -- what calls of `next` resolved with, in order
  abbrev pub delivered : Settled A → List (IteratorResult A)
  delivered [] = []
  delivered ((n, received r) ∷ rest) = r ∷ delivered rest
  delivered ((n, accepted) ∷ rest) = delivered rest
  delivered ((n, thrown r) ∷ rest) = delivered rest
  delivered ((n, rejected e) ∷ rest) = delivered rest

  abbrev pub payloads : List (QueueElement A) → List (IteratorResult A)
  payloads [] = []
  payloads (elem ∷ rest) = elem.payload ∷ payloads rest

  abbrev sent_from : Writable A → List (Call A) → List (IteratorResult A)
  sent_from s cs = if s.closed then [] else elim s.error [ none ↦ sent cs | some e ↦ [] ]

  delivered-append : (l m : Settled A) → delivered (l ++ m) ≡ delivered l ++ delivered m
  delivered-append [] m = refl
  delivered-append ((n, received r) ∷ l) m = ap (◌∷◌ r) (delivered-append l m)
  delivered-append ((n, accepted) ∷ l) m = delivered-append l m
  delivered-append ((n, thrown r) ∷ l) m = delivered-append l m
  delivered-append ((n, rejected e) ∷ l) m = delivered-append l m

  payloads-append : (p q : List (QueueElement A)) → payloads (p ++ q) ≡ payloads p ++ payloads q
  payloads-append [] q = refl
  payloads-append (elem ∷ p) q = ap (◌∷◌ elem.payload) (payloads-append p q)

  delivered-reject_all :
      (e : ErrorObject) (q : List (QueueElement A)) (l : Settled A)
      → delivered (reject_all e q ++ l) ≡ delivered l
  unfolding reject_all
  delivered-reject_all e [] l = refl
  delivered-reject_all e (item ∷ q) l = delivered-reject_all e q l

  -- what is queued and what is sent, against what a call delivers and leaves
  abbrev Conserved : Writable A → Call A → List (Call A) → Type ℓ
  Conserved s c cs =
      payloads s.queue ++ sent_from s (c ∷ cs)
      ≡ delivered (step s c).1 ++ (payloads (step s c).0.queue ++ sent_from (step s c).0 cs)

  write-Conserved :
      (s : Writable A) (x : A) (cs : List (Call A)) → Inv s → Conserved s (writes x) cs
  unfolding step write process
  write-Conserved s x cs h = ground (
    arith,
    payloads-append s.queue (record { payload = value x; writer = s.calls } ∷ []),
    append_assoc (payloads s.queue) (value x ∷ []) (sent cs),
    append-nil (payloads s.queue),
  )

  close-Conserved : (s : Writable A) (cs : List (Call A)) → Inv s → Conserved s closes cs
  unfolding step close process
  close-Conserved s cs h = ground (
    arith,
    payloads-append s.queue (record { payload = finished; writer = s.calls } ∷ []),
    append-nil (payloads s.queue ++ finished ∷ []),
    append-nil (payloads s.queue),
  )

  next-Conserved : (s : Writable A) (cs : List (Call A)) → Inv s → Conserved s reads cs
  unfolding step read_next
  next-Conserved s cs h = ground arith

  error_kept : (s : Writable A) (c : Call A) → (step s c).0.error ≡ none → s.error ≡ none
  unfolding step write process close read_next throw_into
  error_kept s (writes x) h = ground arith
  error_kept s closes h = ground arith
  error_kept s reads h = ground arith
  error_kept s (throws e) h = ground arith

  run-error_kept :
      (s : Writable A) (cs : List (Call A)) → (run s cs).0.error ≡ none → s.error ≡ none
  unfolding run
  run-error_kept s [] h = h
  run-error_kept s (c ∷ cs) h = error_kept s c (run-error_kept (step s c).0 cs h)

  -- an iterable that has failed, with nothing queued, delivers nothing
  failed_step :
      (s : Writable A) (c : Call A) (e : ErrorObject)
      → s.error ≡ some e
      → s.queue ≡ []
      → (x : ErrorObject) × ((step s c).0.error ≡ some x)
        × ((step s c).0.queue ≡ [])
        × (delivered (step s c).1 ≡ [])
  unfolding step write process close read_next throw_into
  failed_step s (writes x) e h q = (e, ground arith, ground arith, ground arith)
  failed_step s closes e h q = (e, ground arith, ground arith, ground arith)
  failed_step s reads e h q = (e, ground arith, ground arith, ground arith)
  failed_step s (throws x) e h q =
      (x, refl, refl, delivered-reject_all x s.queue ((s.calls, thrown finished) ∷ []))

  failed_run :
      (s : Writable A) (cs : List (Call A)) (e : ErrorObject)
      → s.error ≡ some e
      → s.queue ≡ []
      → delivered (run s cs).1 ≡ []
  unfolding run
  failed_run s [] e h q = refl
  failed_run s (c ∷ cs) e h q =
      let (x, h', q', none_now) = failed_step s c e h q in
      rw (delivered-append (step s c).1 (run (step s c).0 cs).1, none_now)
        (failed_run (step s c).0 cs x h' q')

  throw_delivers :
      (s : Writable A) (e : ErrorObject) (cs : List (Call A))
      → delivered (run s (throws e ∷ cs)).1 ≡ []
  unfolding run step throw_into
  throw_delivers s e cs =
      rw
        (
          delivered-append (throw_into s e).1 (run (throw_into s e).0 cs).1,
          delivered-reject_all e s.queue ((s.calls, thrown finished) ∷ []),
        )
        (failed_run (throw_into s e).0 cs e refl refl)

  -- what the reader was not given: `rest` is what is queued, unless the iterable has failed
  abbrev pub Delivers : List (IteratorResult A) → Writable A × Settled A → Type ℓ
  Delivers all r =
      (rest : List (IteratorResult A)) × (delivered r.1 ++ rest ≡ all)
      × (r.0.error ≡ none → rest ≡ payloads r.0.queue)

  conserve :
      (s : Writable A) (c : Call A) (cs : List (Call A))
      → Conserved s c cs
      → Delivers (payloads (step s c).0.queue ++ sent_from (step s c).0 cs) (run (step s c).0 cs)
      → Delivers (payloads s.queue ++ sent_from s (c ∷ cs)) (run s (c ∷ cs))
  unfolding run
  conserve s c cs k (rest, e, h) = (
    rest,
    rw
        (
          delivered-append (step s c).1 (run (step s c).0 cs).1,
          append_assoc (delivered (step s c).1) (delivered (run (step s c).0 cs).1) rest,
          e,
        )
        (sym k),
    h,
  )

  thrown_error :
      (s : Writable A) (e : ErrorObject) (cs : List (Call A))
      → (run s (throws e ∷ cs)).0.error ≢ none
  unfolding run step throw_into
  thrown_error s e cs h = ground (arith, run-error_kept (throw_into s e).0 cs h)

  throws-Delivers :
      (s : Writable A) (e : ErrorObject) (cs : List (Call A))
      → Delivers (payloads s.queue ++ sent_from s (throws e ∷ cs)) (run s (throws e ∷ cs))
  throws-Delivers s e cs = (
    payloads s.queue ++ sent_from s (throws e ∷ cs),
    rw (throw_delivers s e cs) refl,
    λ h. absurd (thrown_error s e cs h),
  )

  pub run-Delivers :
      (s : Writable A) (cs : List (Call A))
      → Inv s
      → Delivers (payloads s.queue ++ sent_from s cs) (run s cs)
  unfolding run
  run-Delivers s [] v = (payloads s.queue, ground (arith, append-nil (payloads s.queue)), λ h. refl)
  run-Delivers s (writes x ∷ cs) v =
      conserve s (writes x) cs (write-Conserved s x cs v)
        (run-Delivers (step s (writes x)).0 cs (step-Inv s (writes x) v))
  run-Delivers s (closes ∷ cs) v =
      conserve s closes cs (close-Conserved s cs v)
        (run-Delivers (step s closes).0 cs (step-Inv s closes v))
  run-Delivers s (reads ∷ cs) v =
      conserve s reads cs (next-Conserved s cs v)
        (run-Delivers (step s reads).0 cs (step-Inv s reads v))
  run-Delivers s (throws e ∷ cs) v = throws-Delivers s e cs

  -- For any calls on a new iterable, what the calls of `next` resolve with is, in order, the first part
  -- of what was written before the iterable was closed or failed, with the end behind it where it was
  -- closed; and the rest of that is what is queued, unless `throw` was called.
  pub run-Delivers-sent :
      (cs : List (Call A)) → Delivers (sent cs) (run create_writable_iterable cs)
  unfolding create_writable_iterable
  run-Delivers-sent cs = run-Delivers create_writable_iterable cs create-Inv
