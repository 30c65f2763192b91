-- ===== src/AsyncIterable/Writable/Promises.antt =====
-- Which promises of `createWritableIterable` are settled: none twice, and, with one reader at a time, all
-- but those that wait.
use connect_web.Prelude.{
  ℕ, suc, ◌+◌, ◌≤◌, ◌<◌, Bool, true, false, not, ◌&&◌, List, [], ◌∷◌, ◌++◌, ◌≡◌, refl, ◌≢◌, ◌⊎◌,
  Option, none, some, arith, leb, ltb, ◌==◌, if◌then◌else◌, length,
}
use connect_web.AsyncIterable.Writable.{
  ErrorObject, value, finished, QueueElement, Writable, Call, writes, closes, reads, throws,
  process, write, close, read_next, throw_into, step, run, create_writable_iterable, thrown,
  Settled, reject_all,
}

abbrev pub waiting : ℕ → Option ℕ → ℕ
waiting k none = 0
waiting k (some reader) = if k == reader then 1 else 0

-- the call in hand
abbrev here : ℕ → ℕ → ℕ
here k n = if k == n then 1 else 0

-- how often call `k` is made from now on
abbrev made : ℕ → ℕ → ℕ
made k n = if leb n k then 1 else 0

made-le : (k n : ℕ) → made k n ≤ 1
made-le k n = ground arith

module _ {ℓ} {A : Type ℓ} where
  -- how often the promise of call `k` is settled
  abbrev pub settled : ℕ → Settled A → ℕ
  settled k [] = 0
  settled k ((n, o) ∷ rest) = (if k == n then 1 else 0) + settled k rest

  abbrev pub queued : ℕ → List (QueueElement A) → ℕ
  queued k [] = 0
  queued k (elem ∷ rest) = (if k == elem.writer then 1 else 0) + queued k rest

  -- how often the functions that settle the promise of call `k` are kept
  abbrev pub pending : ℕ → Writable A → ℕ
  pending k s = queued k s.queue + waiting k s.queue_resolve

  settled-append : (k : ℕ) (l m : Settled A) → settled k (l ++ m) ≡ settled k l + settled k m
  settled-append k [] m = omega arith
  settled-append k ((n, o) ∷ l) m = omega (arith, settled-append k l m)

  queued-append :
      (k : ℕ) (p q : List (QueueElement A)) → queued k (p ++ q) ≡ queued k p + queued k q
  queued-append k [] q = omega arith
  queued-append k (elem ∷ p) q = omega (arith, queued-append k p q)

  settled-reject_all :
      (k : ℕ) (e : ErrorObject) (q : List (QueueElement A))
      → settled k (reject_all e q) ≡ queued k q
  unfolding reject_all
  settled-reject_all k e [] = refl
  settled-reject_all k e (item ∷ q) = omega (arith, settled-reject_all k e q)

  -- a call of `next` that takes the place of one that waits
  abbrev pub overlaps : Writable A → Call A → Bool
  overlaps s reads = elim s.error [
    | some e ↦ false
    | none ↦ elim s.queue [
      | ◌∷◌ x xs ↦ false
      | [] ↦ elim s.queue_resolve [ none ↦ false | some r ↦ true ]
    ]
  ]
  overlaps s (writes x) = false
  overlaps s closes = false
  overlaps s (throws e) = false

  step_settles :
      (k : ℕ) (s : Writable A) (c : Call A)
      → overlaps s c ≡ false
      → settled k (step s c).1 + pending k (step s c).0 ≡ pending k s + here k s.calls
  unfolding step write process close read_next throw_into
  step_settles k s (writes x) h =
      ground (arith, queued-append k s.queue (record { payload = value x; writer = s.calls } ∷ []))
  step_settles k s closes h =
      ground (arith, queued-append k s.queue (record { payload = finished; writer = s.calls } ∷ []))
  step_settles k s reads h = ground arith
  step_settles k s (throws e) h = omega (
    arith,
    settled-append k (reject_all e s.queue) ((s.calls, thrown finished) ∷ []),
    settled-reject_all k e s.queue,
  )

  step_settles_le :
      (k : ℕ) (s : Writable A) (c : Call A)
      → settled k (step s c).1 + pending k (step s c).0 ≤ pending k s + here k s.calls
  unfolding step write process close read_next throw_into
  step_settles_le k s (writes x) = omega (arith, step_settles k s (writes x) refl)
  step_settles_le k s closes = omega (arith, step_settles k s closes refl)
  step_settles_le k s reads = ground arith
  step_settles_le k s (throws e) = omega (arith, step_settles k s (throws e) refl)

  step-calls : (s : Writable A) (c : Call A) → (step s c).0.calls ≡ suc s.calls
  unfolding step write process close read_next throw_into
  step-calls s (writes x) = ground arith
  step-calls s closes = ground arith
  step-calls s reads = ground arith
  step-calls s (throws e) = refl

  pub run_settles :
      (k : ℕ) (s : Writable A) (cs : List (Call A))
      → settled k (run s cs).1 + pending k (run s cs).0 ≤ pending k s + made k s.calls
  unfolding run
  run_settles k s [] = omega arith
  run_settles k s (c ∷ cs) = ground (
    arith,
    settled-append k (step s c).1 (run (step s c).0 cs).1,
    step_settles_le k s c,
    step-calls s c,
    run_settles k (step s c).0 cs,
  )

  -- No promise is settled twice, whatever the calls on a new iterable.
  pub settled_once :
      (k : ℕ) (cs : List (Call A)) → settled k (run create_writable_iterable cs).1 ≤ 1
  unfolding create_writable_iterable
  settled_once k cs = omega (arith, made-le k 0, run_settles k create_writable_iterable cs)

  -- no call of `next` is made while another waits
  abbrev pub one_reader : Writable A → List (Call A) → Bool
  unfolding step
  one_reader s [] = true
  one_reader s (c ∷ cs) = not (overlaps s c) && one_reader (step s c).0 cs

  run_accounts :
      (k : ℕ) (s : Writable A) (cs : List (Call A))
      → one_reader s cs ≡ true
      → settled k (run s cs).1 + pending k (run s cs).0
        ≡ pending k s + (if leb s.calls k && ltb k (s.calls + length cs) then 1 else 0)
  unfolding run
  run_accounts k s [] h = ground arith
  run_accounts k s (c ∷ cs) h = ground (
    arith,
    settled-append k (step s c).1 (run (step s c).0 cs).1,
    step_settles k s c,
    step-calls s c,
    run_accounts k (step s c).0 cs,
  )

  -- With one reader at a time, the promise of every call is settled once or waits: none is lost.
  pub settled_or_pending :
      (k : ℕ) (cs : List (Call A))
      → one_reader create_writable_iterable cs ≡ true
      → k < length cs
      → settled k (run create_writable_iterable cs).1
          + pending k (run create_writable_iterable cs).0
        ≡ 1
  unfolding create_writable_iterable
  settled_or_pending k cs h l = ground (arith, run_accounts k create_writable_iterable cs h)

  -- Closed and read to the end, or failed.
  abbrev pub IsOver : Writable A → Type ℓ
  IsOver s = (s.queue ≡ []) × ((s.closed ≡ true) ⊎ (s.error ≢ none))

  IsOver-step :
      (k : ℕ) (s : Writable A) (c : Call A)
      → IsOver s
      → k < s.calls
      → (settled k (step s c).1 ≡ 0) × IsOver (step s c).0
  unfolding step write process close read_next throw_into reject_all
  IsOver-step k s (writes x) h l = ground arith
  IsOver-step k s closes h l = ground arith
  IsOver-step k s reads h l = ground arith
  IsOver-step k s (throws e) h l = ground arith

  -- Once the iterable is over, a promise given out before is never settled: so a call of `next` that
  -- waits when `throw` is called waits forever.
  pub over_settles_none :
      (k : ℕ) (s : Writable A) (cs : List (Call A))
      → IsOver s
      → k < s.calls
      → settled k (run s cs).1 ≡ 0
  unfolding run
  over_settles_none k s [] h l = refl
  over_settles_none k s (c ∷ cs) h l =
      let (none_now, over) = IsOver-step k s c h l in
      omega (
        arith,
        settled-append k (step s c).1 (run (step s c).0 cs).1,
        none_now,
        over_settles_none k (step s c).0 cs over (omega (arith, step-calls s c)),
      )

  nothing_now :
      (s : Writable A) → s.queue ≡ [] → s.error ≡ none → settled s.calls (step s reads).1 ≡ 0
  unfolding step read_next
  nothing_now s q e = ground arith

  next-IsOver :
      (s : Writable A) → s.queue ≡ [] → s.closed ≡ true → s.error ≡ none → IsOver (step s reads).0
  unfolding step read_next
  next-IsOver s q c e = ground arith

  -- A call of `next` behind the end is never answered, where the iterable is closed.
  pub next_after_end :
      (s : Writable A) (cs : List (Call A))
      → s.queue ≡ []
      → s.closed ≡ true
      → s.error ≡ none
      → settled s.calls (run s (reads ∷ cs)).1 ≡ 0
  unfolding run
  next_after_end s cs q c e = omega (
    arith,
    settled-append s.calls (step s reads).1 (run (step s reads).0 cs).1,
    nothing_now s q e,
    over_settles_none s.calls (step s reads).0 cs (next-IsOver s q c e)
        (omega (arith, step-calls s reads)),
  )

  overlapped :
      (s : Writable A) (r : ℕ)
      → s.queue ≡ []
      → s.error ≡ none
      → s.queue_resolve ≡ some r
      → r < s.calls
      → (settled r (step s reads).1 ≡ 0) × (pending r (step s reads).0 ≡ 0)
  unfolding step read_next
  overlapped s r q e w l = ground arith

  -- A call of `next` while another one waits takes its place: the promise of the first is never settled.
  pub overlapping_lost :
      (s : Writable A) (r : ℕ) (cs : List (Call A))
      → s.queue ≡ []
      → s.error ≡ none
      → s.queue_resolve ≡ some r
      → r < s.calls
      → settled r (run s (reads ∷ cs)).1 ≡ 0
  unfolding run
  overlapping_lost s r cs q e w l = ground (
    arith,
    settled-append r (step s reads).1 (run (step s reads).0 cs).1,
    overlapped s r q e w l,
    run_settles r (step s reads).0 cs,
    step-calls s reads,
  )
