-- ===== src/Tests/Writables.antt =====
-- Runs of the queue of `createWritableIterable`.
use connect_web.Prelude.{
  ℕ, ◌+◌, ◌≤◌, true, false, List, [], ◌∷◌, ◌≡◌, refl, inr, none, some, arith, length, replicate,
}
use connect_web.AsyncIterable.Writable.{
  plain, value, finished, Writable, Call, writes, closes, reads, throws, step, run,
  create_writable_iterable, accepted, received,
}
use connect_web.AsyncIterable.Writable.Drain.{drain_queue, acceptances, writers, AscendingIn}
use connect_web.AsyncIterable.Writable.Invariant.{Inv, run-create-Inv}
use connect_web.AsyncIterable.Writable.Order.{payloads, delivered, Delivers, run-Delivers-sent}
use connect_web.AsyncIterable.Writable.Promises.{
  settled, pending, settled_once, settled_or_pending, over_settles_none, next_after_end,
  overlapping_lost,
}

-- a reader that is ahead, then behind
abbrev exchange : List (Call ℕ)
exchange = reads ∷ writes 10 ∷ writes 20 ∷ closes ∷ reads ∷ []

exchanged : run create_writable_iterable exchange ≡ (
  record {
    queue = record { payload = finished; writer = 3 } ∷ [];
    queue_resolve = none;
    error = none;
    closed = true;
    calls = 5;
  },
  (0, received (value 10)) ∷ (1, accepted) ∷ (2, accepted) ∷ (4, received (value 20)) ∷ [],
)
unfolding run step create_writable_iterable
exchanged = refl

run-create-Inv_example : Inv (run create_writable_iterable exchange).0
run-create-Inv_example = run-create-Inv exchange

run-Delivers-sent_example :
    Delivers (value 10 ∷ value 20 ∷ finished ∷ []) (run create_writable_iterable exchange)
run-Delivers-sent_example = run-Delivers-sent exchange

settled_once_example : settled 2 (run create_writable_iterable exchange).1 ≤ 1
settled_once_example = settled_once 2 exchange

settled_or_pending_example :
    settled 3 (run create_writable_iterable exchange).1
      + pending 3 (run create_writable_iterable exchange).0
    ≡ 1
unfolding step create_writable_iterable
settled_or_pending_example = settled_or_pending 3 exchange refl (omega arith)

-- closed, and the end read
abbrev ended : Writable ℕ
ended = record { queue = []; queue_resolve = none; error = none; closed = true; calls = 2 }

next_after_end_example : settled 2 (run ended (reads ∷ reads ∷ throws (plain [] []) ∷ [])).1 ≡ 0
next_after_end_example = next_after_end ended (reads ∷ throws (plain [] []) ∷ []) refl refl refl

-- a reader waits
abbrev awaited : Writable ℕ
awaited = record { queue = []; queue_resolve = some 0; error = none; closed = false; calls = 1 }

-- the reader waits, and `throw` was called
abbrev failed : Writable ℕ
failed = record awaited { error = some (plain [] []); calls = 2 }

over_settles_none_example : settled 0 (run failed (writes 5 ∷ closes ∷ [])).1 ≡ 0
over_settles_none_example =
    over_settles_none 0 failed (writes 5 ∷ closes ∷ []) (refl, inr (λ e. ground (arith, e)))
      (omega arith)

overlapping_lost_example : settled 0 (run awaited (reads ∷ writes 5 ∷ writes 6 ∷ [])).1 ≡ 0
overlapping_lost_example =
    overlapping_lost awaited 0 (writes 5 ∷ writes 6 ∷ []) refl refl refl (omega arith)

abbrev unread : List (Call ℕ)
unread = writes 7 ∷ writes 8 ∷ closes ∷ []

drain_queue_example :
    let s = (run create_writable_iterable unread).0 in
    let r = run s (replicate (length s.queue) reads) in
    (r.0.queue ≡ [])
    × (delivered r.1 ≡ payloads s.queue)
    × (acceptances r.1 ≡ writers s.queue)
    × AscendingIn 0 s.calls (acceptances r.1)
unfolding run step create_writable_iterable
drain_queue_example = drain_queue unread refl
