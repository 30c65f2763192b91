-- ===== src/AsyncIterable/Split/Chunks.antt =====
-- What `transformSplitEnvelope` yields for a source of any chunks: it depends on the bytes alone, and
-- gives back the envelopes whose frames the bytes are.
use connect_web.Prelude.{
  ℕ, suc, List, [], ◌∷◌, ◌++◌, ◌≡◌, refl, sym, ap, ap₂, ◌∙◌, arith, length, append-nil,
  append_assoc,
}
use mathlib.Core.List.{flatten, append_cancel_left}
use connect_web.ConnectError.{Bytes, Result, ok, err}
use connect_web.Envelope.{EnvelopedMessage}
use connect_web.Stream.{Stream, raise, of_list, prepend, prepend-append}
use connect_web.AsyncIterable.Split.{
  peek_header, Drained, drain, drain_all, finish, split_from, transform_split_envelope,
}
use connect_web.AsyncIterable.Split.Drain.{Buffer-cases, drain-append, resume}

-- what is yielded once the source has ended
unfoldable pub ended : Result Bytes → Stream EnvelopedMessage
ended (err e) = raise e
ended (ok rest) = finish rest

unfoldable pub outcome : Drained → Stream EnvelopedMessage
outcome (envs, end) = prepend envs (ended end)

drain_all-append :
    (max : ℕ) (buf bytes : Bytes)
    → drain_all max (buf ++ bytes) ≡ resume max bytes (drain_all max buf)
drain_all-append max buf bytes =
    drain-append (suc (length buf)) (suc (length (buf ++ bytes))) max (Buffer-cases buf) bytes
      (omega arith) (omega arith)

resume_end :
    (max : ℕ) (part : Drained) (rest : Bytes)
    → part ≡ resume max [] part
    → part.1 ≡ ok rest
    → drain_all max rest ≡ ([], ok rest)
resume_end max (envs, err e) rest h k = cc
resume_end max (envs, ok left) rest h k =
    let e : left ≡ rest = cc in
    let (later, end) = drain_all max (left ++ []) in
    let same : envs ++ [] ≡ envs ++ later = append-nil envs ∙ ap (λ (d : Drained). d.0) h in
    let none_later : [] ≡ later = append_cancel_left envs [] later same in
    let last : end ≡ ok left = sym (ap (λ (d : Drained). d.1) h) in
    rw (← e)
      (ap (drain_all max) (sym (append-nil left)) ∙ ap₂ (λ x y. (x, y)) (sym none_later) last)

-- A remainder is drained: nothing more can be taken from it.
remainder_drained :
    (max : ℕ) (buf rest : Bytes)
    → (drain_all max buf).1 ≡ ok rest
    → drain_all max rest ≡ ([], ok rest)
remainder_drained max buf rest h =
    resume_end max (drain_all max buf) rest
      (ap (drain_all max) (sym (append-nil buf)) ∙ drain_all-append max buf []) h

outcome-resume :
    (max : ℕ) (part : Drained) (bytes : Bytes) (source : Stream Bytes)
    → ((rest : Bytes)
        → part.1 ≡ ok rest
        → split_from max rest source ≡ outcome (drain_all max (rest ++ bytes)))
    → prepend part.0 (elim part.1 [ err e ↦ raise e | ok rest ↦ split_from max rest source ])
      ≡ outcome (resume max bytes part)
unfolding outcome ended
outcome-resume max (envs, err e) bytes source h = refl
outcome-resume max (envs, ok rest) bytes source h =
    ap (prepend envs) (h rest refl)
    ∙ sym (
        prepend-append envs (drain_all max (rest ++ bytes)).0
          (ended (drain_all max (rest ++ bytes)).1))

split_from-outcome :
    (max : ℕ) (cs : List Bytes) (buf : Bytes)
    → drain_all max buf ≡ ([], ok buf)
    → split_from max buf (of_list cs) ≡ outcome (drain_all max (buf ++ flatten cs))
unfolding split_from of_list outcome ended flatten prepend
split_from-outcome max [] buf h = rw (append-nil, h) refl
split_from-outcome max (c ∷ cs) buf h =
    outcome-resume max (drain_all max (buf ++ c)) (flatten cs) (of_list cs)
      (λ rest e. split_from-outcome max cs rest (remainder_drained max (buf ++ c) rest e))
    ∙ ap outcome (
        sym (drain_all-append max (buf ++ c) (flatten cs))
        ∙ ap (drain_all max) (append_assoc buf c (flatten cs)))

pub transform_split_envelope-outcome :
    (max : ℕ) (cs : List Bytes)
    → transform_split_envelope max (of_list cs) ≡ outcome (drain_all max (flatten cs))
unfolding transform_split_envelope
transform_split_envelope-outcome max cs =
    split_from-outcome max cs [] (unfold drain peek_header in refl)

-- The envelopes depend on the bytes of the source and not on how it is cut into chunks: two lists
-- of chunks that hold the same bytes give the same elements and the same end or error.
pub split_chunks_irrelevant :
    (max : ℕ) (cs ds : List Bytes)
    → flatten cs ≡ flatten ds
    → transform_split_envelope max (of_list cs) ≡ transform_split_envelope max (of_list ds)
split_chunks_irrelevant max cs ds e =
    transform_split_envelope-outcome max cs
    ∙ ap (λ b. outcome (drain_all max b)) e
    ∙ sym (transform_split_envelope-outcome max ds)
