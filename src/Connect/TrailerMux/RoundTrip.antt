-- ===== src/Connect/TrailerMux/RoundTrip.antt =====
-- Trailers survive the way through the header of a unary response.
use connect_web.Headers.Laws.{copy_self, IsClean, lookup-insert}
use connect_web.Text.Equality.{===_iff}
use connect_web.Headers.Order.{lookup_nil, headers_ext, insert-IsSorted, lookup-Above, IsSorted}
use connect_web.ConnectError.{◌>>=◌, ok_then, ok}
use connect_web.Headers.{insert, Headers, lookup}
use connect_web.Connect.TrailerMux.{
  trailer_demux, trailer_mux, demux_from, trailer_prefix, mux_from,
}
use connect_web.Prelude.{
  ℕ, zero, suc, true, false, [], ◌∷◌, ◌++◌, ◌≡◌, refl, sym, ap, ap₂, ◌∙◌, inl, inr, Option, none,
  some, arith, if◌then◌else◌, Bool-cases, ==_iff, length, drop,
}
use connect_web.Text.{◌===◌, to_lower_case, starts_with, Text}
use connect_web.Connect.TrailerMux.Muxed.{
  set-IsStored, muxed, mux_from-muxed, first_of, lookup-muxed_trailer, lookup-muxed_plain,
  muxed-AllDemuxable, plain-AllDemuxable, muxed-IsSorted, AllStored, AllPlain, AllDemuxable,
}

starts_with-append : (s t : Text) → starts_with s t ≡ true → t ≡ s ++ drop (length s) t
unfolding starts_with
starts_with-append [] t h = refl
starts_with-append (a ∷ s) [] h = cc h
starts_with-append (a ∷ s) (b ∷ t) h =
    let same : a ≡ b = ground (arith, ==_iff a b) in
    let rest : starts_with s t ≡ true = ground arith in
    ap₂ (λ x y. x ∷ y) (sym same) (starts_with-append s t rest)

lower_drop : (n : ℕ) (k : Text) → to_lower_case k ≡ k → to_lower_case (drop n k) ≡ drop n k
lower_drop zero [] l = refl
lower_drop (suc n) [] l = refl
lower_drop zero (c ∷ k) l = l
lower_drop (suc n) (c ∷ k) l = lower_drop n k (cc l)

-- the two parts that the loop of `trailerDemux` builds
plain_part : Headers → Headers → Headers
plain_part g [] = g
plain_part g ((k, v) ∷ m) = plain_part (if starts_with trailer_prefix k then g else insert k v g) m

trailer_part : Headers → Headers → Headers
trailer_part u [] = u
trailer_part u ((k, v) ∷ m) =
    trailer_part (if starts_with trailer_prefix k then insert (drop 8 k) v u else u) m

demux_from-parts :
    (g u m : Headers) → AllDemuxable m → demux_from g u m ≡ ok (plain_part g m, trailer_part u m)
unfolding demux_from plain_part trailer_part
demux_from-parts g u [] d = refl
demux_from-parts g u ((k, v) ∷ m) (((n, (l, (w, s))), name), d) =
    rw l (elim (Bool-cases (starts_with trailer_prefix k)) [
      | inl starts ↦ rw starts (
          ok_then (λ x. demux_from g x m)
            (set-IsStored u (drop 8 k) v (name starts, (lower_drop 8 k l, (w, s))))
            (demux_from-parts g (insert (drop 8 k) v u) m d))
      | inr other ↦ rw other (
          ok_then (λ x. demux_from x u m) (set-IsStored g k v (n, (l, (w, s))))
            (demux_from-parts (insert k v g) u m d))
    ])

lookup-plain_part :
    (j : Text) (g m : Headers)
    → IsSorted m
    → lookup j (plain_part g m)
      ≡ (if starts_with trailer_prefix j then lookup j g else first_of (lookup j m) (lookup j g))
unfolding plain_part first_of lookup
lookup-plain_part j g [] s = ground arith
lookup-plain_part j g ((k, v) ∷ m) (a, s) = elim (Bool-cases (starts_with trailer_prefix k)) [
  | inl starts ↦ rw starts (ground (arith, ===_iff k j, lookup-plain_part j g m s))
  | inr other ↦ rw other (
      ground (
        arith,
        ===_iff k j,
        lookup-insert k j v g,
        lookup-Above k m a,
        lookup-plain_part j (insert k v g) m s,
      ))
]

same_key :
    (k i : Text)
    → starts_with trailer_prefix k ≡ true
    → (k === (trailer_prefix ++ i)) ≡ (drop 8 k === i)
unfolding ◌===◌
same_key k i h = ap (λ x. x === (trailer_prefix ++ i)) (starts_with-append trailer_prefix k h)

other_key :
    (k i : Text) → starts_with trailer_prefix k ≡ false → (k === (trailer_prefix ++ i)) ≡ false
unfolding starts_with
other_key k i h = elim (Bool-cases (k === (trailer_prefix ++ i))) [
  | inr e ↦ e
  | inl e ↦
      let starts : starts_with trailer_prefix k ≡ true =
        ap (starts_with trailer_prefix) ((===_iff k (trailer_prefix ++ i)).0 e) in
      cc (starts, h)
]

lookup-trailer_part :
    (i : Text) (u m : Headers)
    → IsSorted m
    → lookup i (trailer_part u m) ≡ first_of (lookup (trailer_prefix ++ i) m) (lookup i u)
unfolding trailer_part first_of lookup
lookup-trailer_part i u [] s = refl
lookup-trailer_part i u ((k, v) ∷ m) (a, s) = elim (Bool-cases (starts_with trailer_prefix k)) [
  | inl starts ↦ rw starts (
      ground (
        arith,
        same_key k i starts,
        ===_iff k (trailer_prefix ++ i),
        lookup-insert (drop 8 k) i v u,
        lookup-Above k m a,
        lookup-trailer_part i (insert (drop 8 k) v u) m s,
      ))
  | inr other ↦ rw other (ground (arith, other_key k i other, lookup-trailer_part i u m s))
]

part-IsSorted :
    (g u m : Headers)
    → IsSorted g
    → IsSorted u
    → IsSorted (plain_part g m) × IsSorted (trailer_part u m)
unfolding plain_part trailer_part
part-IsSorted g u [] sg su = (sg, su)
part-IsSorted g u ((k, v) ∷ m) sg su = elim (Bool-cases (starts_with trailer_prefix k)) [
  | inl starts ↦
      rw starts (part-IsSorted g (insert (drop 8 k) v u) m sg (insert-IsSorted (drop 8 k) v u su))
  | inr other ↦ rw other (part-IsSorted (insert k v g) u m (insert-IsSorted k v g sg) su)
]

lookup_plain :
    (j : Text) (h : Headers) → AllPlain h → starts_with trailer_prefix j ≡ true → lookup j h ≡ none
unfolding lookup
lookup_plain j [] p y = refl
lookup_plain j ((k, v) ∷ h) (p, ps) y = elim (Bool-cases (k === j)) [
  | inl same ↦ absurd (cc (p, y, (===_iff k j).0 same))
  | inr other ↦ rw other (lookup_plain j h ps y)
]

first_of-none : (o : Option Text) → first_of o none ≡ o
unfolding first_of
first_of-none none = refl
first_of-none (some v) = refl

stored-IsClean : (h : Headers) → AllStored h → IsClean h
stored-IsClean [] s = tt
stored-IsClean ((k, v) ∷ h) ((n, (l, (w, s))), ss) = (s, stored-IsClean h ss)

same_headers : (h t : Headers) → IsSorted h → AllPlain h → plain_part [] (muxed h t) ≡ h
same_headers h t s p =
    let m = muxed-IsSorted h t s in
    headers_ext (plain_part [] (muxed h t)) h (part-IsSorted [] [] (muxed h t) tt tt).0 s (λ j.
      elim (Bool-cases (starts_with trailer_prefix j)) [
        | inl starts ↦
            ground
              (arith, lookup-plain_part j [] (muxed h t) m, lookup_plain j h p starts, lookup_nil j)
        | inr other ↦ ground (
          arith,
          lookup-plain_part j [] (muxed h t) m,
          lookup-muxed_plain h t j other,
          lookup_nil j,
          first_of-none (lookup j h),
        )
      ])

same_trailers :
    (h t : Headers) → IsSorted h → IsSorted t → AllPlain h → trailer_part [] (muxed h t) ≡ t
same_trailers h t s st p =
    let m = muxed-IsSorted h t s in
    headers_ext (trailer_part [] (muxed h t)) t (part-IsSorted [] [] (muxed h t) tt tt).1 st (λ i.
      lookup-trailer_part i [] (muxed h t) m
      ∙ rw (lookup_nil i) (
          first_of-none (lookup (trailer_prefix ++ i) (muxed h t))
          ∙ lookup-muxed_trailer h t i st
          ∙ rw (lookup_plain (trailer_prefix ++ i) h p (unfold starts_with in refl))
              (first_of-none (lookup i t))))

-- Trailers that are muxed into a header and demuxed again are the same, and so is the header, if
-- both hold valid fields, and no name of the header begins with "trailer-".
pub trailer_demux-trailer_mux :
    (h t : Headers)
    → IsSorted h
    → IsSorted t
    → AllStored h
    → AllStored t
    → AllPlain h
    → (trailer_mux h t >>= trailer_demux) ≡ ok (h, t)
unfolding trailer_mux trailer_demux
trailer_demux-trailer_mux h t sh st ah at p =
    ap (λ x. mux_from x t >>= trailer_demux) (copy_self h sh (stored-IsClean h ah))
    ∙ ap (λ r. r >>= trailer_demux) (mux_from-muxed h t at)
    ∙ demux_from-parts [] [] (muxed h t) (muxed-AllDemuxable h t (plain-AllDemuxable h p ah) at)
    ∙ ap ok (ap₂ (λ x y. (x, y)) (same_headers h t sh p) (same_trailers h t sh st p))
