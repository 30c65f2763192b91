-- ===== src/Node/NodeError.antt =====
-- private/node-error.ts of packages/connect-node/src: the code for an error of Node, by the chain of its
-- causes. The errors are objects, which a chain may meet again: each is a place of a list.
use connect_web.Prelude.{
  get_elem?, ℕ, zero, suc, ◌+◌, ◌≤◌, ◌<◌, Bool, true, false, ◌&&◌, ◌||◌, List, [], ◌∷◌, ◌++◌, ◌≡◌,
  refl, sym, ap, ◌∙◌, inl, inr, Option, none, some, arith, ◌==◌, if◌then◌else◌, Bool-cases,
  Option-cases, length,
}
use connect_web.Text.{Text, codes, ◌===◌}
use connect_web.Code.{Code, internal, aborted, unavailable}
use connect_web.ConnectError.{ConnectError, Reason, connect_error_from_reason}

-- a value that was thrown: an `Error`, or something else
pub data Thrown : Type 0 where
  error_at : ℕ → Thrown
  other_value : Reason → Thrown

-- an `Error`: its properties `code` and `syscall` if they are strings, its `cause` if it has this property,
-- and what `connectErrorFromReason` looks at
pub record NodeError : Type 0 where
  pub code : Option Text
  pub syscall : Option Text
  pub cause : Option Thrown
  pub reason : Reason

unfoldable pub includes : List ℕ → ℕ → Bool
includes [] i = false
includes (j ∷ js) i = j == i || includes js i

-- the loop of `unwrapNodeErrorChain`, on fuel, with the chain so far; a place that is not
-- in the list is no `Error`
unfoldable pub walk : ℕ → List NodeError → List ℕ → Thrown → Option (List ℕ)
unfolding includes
walk zero heap chain reason = none
walk (suc fuel) heap chain (other_value r) = some chain
walk (suc fuel) heap chain (error_at i) = elim (get_elem? heap i) [
  | none ↦ some chain
  | some e ↦ elim (includes chain i) [
    | true ↦ some chain
    | false ↦ elim e.cause [
      | none ↦ some (chain ++ (i ∷ []))
      | some cause ↦ walk fuel heap (chain ++ (i ∷ [])) cause
    ]
  ]
]

unfoldable pub unwrap_node_error_chain : List NodeError → Thrown → Option (List ℕ)
unfolding walk
unwrap_node_error_chain heap reason = walk (suc (length heap)) heap [] reason

some_error : (NodeError → Bool) → List NodeError → List ℕ → Bool
some_error test heap [] = false
some_error test heap (i ∷ is) = elim (get_elem? heap i) [
  | none ↦ some_error test heap is
  | some e ↦ test e || some_error test heap is
]

has_code : Text → NodeError → Bool
has_code c e = elim e.code [ none ↦ false | some d ↦ d === c ]

is_unresolved : NodeError → Bool
unfolding has_code
is_unresolved e = elim e.syscall [
  | none ↦ false
  | some s ↦
      s === codes "getaddrinfo"
      && (has_code (codes "ENOTFOUND") e || has_code (codes "EAI_AGAIN") e)
]

unfoldable pub node_code : List NodeError → List ℕ → Code
unfolding some_error has_code is_unresolved
node_code heap chain =
    if some_error (has_code (codes "ERR_STREAM_WRITE_AFTER_END")) heap chain
    then aborted
    else if some_error
        (λ e.
          has_code (codes "ERR_STREAM_DESTROYED") e
          || has_code (codes "ERR_HTTP2_INVALID_STREAM") e)
        heap chain
    then aborted
    else if some_error is_unresolved heap chain
    then unavailable
    else internal

thrown_reason : List NodeError → Thrown → Option Reason
thrown_reason heap (other_value r) = some r
thrown_reason heap (error_at i) = elim (get_elem? heap i) [ none ↦ none | some e ↦ some e.reason ]

unfoldable pub connect_error_from_node_reason : List NodeError → Thrown → Option ConnectError
unfolding unwrap_node_error_chain node_code thrown_reason connect_error_from_reason
connect_error_from_node_reason heap thrown = elim (unwrap_node_error_chain heap thrown) [
  | none ↦ none
  | some chain ↦ elim (thrown_reason heap thrown) [
    | none ↦ none
    | some reason ↦ some (connect_error_from_reason reason (node_code heap chain))
  ]
]

-- how many of the first places are not in a chain
unseen : ℕ → List ℕ → ℕ
unfolding includes
unseen zero chain = 0
unseen (suc n) chain = (if includes chain n then 0 else 1) + unseen n chain

includes-append : (is : List ℕ) (i j : ℕ) → includes (is ++ (i ∷ [])) j ≡ (includes is j || i == j)
unfolding includes
includes-append [] i j = elim (Bool-cases (i == j)) [ inl y ↦ ground arith | inr n ↦ ground arith ]
includes-append (k ∷ is) i j =
    let rest = includes-append is i j in
    elim (Bool-cases (k == j)) [ inl y ↦ ground arith | inr n ↦ ground arith ]

-- a place that is not among them changes nothing
unseen_above :
    (n : ℕ) (chain : List ℕ) (i : ℕ) → n ≤ i → unseen n (chain ++ (i ∷ [])) ≡ unseen n chain
unfolding unseen
unseen_above zero chain i h = refl
unseen_above (suc n) chain i h =
    let rest = unseen_above n chain i (omega arith) in
    let seen = includes-append chain i n in ground arith

-- a place that is seen now is one less
unseen_less :
    (n : ℕ) (chain : List ℕ) (i : ℕ)
    → i < n
    → includes chain i ≡ false
    → suc (unseen n (chain ++ (i ∷ []))) ≡ unseen n chain
unfolding unseen
unseen_less zero chain i h fresh = absurd (omega arith)
unseen_less (suc n) chain i h fresh = elim (Bool-cases (i == n)) [
  | inl same ↦
      let equal : i ≡ n = ground arith in
      let above = unseen_above n chain i (omega arith) in
      let seen = includes-append chain i n in
      let unseen_before : includes chain n ≡ false = sym (ap (includes chain) equal) ∙ fresh in
      ground arith
  | inr other ↦
      let below : i < n = ground arith in
      let less = unseen_less n chain i below fresh in
      let seen = includes-append chain i n in ground arith
]

place_in_heap :
    (heap : List NodeError) (i : ℕ) (e : NodeError) → get_elem? heap i ≡ some e → i < length heap
place_in_heap [] i e h = ground arith
place_in_heap (x ∷ heap) zero e h = omega arith
place_in_heap (x ∷ heap) (suc i) e h = let below = place_in_heap heap i e h in ground arith

-- the chain that the loop finds, whatever fuel above a bound it has
abbrev Found : ℕ → List NodeError → List ℕ → Thrown → Type 0
Found bound heap chain v =
    (r : List ℕ) × ((fuel : ℕ) → bound < fuel → walk fuel heap chain v ≡ some r)

fuel_above :
    (P : ℕ → Type 0) (bound : ℕ)
    → ((m : ℕ) → bound ≤ m → P (suc m))
    → (fuel : ℕ) → bound < fuel
    → P fuel
fuel_above P bound p zero h = absurd (omega arith)
fuel_above P bound p (suc m) h = p m (omega arith)

abbrev before : ℕ → ℕ
before zero = zero
before (suc n) = n

suc-before : (n : ℕ) → 0 < n → suc (before n) ≡ n
suc-before zero h = absurd (omega arith)
suc-before (suc n) h = refl

at_error :
    (bound : ℕ) (heap : List NodeError) (chain : List ℕ) (i : ℕ)
    → unseen (length heap) chain ≤ bound
    → ((cause : Thrown)
        → 0 < bound
        → unseen (length heap) (chain ++ (i ∷ [])) ≤ before bound
        → Found (before bound) heap (chain ++ (i ∷ [])) cause)
    → Found bound heap chain (error_at i)
unfolding walk
at_error bound heap chain i h go = elim (Option-cases (get_elem? heap i)) [
  | inl absent ↦ (
    chain,
    fuel_above (λ f. walk f heap chain (error_at i) ≡ some chain) bound (λ m k. ground arith),
  )
  | inr (e, here) ↦ elim (Bool-cases (includes chain i)) [
    | inl seen ↦ (
      chain,
      fuel_above (λ f. walk f heap chain (error_at i) ≡ some chain) bound (λ m k. ground arith),
    )
    | inr fresh ↦ elim (Option-cases e.cause) [
      | inl last ↦ (
        chain ++ (i ∷ []),
        fuel_above (λ f. walk f heap chain (error_at i) ≡ some (chain ++ (i ∷ []))) bound
            (λ m k. ground arith),
      )
      | inr (cause, caused) ↦
          let less = unseen_less (length heap) chain i (place_in_heap heap i e here) fresh in
          let step = suc-before bound (omega arith) in
          let (r, rest) = go cause (omega arith) (omega arith) in
          (
            r,
            fuel_above (λ f. walk f heap chain (error_at i) ≡ some r) bound
                (λ m k. let inner = rest m (omega arith) in ground arith),
          )
    ]
  ]
]

found :
    (bound : ℕ) (heap : List NodeError) (chain : List ℕ) (v : Thrown)
    → unseen (length heap) chain ≤ bound
    → Found bound heap chain v
found bound heap chain (other_value r) h = (
  chain,
  fuel_above (λ f. walk f heap chain (other_value r) ≡ some chain) bound
      (λ m k. unfold walk in refl),
)
found zero heap chain (error_at i) h =
    at_error zero heap chain i h (λ cause k l. absurd (omega arith))
found (suc bound) heap chain (error_at i) h =
    at_error (suc bound) heap chain i h (λ cause k l. found bound heap (chain ++ (i ∷ [])) cause l)

unseen-empty : (n : ℕ) → unseen n [] ≤ n
unfolding unseen includes
unseen-empty zero = omega arith
unseen-empty (suc n) = let rest = unseen-empty n in omega arith

-- The loop over the causes of an error ends, also where a cause is an error of the chain again: as many
-- rounds as there are errors, and one more, are enough, and more rounds find the same chain.
pub unwrap_node_error_chain-walk :
    (heap : List NodeError) (v : Thrown)
    → (chain : List ℕ) × (unwrap_node_error_chain heap v ≡ some chain)
      × ((fuel : ℕ) → length heap < fuel → walk fuel heap [] v ≡ some chain)
unfolding unwrap_node_error_chain
unwrap_node_error_chain-walk heap v =
    let (chain, walked) = found (length heap) heap [] v (unseen-empty (length heap)) in
    (chain, walked (suc (length heap)) (omega arith), walked)
