-- ===== src/Interceptor.antt =====
-- interceptor.ts of packages/connect-core/src: functions around a call.
use connect_web.Prelude.{List, [], ◌∷◌, ◌++◌, ◌≡◌, refl, ap, ◌∙◌, Option, none, some}
use mathlib.Core.List.{reverse, reverse-cons}

-- `list.reduce((n, i) => i(n), next)`
unfoldable pub reduce {ℓ} : {T : Type ℓ} → T → List (T → T) → T
reduce next [] = next
reduce next (i ∷ is) = reduce (i next) is

-- `applyInterceptors`
unfoldable pub apply_interceptors {ℓ} : {T : Type ℓ} → T → List (T → T) → T
unfolding reduce
apply_interceptors next interceptors = reduce next (reverse interceptors)

-- `runUnary` and `runStreaming`: a call, with interceptors or undefined
unfoldable pub run_call {ℓ κ} :
    {Q : Type ℓ} {R : Type κ} → Q → (Q → R) → Option (List ((Q → R) → Q → R)) → R
unfolding apply_interceptors
run_call req next none = next req
run_call req next (some interceptors) = apply_interceptors next interceptors req

module _ {ℓ} {T : Type ℓ} where
  reduce-append :
      (next : T) (is js : List (T → T)) → reduce next (is ++ js) ≡ reduce (reduce next is) js
  unfolding reduce
  reduce-append next [] js = refl
  reduce-append next (i ∷ is) js = reduce-append (i next) is js

  -- The first interceptor is the outermost, and the others run inside of it.
  pub apply_interceptors-first :
      (next : T) (i : T → T) (is : List (T → T))
      → (apply_interceptors next [] ≡ next)
        × (apply_interceptors next (i ∷ is) ≡ i (apply_interceptors next is))
  unfolding apply_interceptors reduce
  apply_interceptors-first next i is =
      (refl, ap (reduce next) (reverse-cons i is) ∙ reduce-append next (reverse is) (i ∷ []))
