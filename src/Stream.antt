-- ===== src/Stream.antt =====
-- Asynchronous iterables, as a consumer that reads to the end sees them: the elements in order, and
-- then the end or an error. A transform reads its source as a value of this type.
use connect_web.Prelude.{List, [], ◌∷◌, ◌++◌, ◌≡◌, refl, ap, arith}
use connect_web.ConnectError.{Reason, Result, ok, err}

pub data Stream {ℓ} (A : Type ℓ) : Type ℓ where
  done : Stream A
  raise : Reason → Stream A
  next : A → Stream A → Stream A

module _ {ℓ} {A : Type ℓ} where
  -- `createAsyncIterable(items)`
  unfoldable pub of_list : List A → Stream A
  of_list [] = done
  of_list (x ∷ xs) = next x (of_list xs)

  -- the elements of a list in front of a stream
  unfoldable pub prepend : List A → Stream A → Stream A
  prepend [] s = s
  prepend (x ∷ xs) s = next x (prepend xs s)

  -- `sinkAll()`: all elements, or the error of the source
  unfoldable pub sink_all : Stream A → Result (List A)
  sink_all done = ok []
  sink_all (raise e) = err e
  sink_all (next x s) = elim (sink_all s) [ ok xs ↦ ok (x ∷ xs) | err e ↦ err e ]

  pub prepend-append :
      (xs ys : List A) (s : Stream A) → prepend (xs ++ ys) s ≡ prepend xs (prepend ys s)
  unfolding prepend
  prepend-append [] ys s = refl
  prepend-append (x ∷ xs) ys s = ap (next x) (prepend-append xs ys s)

  pub of_list-prepend : (xs : List A) → of_list xs ≡ prepend xs done
  unfolding prepend of_list
  of_list-prepend [] = refl
  of_list-prepend (x ∷ xs) = ap (next x) (of_list-prepend xs)

  pub sink_all-of_list : (xs : List A) → sink_all (of_list xs) ≡ ok xs
  unfolding sink_all of_list
  sink_all-of_list [] = refl
  sink_all-of_list (x ∷ xs) = rw (sink_all-of_list xs)

module _ {ℓ κ} {A : Type ℓ} {B : Type κ} where
  -- what yields one element for each of the source, or ends with an error
  unfoldable pub map_stream : (A → Result B) → Stream A → Stream B
  map_stream f done = done
  map_stream f (raise e) = raise e
  map_stream f (next x s) =
      let rest = map_stream f s in elim (f x) [ ok y ↦ next y rest | err e ↦ raise e ]

  -- an element for which the function returns
  pub map_stream-next :
      (f : A → Result B) (x : A) (y : B) (s : Stream A)
      → f x ≡ ok y
      → map_stream f (next x s) ≡ next y (map_stream f s)
  unfolding map_stream
  map_stream-next f x y s e = ground arith

  -- an element for which the function throws
  pub map_stream-raise :
      (f : A → Result B) (x : A) (e : Reason) (s : Stream A)
      → f x ≡ err e
      → map_stream f (next x s) ≡ raise e
  unfolding map_stream
  map_stream-raise f x e s h = ground arith
