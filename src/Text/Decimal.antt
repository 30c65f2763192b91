-- ===== src/Text/Decimal.antt =====
-- Numbers in texts: a template literal prints a number in decimal, and `parseInt` reads one.
use connect_web.Prelude.{
  ℕ, zero, suc, ◌+◌, ◌-◌, ◌*◌, ◌/◌, ◌%◌, ◌^◌, ◌≤◌, ◌<◌, Bool, true, ◌&&◌, [], ◌∷◌, ℤ, pos, negsuc,
  ◌≡◌, refl, ap, ◌∙◌, inl, inr, Option, none, some, arith, leb, ltb, ◌==◌, if◌then◌else◌,
  Bool-cases, ltb→lt, length,
}
use native.Mathlib.Nat.{pow-suc, mul-le-mul_left, mul-le-mul_right}
use connect_web.Text.{Text}
use connect_web.Text.Trim.{trim_start}

-- `\d`
unfoldable pub is_digit : ℕ → Bool
is_digit c = leb b'0' c && leb c b'9'

print_fuel : ℕ → ℕ → Text → Text
print_fuel zero n acc = acc
print_fuel (suc f) n acc =
    let rest = print_fuel f (n / 10) ((b'0' + n % 10) ∷ acc) in
    if ltb n 10 then (b'0' + n) ∷ acc else rest

-- `${n}` for a natural number below 10^21, from where on JavaScript prints an exponent; the quotients
-- by 10 fall below 10 in fewer than n + 1 steps
unfoldable pub print : ℕ → Text
unfolding print_fuel
print n = print_fuel (suc n) n []

value_from : ℕ → Text → ℕ
value_from acc [] = acc
value_from acc (c ∷ cs) = value_from (acc * 10 + (c - b'0')) cs

-- the number that a run of digits stands for
unfoldable pub value : Text → ℕ
unfolding value_from
value = value_from 0

-- the longest prefix of digits
unfoldable pub digits : Text → Text
unfolding is_digit
digits [] = []
digits (c ∷ cs) = if is_digit c then c ∷ digits cs else []

unsigned : Text → Option ℕ
unfolding digits value
unsigned s = elim (digits s) [ [] ↦ none | c ∷ cs ↦ some (value (c ∷ cs)) ]

negate : ℕ → ℤ
negate zero = pos 0
negate (suc n) = negsuc n

signed : Text → Option ℤ
unfolding unsigned negate
signed [] = none
signed (c ∷ cs) =
    if c == b'-'
    then elim (unsigned cs) [ none ↦ none | some n ↦ some (negate n) ]
    else elim (unsigned (if c == b'+' then cs else c ∷ cs)) [ none ↦ none | some n ↦ some (pos n) ]

-- `parseInt(s, 10)`: leading white space, a sign, and the digits up to the first other
-- character; `none` is NaN.
unfoldable pub parse_int : Text → Option ℤ
unfolding signed
parse_int s = signed (trim_start s)

abbrev pub AllDigits : Text → Type 0
AllDigits [] = Unit {0}
AllDigits (c ∷ cs) = (is_digit c ≡ true) × AllDigits cs

value_from-print_fuel :
    (f n : ℕ) (acc : Text) → n < f → value_from 0 (print_fuel f n acc) ≡ value_from n acc
unfolding print_fuel value_from
value_from-print_fuel zero n acc h = absurd (omega arith)
value_from-print_fuel (suc f) n acc h = elim (Bool-cases (ltb n 10)) [
  | inl small ↦ rw small (ap (λ k. value_from k acc) (omega arith))
  | inr big ↦ rw big (
      value_from-print_fuel f (n / 10) ((b'0' + n % 10) ∷ acc) (ground arith)
      ∙ ap (λ k. value_from k acc) (omega arith))
]

-- What is printed is read back.
pub value-print : (n : ℕ) → value (print n) ≡ n
unfolding value print
value-print n = value_from-print_fuel (suc n) n [] (omega arith) ∙ unfold value_from in refl

print_fuel-AllDigits : (f n : ℕ) (acc : Text) → AllDigits acc → AllDigits (print_fuel f n acc)
unfolding print_fuel is_digit
print_fuel-AllDigits zero n acc h = h
print_fuel-AllDigits (suc f) n acc h = elim (Bool-cases (ltb n 10)) [
  | inl small ↦ rw small (ground arith, h)
  | inr big ↦ rw big (print_fuel-AllDigits f (n / 10) ((b'0' + n % 10) ∷ acc) (ground arith, h))
]

pub print-AllDigits : (n : ℕ) → AllDigits (print n)
unfolding print
print-AllDigits n = print_fuel-AllDigits (suc n) n [] tt

length-print_fuel-le :
    (k f n : ℕ) (acc : Text) → n < 10 ^ suc k → length (print_fuel f n acc) ≤ suc k + length acc
unfolding print_fuel
length-print_fuel-le k zero n acc h = omega arith
length-print_fuel-le zero (suc f) n acc h = elim (Bool-cases (ltb n 10)) [
  | inl small ↦ rw small (omega arith)
  | inr big ↦ absurd (ground arith)
]
length-print_fuel-le (suc k) (suc f) n acc h = elim (Bool-cases (ltb n 10)) [
  | inl small ↦ rw small (omega arith)
  | inr big ↦ rw big (
      omega (
        arith,
        length-print_fuel-le k f (n / 10) ((b'0' + n % 10) ∷ acc)
            (let e : 10 ^ suc (suc k) ≡ 10 ^ suc k * 10 = pow-suc 10 (suc k) in omega arith),
      ))
]

-- A number with at most k + 1 digits is printed with at most k + 1 of them.
pub length-print-le : (k n : ℕ) → n < 10 ^ suc k → length (print n) ≤ suc k
unfolding print
length-print-le k n h = omega (arith, length-print_fuel-le k (suc n) n [] h)

length-print_fuel-pos : (f n : ℕ) (acc : Text) → length acc ≤ length (print_fuel f n acc)
unfolding print_fuel
length-print_fuel-pos zero n acc = omega arith
length-print_fuel-pos (suc f) n acc =
    ground (arith, length-print_fuel-pos f (n / 10) ((b'0' + n % 10) ∷ acc))

pub length-print-pos : (n : ℕ) → 0 < length (print n)
unfolding print
length-print-pos n = ground (arith, length-print_fuel-pos n (n / 10) ((b'0' + n % 10) ∷ []))

ten_power-pos : (k : ℕ) → 0 < 10 ^ k
ten_power-pos zero = omega arith
ten_power-pos (suc k) = let e = pow-suc 10 k in let ih = ten_power-pos k in omega arith

value_from-bound :
    (s : Text) (acc k : ℕ) → AllDigits s → length s ≤ k → value_from acc s + 1 ≤ (acc + 1) * 10 ^ k
unfolding value_from is_digit
value_from-bound [] acc k h l = let p = mul-le-mul_left (acc + 1) (ten_power-pos k) in omega arith
value_from-bound (c ∷ s) acc zero h l = omega arith
value_from-bound (c ∷ s) acc (suc k) (h, hs) l =
    let ih = value_from-bound s (acc * 10 + (c - b'0')) k hs (omega arith) in
    let digit : c - b'0' ≤ 9 = ground arith in
    let step =
      mul-le-mul_right (10 ^ k)
        (let p : acc * 10 + (c - b'0') + 1 ≤ (acc + 1) * 10 = omega arith in p) in
    let power = pow-suc 10 k in
    let arranged : (acc + 1) * (10 ^ k * 10) ≡ (acc + 1) * 10 * 10 ^ k = omega arith in
    rw power (rw arranged (omega arith))

-- A number of more digits than `length` allows is printed as a longer text.
pub length-print-gt : (k n : ℕ) → 10 ^ k ≤ n → k < length (print n)
unfolding value
length-print-gt k n h = elim (Bool-cases (ltb k (length (print n)))) [
  | inl e ↦ ltb→lt k (length (print n)) e
  | inr e ↦
      let short : length (print n) ≤ k = ground arith in
      let bound = value_from-bound (print n) 0 k (print-AllDigits n) short in
      let v = value-print n in elim (let f : ⊥ = omega arith in f) [ ]
]
