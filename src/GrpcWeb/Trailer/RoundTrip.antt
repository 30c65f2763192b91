-- ===== src/GrpcWeb/Trailer/RoundTrip.antt =====
-- What trailer.ts reads of what it writes.
use connect_web.Prelude.{
  ℕ, suc, ◌<◌, true, false, List, [], ◌∷◌, ◌++◌, map, ◌≡◌, refl, sym, ap, ap₂, ◌∙◌, ◌≢◌, some,
  arith, length, length-append, take, drop, append-nil, append_assoc,
}
use connect_web.Text.{Text, codes, index_of, join}
use connect_web.Text.Trim.{trim, is_space, strip, drop_while}
use connect_web.Headers.Values.{NoneOf, strip-NoneOf}
use connect_web.Text.Utf8.{encode_utf8, decode_utf8, AllBytes, decode_utf8-encode_utf8}
use connect_web.Headers.{
  Headers, append, is_name, is_value, normalize, is_token, is_value_unit, put_field, append_all,
  copy,
}
use connect_web.Headers.Order.{IsSorted}
use connect_web.Headers.Laws.{append-valid, copy_self, IsClean}
use connect_web.Connect.TrailerMux.Muxed.{IsStored}
use connect_web.ConnectError.{ok, checked, ok_then}
use connect_web.GrpcWeb.Trailer.{
  split_lines, onto_first, parse_line, parse_lines, trailer_parse, trailer_serialize, trailer_line,
}

-- the code units of a line: bytes, and no carriage return
abbrev IsLine : Text → Type 0
IsLine [] = Unit {0}
IsLine (c ∷ cs) = ((c < 256) × (c ≢ 13)) × IsLine cs

IsLine-append : (s t : Text) → IsLine s → IsLine t → IsLine (s ++ t)
IsLine-append [] t h k = k
IsLine-append (c ∷ s) t (h, hs) k = (h, IsLine-append s t hs k)

split_step :
    (c d : ℕ) (s : Text) → c ≢ 13 → split_lines (c ∷ d ∷ s) ≡ onto_first c (split_lines (d ∷ s))
unfolding split_lines
split_step c d s h = ground arith

-- a line in front of others
split_lines-line :
    (s rest : Text) → IsLine s → split_lines (s ++ (13 ∷ 10 ∷ rest)) ≡ s ∷ split_lines rest
unfolding split_lines onto_first
split_lines-line [] rest h = refl
split_lines-line (c ∷ []) rest (h, hs) = split_step c 13 (10 ∷ rest) h.1
split_lines-line (c ∷ d ∷ s) rest (h, hs) =
    split_step c d (s ++ (13 ∷ 10 ∷ rest)) h.1
    ∙ ap (onto_first c) (split_lines-line (d ∷ s) rest hs)

value-IsLine : (v : Text) → is_value v ≡ true → IsLine v
unfolding is_value is_value_unit
value-IsLine [] h = tt
value-IsLine (c ∷ cs) h = (ground arith, value-IsLine cs (ground arith))

token_unit : (c : ℕ) → is_token c ≡ true → (c < 127) × (c ≢ 13) × (c ≢ b':')
unfolding is_token
token_unit c h = ground arith

abbrev AllTokens : Text → Type 0
AllTokens [] = Unit {0}
AllTokens (c ∷ cs) = (is_token c ≡ true) × AllTokens cs

name_step :
    (c d : ℕ) (cs : Text)
    → is_name (c ∷ d ∷ cs) ≡ true
    → (is_token c ≡ true) × (is_name (d ∷ cs) ≡ true)
unfolding is_name
name_step c d cs h = ground arith

name-AllTokens : (k : Text) → is_name k ≡ true → AllTokens k
unfolding is_name
name-AllTokens [] h = tt
name-AllTokens (c ∷ []) h = (ground arith, tt)
name-AllTokens (c ∷ d ∷ cs) h =
    ((name_step c d cs h).0, name-AllTokens (d ∷ cs) (name_step c d cs h).1)

AllTokens-IsLine : (k : Text) → AllTokens k → IsLine k
AllTokens-IsLine [] h = tt
AllTokens-IsLine (c ∷ cs) (h, hs) = (ground (arith, token_unit c h), AllTokens-IsLine cs hs)

token_shown : (c : ℕ) → is_token c ≡ true → is_space c ≡ false
unfolding is_token is_space
token_shown c h = ground arith

AllTokens-NoneOf : (k : Text) → AllTokens k → NoneOf is_space k
AllTokens-NoneOf [] h = tt
AllTokens-NoneOf (c ∷ cs) (h, hs) = (token_shown c h, AllTokens-NoneOf cs hs)

index_of-token :
    (k rest : Text) → AllTokens k → index_of b':' (k ++ (b':' ∷ rest)) ≡ some (length k)
unfolding index_of
index_of-token [] rest h = refl
index_of-token (c ∷ cs) rest (h, hs) = ground (arith, token_unit c h, index_of-token cs rest hs)

take_name : (k rest : Text) → take (length k) (k ++ rest) ≡ k
take_name [] rest = refl
take_name (c ∷ cs) rest = ap (◌∷◌ c) (take_name cs rest)

drop_name : (k rest : Text) (c : ℕ) → drop (suc (length k)) (k ++ (c ∷ rest)) ≡ rest
drop_name [] rest c = refl
drop_name (d ∷ ds) rest c = drop_name ds rest c

trim-space : (v : Text) → trim (32 ∷ v) ≡ trim v
unfolding trim strip drop_while is_space
trim-space v = refl

-- a field that a trailer carries: `trim` does not change its value
abbrev pub IsSent : Text → Text → Type 0
IsSent k v = IsStored k v × (trim v ≡ v)

abbrev pub AllSent : Headers → Type 0
AllSent [] = Unit {0}
AllSent ((k, v) ∷ h) = IsSent k v × AllSent h

at_colon :
    (headers : Headers) (line : Text) (i : ℕ)
    → index_of b':' line ≡ some i
    → 0 < i
    → parse_line headers line
      ≡ checked (append headers (trim (take i line)) (trim (drop (suc i) line)))
unfolding parse_line
at_colon headers line i e h = ground (arith, e)

name_length : (k : Text) → is_name k ≡ true → 0 < length k
unfolding is_name
name_length [] h = ground arith
name_length (c ∷ cs) h = omega arith

trim-name : (k : Text) → is_name k ≡ true → trim k ≡ k
unfolding trim
trim-name k h = strip-NoneOf is_space k (AllTokens-NoneOf k (name-AllTokens k h))

append-IsStored :
    (headers : Headers) (k v : Text)
    → IsStored k v
    → checked (append headers k v) ≡ ok (put_field k (normalize v) headers)
append-IsStored headers k v (n, (l, (w, s))) =
    ap checked (append-valid headers k v n (ap is_value s ∙ w))
    ∙ ap (λ j. ok (put_field j (normalize v) headers)) l

parse_line-field :
    (headers : Headers) (k v : Text)
    → IsSent k v
    → parse_line headers (k ++ (codes ": " ++ v)) ≡ ok (put_field k (normalize v) headers)
parse_line-field headers k v (stored, t) =
    at_colon headers (k ++ (codes ": " ++ v)) (length k)
      (index_of-token k (32 ∷ v) (name-AllTokens k stored.0)) (name_length k stored.0)
    ∙ ap₂ (λ a b. checked (append headers a b))
        (ap trim (take_name k (58 ∷ 32 ∷ v)) ∙ trim-name k stored.0)
        (ap trim (drop_name k (32 ∷ v) 58) ∙ trim-space v ∙ t)
    ∙ append-IsStored headers k v stored

-- the text of a trailer, as one line after another
abbrev lines : Headers → Text
lines [] = []
lines ((k, v) ∷ h) = (k ++ (codes ": " ++ v)) ++ (13 ∷ 10 ∷ lines h)

join_nil : (s : Text) (ss : List Text) → join [] (s ∷ ss) ≡ s ++ join [] ss
unfolding join
join_nil s [] = sym (append-nil s)
join_nil s (t ∷ ts) = refl

join-lines : (h : Headers) → join [] (map trailer_line h) ≡ lines h
unfolding join
join-lines [] = refl
join-lines ((k, v) ∷ h) =
    join_nil (trailer_line (k, v)) (map trailer_line h)
    ∙ rw (join-lines h) (
        append_assoc k (codes ": " ++ (v ++ (13 ∷ 10 ∷ []))) (lines h)
        ∙ ap (λ t. k ++ (58 ∷ 32 ∷ t)) (append_assoc v (13 ∷ 10 ∷ []) (lines h))
        ∙ sym (append_assoc k (codes ": " ++ v) (13 ∷ 10 ∷ lines h)))

field-IsLine : (k v : Text) → IsSent k v → IsLine (k ++ (codes ": " ++ v))
field-IsLine k v ((n, (l, (w, s))), t) =
    IsLine-append k (codes ": " ++ v) (AllTokens-IsLine k (name-AllTokens k n)) (
      (omega arith, λ e. ground (arith, e)),
      ((omega arith, λ e. ground (arith, e)), value-IsLine v w),
    )

IsLine-AllBytes : (s : Text) → IsLine s → AllBytes s
IsLine-AllBytes [] h = tt
IsLine-AllBytes (c ∷ cs) (h, hs) = (h.0, IsLine-AllBytes cs hs)

AllBytes-append : (s t : Text) → AllBytes s → AllBytes t → AllBytes (s ++ t)
AllBytes-append [] t h k = k
AllBytes-append (c ∷ cs) t (h, hs) k = (h, AllBytes-append cs t hs k)

lines-AllBytes : (h : Headers) → AllSent h → AllBytes (lines h)
lines-AllBytes [] s = tt
lines-AllBytes ((k, v) ∷ h) (s, ss) =
    AllBytes-append (k ++ (codes ": " ++ v)) (13 ∷ 10 ∷ lines h)
      (IsLine-AllBytes (k ++ (codes ": " ++ v)) (field-IsLine k v s))
      (omega arith, (omega arith, lines-AllBytes h ss))

field_first :
    (headers : Headers) (s : Text) (ss : List Text) (g : Headers)
    → 0 < length s
    → parse_line headers s ≡ ok g
    → parse_lines headers (s ∷ ss) ≡ parse_lines g ss
unfolding parse_lines
field_first headers [] ss g h e = ground arith
field_first headers (c ∷ cs) ss g h e = ok_then (λ x. parse_lines x ss) e refl

parse-lines :
    (g h : Headers) → AllSent h → parse_lines g (split_lines (lines h)) ≡ ok (append_all g h)
unfolding parse_lines split_lines append_all
parse-lines g [] s = refl
parse-lines g ((k, v) ∷ h) (s, ss) =
    let line = k ++ (codes ": " ++ v) in
    ap (parse_lines g) (split_lines-line line (lines h) (field-IsLine k v s))
    ∙ field_first g line (split_lines (lines h)) (put_field k (normalize v) g)
        (omega (arith, length-append k (codes ": " ++ v))) (parse_line-field g k v s)
    ∙ parse-lines (put_field k (normalize v) g) h ss

AllSent-IsClean : (h : Headers) → AllSent h → IsClean h
AllSent-IsClean [] s = tt
AllSent-IsClean ((k, v) ∷ h) (((n, (l, (w, c))), t), ss) = (c, AllSent-IsClean h ss)

-- `trailerParse` restores the headers that `trailerSerialize` wrote, if their fields are in order and
-- valid, and no value has white space at an end that `trim` removes.
pub trailer_parse-trailer_serialize :
    (h : Headers) → IsSorted h → AllSent h → trailer_parse (trailer_serialize h) ≡ ok h
unfolding trailer_parse trailer_serialize
trailer_parse-trailer_serialize h o s =
    ap (λ t. parse_lines [] (split_lines t))
      (ap (λ t. decode_utf8 (encode_utf8 t)) (join-lines h)
        ∙ decode_utf8-encode_utf8 (lines h) (lines-AllBytes h s))
    ∙ parse-lines [] h s
    ∙ ap ok (unfold copy in copy_self h o (AllSent-IsClean h s))
