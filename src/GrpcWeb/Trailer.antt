-- ===== src/GrpcWeb/Trailer.antt =====
-- trailer.ts of packages/connect-core/src/protocol-grpc-web: trailers as a set of header fields.
pub mod RoundTrip
use connect_web.Prelude.{
  ℕ, zero, suc, ◌+◌, ◌-◌, ◌*◌, ◌/◌, ◌%◌, ◌^◌, ◌≤◌, ◌<◌, Bool, true, false, not, ◌&&◌, ◌||◌, List,
  [], ◌∷◌, ◌++◌, map, ℤ, pos, negsuc, ◌≡◌, refl, sym, ap, ap₂, ◌∙◌, ◌≢◌, ◌↔◌, ◌⊎◌, inl, inr, Option,
  none, some, String, arith, leb, ltb, ◌==◌, if◌then◌else◌, Bool-cases, Option-cases, ==_iff,
  leb→le, ltb→lt, lt→ltb, tests, length, length-append, take, drop, take-append-drop, length-take,
  length-drop, length-map, fun_ext, replicate, length-replicate, append-nil, append_assoc,
}
use connect_web.Text.{Text, codes, index_of, join}
use connect_web.Text.Trim.{trim}
use connect_web.Text.Utf8.{encode_utf8, decode_utf8}
use connect_web.Headers.{Headers, append}
use connect_web.ConnectError.{Result, ok, checked, ◌>>=◌, Bytes}
use connect_web.Serialization.{Serialization}

abbrev pub trailer_flag : ℕ
trailer_flag = 0x80

unfoldable pub onto_first : ℕ → List Text → List Text
onto_first c [] = (c ∷ []) ∷ []
onto_first c (line ∷ lines) = (c ∷ line) ∷ lines

-- `split("\r\n")`
unfoldable pub split_lines : Text → List Text
unfolding onto_first
split_lines [] = [] ∷ []
split_lines (c ∷ []) = (c ∷ []) ∷ []
split_lines (c ∷ d ∷ s) = elim (c == 13 && d == 10) [
  | true ↦ [] ∷ split_lines s
  | false ↦ onto_first c (split_lines (d ∷ s))
]

-- one turn of the loop over the lines
unfoldable pub parse_line : Headers → Text → Result Headers
parse_line headers line = elim (index_of b':' line) [
  | none ↦ ok headers
  | some i ↦
      if ltb 0 i
      then checked (append headers (trim (take i line)) (trim (drop (i + 1) line)))
      else ok headers
]

unfoldable pub parse_lines : Headers → List Text → Result Headers
unfolding parse_line
parse_lines headers [] = ok headers
parse_lines headers ([] ∷ lines) = parse_lines headers lines
parse_lines headers ((c ∷ cs) ∷ lines) = parse_line headers (c ∷ cs) >>= λ h. parse_lines h lines

unfoldable pub trailer_parse : Bytes → Result Headers
unfolding parse_lines split_lines decode_utf8
trailer_parse bytes = parse_lines [] (split_lines (decode_utf8 bytes))

-- `${key}: ${value}\r\n`
abbrev pub trailer_line : Text × Text → Text
trailer_line (key, value) = key ++ (codes ": " ++ (value ++ (13 ∷ 10 ∷ [])))

unfoldable pub trailer_serialize : Headers → Bytes
unfolding encode_utf8 join
trailer_serialize trailer = encode_utf8 (join [] (map trailer_line trailer))

unfoldable pub create_trailer_serialization : Serialization Headers
unfolding trailer_serialize trailer_parse
create_trailer_serialization = record {
  serialize = λ h. ok (trailer_serialize h);
  parse = trailer_parse;
}
