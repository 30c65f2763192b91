-- ===== src/Connect/ContentType.antt =====
-- content-type.ts and parse-content-type.ts of packages/connect-core/src/protocol-connect.
use connect_web.Prelude.{
  ℕ, Bool, true, false, not, ◌||◌, List, [], ◌∷◌, ◌≡◌, refl, sym, ap, ap₂, ◌∙◌, Option, none, some,
  arith,
}
use mathlib.Core.Option
use connect_web.Text.{◌===◌, Text, codes, to_lower_case}
use connect_web.Pattern.{Pattern, lit, seq, choice, optional, group, match_whole, captured}
use connect_web.Pattern.Words.{
  words, table, find, match_whole-ignore_case, match_whole-exact, WordsLower, by_keys,
}

-- `(?:; ?charset=utf-?8)?`
abbrev pub charset : Pattern
charset = optional (
    seq (lit (codes ";")) (
      seq (optional (lit (codes " ")))
        (seq (lit (codes "charset=utf")) (seq (optional (lit (codes "-"))) (lit (codes "8"))))))

-- `/^application\/(connect\+)?(?:(json)(?:; ?charset=utf-?8)?|(proto))$/i`
abbrev pub content_type_reg_exp : Pattern
content_type_reg_exp = seq (lit (codes "application/")) (
    seq (optional (group 1 (lit (codes "connect+"))))
      (choice (seq (group 2 (lit (codes "json"))) charset) (group 3 (lit (codes "proto")))))

-- `/^application\/(?:json(?:; ?charset=utf-?8)?|proto)$/i`
abbrev pub content_type_unary_reg_exp : Pattern
content_type_unary_reg_exp =
    seq (lit (codes "application/"))
      (choice (seq (lit (codes "json")) charset) (lit (codes "proto")))

-- `/^application\/connect\+?(?:json(?:; ?charset=utf-?8)?|proto)$/i`
abbrev pub content_type_stream_reg_exp : Pattern
content_type_stream_reg_exp = seq (lit (codes "application/connect")) (
    seq (optional (lit (codes "+")))
      (choice (seq (lit (codes "json")) charset) (lit (codes "proto"))))

abbrev pub content_type_unary_proto : Text
content_type_unary_proto = codes "application/proto"

abbrev pub content_type_unary_json : Text
content_type_unary_json = codes "application/json"

abbrev pub content_type_stream_proto : Text
content_type_stream_proto = codes "application/connect+proto"

abbrev pub content_type_stream_json : Text
content_type_stream_json = codes "application/connect+json"

pub record ParsedType : Type 0 where
  pub stream : Bool
  pub binary : Bool

of_groups : List ℕ → ParsedType
unfolding captured
of_groups groups = record { stream = captured 1 groups; binary = captured 3 groups }

-- `parseContentType` of content-type.ts, on a header value or null
unfoldable pub parse_content_type : Option Text → Option ParsedType
unfolding of_groups
parse_content_type none = none
parse_content_type (some s) = Option.map of_groups (match_whole true content_type_reg_exp s)

-- `parseContentType` of parse-content-type.ts, which lowers the case first
unfoldable pub parse_lower_content_type : Option Text → Option ParsedType
unfolding of_groups
parse_lower_content_type none = none
parse_lower_content_type (some s) =
    Option.map of_groups (match_whole false content_type_reg_exp (to_lower_case s))

-- `supportedContentType.test(s)`
unfoldable pub matches_type : Pattern → Text → Bool
matches_type p s = elim (match_whole true p s) [ none ↦ false | some _ ↦ true ]

abbrev parsed : Bool → Bool → ParsedType
parsed stream binary = record { stream = stream; binary = binary }

-- The content types of the Connect protocol.
abbrev pub content_types : List (Text × ParsedType)
content_types =
    (codes "application/connect+json; charset=utf-8", parsed true false)
    ∷ (codes "application/connect+json; charset=utf8", parsed true false)
    ∷ (codes "application/connect+json;charset=utf-8", parsed true false)
    ∷ (codes "application/connect+json;charset=utf8", parsed true false)
    ∷ (codes "application/connect+json", parsed true false)
    ∷ (codes "application/connect+proto", parsed true true)
    ∷ (codes "application/json; charset=utf-8", parsed false false)
    ∷ (codes "application/json; charset=utf8", parsed false false)
    ∷ (codes "application/json;charset=utf-8", parsed false false)
    ∷ (codes "application/json;charset=utf8", parsed false false)
    ∷ (codes "application/json", parsed false false)
    ∷ (codes "application/proto", parsed false true)
    ∷ []

type_words : table of_groups (words content_type_reg_exp) ≡ content_types
unfolding table words of_groups
type_words = refl

-- `parseContentType` accepts a value exactly if its lower case is one of the twelve content types
-- listed in `content_types`, and returns what that list says of streaming and binary format.
pub parse_content_type-find :
    (s : Text) → parse_content_type (some s) ≡ find (to_lower_case s) content_types
unfolding parse_content_type
parse_content_type-find s =
    match_whole-ignore_case of_groups content_type_reg_exp s (unfold words in omega arith)
    ∙ ap (find (to_lower_case s)) type_words

-- The two versions of `parseContentType` agree on every header value.
pub parse_lower_content_type-eq :
    (s : Option Text) → parse_lower_content_type s ≡ parse_content_type s
unfolding parse_lower_content_type
parse_lower_content_type-eq none = unfold parse_content_type in refl
parse_lower_content_type-eq (some s) =
    match_whole-exact of_groups content_type_reg_exp (to_lower_case s)
    ∙ ap (find (to_lower_case s)) type_words
    ∙ sym (parse_content_type-find s)

no_groups : List ℕ → Bool
no_groups groups = true

-- the lower-case texts that a pattern matches
abbrev type_table : Pattern → List (Text × Bool)
type_table p = table no_groups (words p)

pub found : Option Bool → Bool
found none = false
found (some b) = true

matches_type-find :
    (p : Pattern) (s : Text)
    → WordsLower (words p)
    → matches_type p s ≡ found (find (to_lower_case s) (type_table p))
unfolding matches_type found
matches_type-find p s h =
    sym (ap found (sym (match_whole-ignore_case no_groups p s h)) ∙ ground arith)

abbrev pub is_unary : Option ParsedType → Bool
is_unary none = false
is_unary (some t) = not t.stream

abbrev pub is_stream : Option ParsedType → Bool
is_stream none = false
is_stream (some t) = t.stream

-- a claim about the three tables, at one lower-case text
abbrev UnaryAgrees : Text → Type 0
UnaryAgrees k =
    found (find k (type_table content_type_unary_reg_exp)) ≡ is_unary (find k content_types)

unary_agrees : (k : Text) → UnaryAgrees k
unfolding found find words table no_groups ◌===◌
unary_agrees k =
    by_keys UnaryAgrees (type_table content_type_unary_reg_exp) k
      (refl, (refl, (refl, (refl, (refl, (refl, tt))))))
      (λ e.
        by_keys UnaryAgrees content_types k
          (
            refl,
            (
              refl,
              (refl, (refl, (refl, (refl, (refl, (refl, (refl, (refl, (refl, (refl, tt)))))))))),
            ),
          )
          (λ d. ap found e ∙ sym (ap is_unary d)))

-- The regular expression of unary handlers matches exactly the values that `parseContentType` reads as
-- unary.
pub unary_reg_exp-parse :
    (s : Text) → matches_type content_type_unary_reg_exp s ≡ is_unary (parse_content_type (some s))
unary_reg_exp-parse s =
    matches_type-find content_type_unary_reg_exp s (unfold words in omega arith)
    ∙ unary_agrees (to_lower_case s)
    ∙ ap is_unary (sym (parse_content_type-find s))

-- what the optional plus sign of the expression for streams lets through
abbrev pub types_without_plus : List (Text × Bool)
types_without_plus =
    (codes "application/connectjson; charset=utf-8", true)
    ∷ (codes "application/connectjson; charset=utf8", true)
    ∷ (codes "application/connectjson;charset=utf-8", true)
    ∷ (codes "application/connectjson;charset=utf8", true)
    ∷ (codes "application/connectjson", true)
    ∷ (codes "application/connectproto", true)
    ∷ []

abbrev StreamAgrees : Text → Type 0
StreamAgrees k =
    found (find k (type_table content_type_stream_reg_exp))
    ≡ (is_stream (find k content_types) || found (find k types_without_plus))

stream_agrees : (k : Text) → StreamAgrees k
unfolding found find words table no_groups ◌===◌
stream_agrees k =
    by_keys StreamAgrees (type_table content_type_stream_reg_exp) k
      (
        refl,
        (refl, (refl, (refl, (refl, (refl, (refl, (refl, (refl, (refl, (refl, (refl, tt))))))))))),
      )
      (λ e.
        by_keys StreamAgrees content_types k
          (
            refl,
            (
              refl,
              (refl, (refl, (refl, (refl, (refl, (refl, (refl, (refl, (refl, (refl, tt)))))))))),
            ),
          )
          (λ d.
            by_keys StreamAgrees types_without_plus k
              (refl, (refl, (refl, (refl, (refl, (refl, tt))))))
              (λ c. ap found e ∙ sym (ap₂ (λ x y. is_stream x || found y) d c))))

-- The regular expression of streaming handlers matches exactly the values that `parseContentType` reads
-- as streaming, and those with one of six other lower cases, which lack the plus sign and which
-- `parseContentType` does not accept.
pub stream_reg_exp-parse :
    (s : Text)
    → matches_type content_type_stream_reg_exp s ≡ (
        is_stream (parse_content_type (some s))
        || found (find (to_lower_case s) types_without_plus))
stream_reg_exp-parse s =
    matches_type-find content_type_stream_reg_exp s (unfold words in omega arith)
    ∙ stream_agrees (to_lower_case s)
    ∙ ap (λ x. is_stream x || found (find (to_lower_case s) types_without_plus))
        (sym (parse_content_type-find s))
