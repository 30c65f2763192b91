-- ===== src/GrpcWeb/ContentType.antt =====
-- content-type.ts and parse-content-type.ts of packages/connect-core/src/protocol-grpc-web.
use connect_web.Prelude.{
  ℕ, Bool, true, false, not, List, [], ◌∷◌, ◌≡◌, refl, sym, ap, ◌∙◌, Option, none, some, arith,
}
use mathlib.Core.Option
use connect_web.Text.{Text, codes, to_lower_case}
use connect_web.Pattern.{Pattern, lit, seq, choice, optional, group, match_whole, captured}
use connect_web.Pattern.Words.{words, table, find, match_whole-ignore_case, match_whole-exact}
use connect_web.Connect.ContentType.{charset}

-- `(?:\+(?:(json)(?:; ?charset=utf-?8)?|proto))?`
abbrev message_format : Pattern
message_format = optional (
    seq (lit (codes "+"))
      (choice (seq (group 2 (lit (codes "json"))) charset) (lit (codes "proto"))))

-- `/^application\/grpc-web(-text)?(?:\+(?:(json)(?:; ?charset=utf-?8)?|proto))?$/i`
abbrev pub content_type_reg_exp : Pattern
content_type_reg_exp =
    seq (lit (codes "application/grpc-web"))
      (seq (optional (group 1 (lit (codes "-text")))) message_format)

abbrev pub content_type_proto : Text
content_type_proto = codes "application/grpc-web+proto"

abbrev pub content_type_json : Text
content_type_json = codes "application/grpc-web+json"

pub record ParsedType : Type 0 where
  pub text : Bool
  pub binary : Bool

of_groups : List ℕ → ParsedType
unfolding captured
of_groups groups = record { text = captured 1 groups; binary = not (captured 2 groups) }

-- `parseContentType` of content-type.ts, on a header value or null
unfoldable pub parse_content_type : Option Text → Option ParsedType
unfolding of_groups
parse_content_type none = none
parse_content_type (some s) = Option.map of_groups (match_whole true content_type_reg_exp s)

-- `parseContentType` of parse-content-type.ts, which lowers the case first
unfoldable pub parse_lower_content_type : Option Text → Option ParsedType
unfolding of_groups
parse_lower_content_type none = none
parse_lower_content_type (some s) =
    Option.map of_groups (match_whole false content_type_reg_exp (to_lower_case s))

abbrev parsed : Bool → Bool → ParsedType
parsed text binary = record { text = text; binary = binary }

abbrev pub content_types : List (Text × ParsedType)
content_types =
    (codes "application/grpc-web-text+json; charset=utf-8", parsed true false)
    ∷ (codes "application/grpc-web-text+json; charset=utf8", parsed true false)
    ∷ (codes "application/grpc-web-text+json;charset=utf-8", parsed true false)
    ∷ (codes "application/grpc-web-text+json;charset=utf8", parsed true false)
    ∷ (codes "application/grpc-web-text+json", parsed true false)
    ∷ (codes "application/grpc-web-text+proto", parsed true true)
    ∷ (codes "application/grpc-web-text", parsed true true)
    ∷ (codes "application/grpc-web+json; charset=utf-8", parsed false false)
    ∷ (codes "application/grpc-web+json; charset=utf8", parsed false false)
    ∷ (codes "application/grpc-web+json;charset=utf-8", parsed false false)
    ∷ (codes "application/grpc-web+json;charset=utf8", parsed false false)
    ∷ (codes "application/grpc-web+json", parsed false false)
    ∷ (codes "application/grpc-web+proto", parsed false true)
    ∷ (codes "application/grpc-web", parsed false true)
    ∷ []

type_words : table of_groups (words content_type_reg_exp) ≡ content_types
unfolding table words of_groups
type_words = refl

-- `parseContentType` accepts a value exactly if its lower case is one of the fourteen content types
-- listed in `content_types`, and returns what that list says of the text encoding and the binary format.
pub parse_grpc_web_type-find :
    (s : Text) → parse_content_type (some s) ≡ find (to_lower_case s) content_types
unfolding parse_content_type
parse_grpc_web_type-find s =
    match_whole-ignore_case of_groups content_type_reg_exp s (unfold words in omega arith)
    ∙ ap (find (to_lower_case s)) type_words

-- The two versions of `parseContentType` agree on every header value.
pub parse_lower_grpc_web_type-eq :
    (s : Option Text) → parse_lower_content_type s ≡ parse_content_type s
unfolding parse_lower_content_type
parse_lower_grpc_web_type-eq none = unfold parse_content_type in refl
parse_lower_grpc_web_type-eq (some s) =
    match_whole-exact of_groups content_type_reg_exp (to_lower_case s)
    ∙ ap (find (to_lower_case s)) type_words
    ∙ sym (parse_grpc_web_type-find s)
