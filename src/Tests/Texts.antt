-- ===== src/Tests/Texts.antt =====
-- Runs of the percent encoding of URI components.
use connect_web.Prelude.{[], ◌∷◌, ◌≡◌, refl, none, some}
use connect_web.Text.{codes}
use connect_web.Text.Percent.{encode_uri_component, decode_uri_component, is_unescaped, utf8}

-- round trips of characters of one, two and four bytes, and a sequence that is too long
encode_runs :
    encode_uri_component (0x41 ∷ 0x20 ∷ 0xe9 ∷ 0xd83d ∷ 0xde00 ∷ [])
    ≡ some (codes "A%20%C3%A9%F0%9F%98%80")
unfolding encode_uri_component is_unescaped utf8
encode_runs = refl

decode_runs :
    decode_uri_component (codes "A%20%C3%A9%F0%9F%98%80")
    ≡ some (0x41 ∷ 0x20 ∷ 0xe9 ∷ 0xd83d ∷ 0xde00 ∷ [])
unfolding decode_uri_component
decode_runs = refl

decode_overlong : decode_uri_component (codes "%C0%80") ≡ none
unfolding decode_uri_component
decode_overlong = refl
