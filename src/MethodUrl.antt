-- ===== src/MethodUrl.antt =====
-- create-method-url.ts of packages/connect-core/src.
use connect_web.Prelude.{ℕ, [], ◌∷◌, ◌++◌, ◌≡◌, ap, ◌≢◌, arith, ◌==◌, if◌then◌else◌}
use connect_web.Text.{Text}

-- `baseUrl.replace(/\/?$/, path)`: one slash at the end is left out
unfoldable pub replace_slash : Text → Text → Text
replace_slash [] path = path
replace_slash (c ∷ []) path = if c == b'/' then path else c ∷ path
replace_slash (c ∷ d ∷ s) path = c ∷ replace_slash (d ∷ s) path

unfoldable pub create_method_url : Text → Text → Text → Text
unfolding replace_slash
create_method_url base_url service method =
    replace_slash base_url (b'/' ∷ (service ++ (b'/' ∷ method)))

-- a base URL with and without a slash at its end
pub create_method_url-slash :
    (base service method : Text) (c : ℕ)
    → c ≢ b'/'
    → create_method_url (base ++ (c ∷ b'/' ∷ [])) service method
      ≡ create_method_url (base ++ (c ∷ [])) service method
unfolding create_method_url replace_slash
create_method_url-slash [] service method c h = ground arith
create_method_url-slash (d ∷ []) service method c h = ground arith
create_method_url-slash (d ∷ e ∷ s) service method c h =
    ap (◌∷◌ d) (create_method_url-slash (e ∷ s) service method c h)
