-- ===== src/Auth/Credentials.antt =====
-- The credentials that internal/gateway/client_manager.go passes on to a downstream server. What
-- `Header.Get` answers stands for the headers of the request; none if there are none in the context.
pub mod Passed
use Prim.Native.String
use maybe_dont.Prelude.{
  ℕ, zero, suc, String, Bool, ◌==◌, List, [], ◌∷◌, Option, none, some, if◌then◌else◌,
}
use maybe_dont.Prelude.Text.{codes, is_prefix}
use maybe_dont.Sessions.{store}
use maybe_dont.Settings.Checks.{CredentialMapping}

abbrev pub is_placeholder : String → Bool
is_placeholder s = is_prefix (codes "{value}") (codes s)

-- `strings.ReplaceAll(template, "{value}", value)`; the number counts the characters of a placeholder
-- still to pass over.
unfoldable pub fill : String → ℕ → String → String
fill value n String.[] = String.[]
fill value zero (String.◌∷◌ c s) =
    let found = is_placeholder (String.◌∷◌ c s) in
    let rest = fill value (if found then 6 else 0) s in
    if found then String.◌++◌ value rest else String.◌∷◌ c rest
fill value (suc n) (String.◌∷◌ c s) = fill value n s

unfoldable pub format_credential_value : String → String → String
unfolding fill
format_credential_value template value = if template == "" then value else fill value 0 template

abbrev pub add_headers :
    (String → String) → List CredentialMapping → List (String × String) → List (String × String)
add_headers get [] headers = headers
add_headers get (m ∷ ms) headers = add_headers get ms (
    if get m.source_header == ""
    then headers
    else store m.target_header (format_credential_value m.format (get m.source_header)) headers)

-- The function that `createAuthHeaderFunc` makes.
unfoldable pub auth_headers :
    List CredentialMapping → Option (String → String) → List (String × String)
unfolding format_credential_value
auth_headers ms none = []
auth_headers ms (some get) = add_headers get ms []
