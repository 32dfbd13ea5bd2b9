-- ===== src/Auth/Credentials/Passed.antt =====
-- Which credentials internal/gateway/client_manager.go passes on, and in which form.
use Prim.Native.Char.{Char, code}
use Prim.Native.String
use Prim.Native.String.append
use maybe_dont.Prelude.{
  ℕ, suc, ◌≡◌, refl, sym, ◌∙◌, ap, inl, inr, String, Bool, true, false, ◌==◌, ◌&&◌, not, List, [],
  ◌∷◌, Option, none, some, or_else, eqb, ◌++◌, length, if◌then◌else◌, Bool-cases, Option-cases,
  arith, eq_iff,
}
use maybe_dont.Prelude.Text.{codes, is_prefix}
use maybe_dont.Sessions.{lookup, store, lookup-store}
use maybe_dont.Settings.Checks.{CredentialMapping}
use maybe_dont.Auth.Credentials.{
  is_placeholder, fill, format_credential_value, add_headers, auth_headers,
}

-- The value of the last mapping to a header whose source is in the request.
abbrev pub last_value : (String → String) → String → List CredentialMapping → Option String
last_value get t [] = none
last_value get t (m ∷ ms) = or_else (last_value get t ms) (
    if not (get m.source_header == "") && m.target_header == t
    then some (format_credential_value m.format (get m.source_header))
    else none)

add_headers-lookup :
    (get : String → String) (t : String) (ms : List CredentialMapping) (hs : List (String × String))
    → lookup t (add_headers get ms hs) ≡ or_else (last_value get t ms) (lookup t hs)
add_headers-lookup get t [] hs = refl
add_headers-lookup get t (m ∷ ms) hs =
    let x = format_credential_value m.format (get m.source_header) in
    elim (Bool-cases (get m.source_header == "")) [
      | inl e ↦
          let ih = add_headers-lookup get t ms hs in
          elim (Option-cases (last_value get t ms)) [
            | inl l ↦ rw (e, l) (ih ∙ rw l refl)
            | inr (v, l) ↦ rw (e, l) (ih ∙ rw l refl)
          ]
      | inr e ↦
          let ih = add_headers-lookup get t ms (store m.target_header x hs) in
          let put = lookup-store m.target_header t x hs in
          elim (Option-cases (last_value get t ms)) [
            | inl l ↦ elim (Bool-cases (m.target_header == t)) [
              | inl f ↦ rw (e, l, f) (ih ∙ rw (l, put, f) refl)
              | inr f ↦ rw (e, l, f) (ih ∙ rw (l, put, f) refl)
            ]
            | inr (v, l) ↦ rw (e, l) (ih ∙ rw l refl)
          ]
    ]

or_none : (a : Option String) → or_else a none ≡ a
or_none none = refl
or_none (some x) = refl

-- A downstream server is passed exactly the headers that its mappings name as targets and whose source
-- the request has, each as the last such mapping formats it; without request headers it is passed none.
pub auth_headers-lookup :
    (ms : List CredentialMapping) (request : Option (String → String)) (t : String)
    → lookup t (auth_headers ms request)
      ≡ elim request [ none ↦ none | some get ↦ last_value get t ms ]
unfolding auth_headers
auth_headers-lookup ms none t = refl
auth_headers-lookup ms (some get) t = add_headers-lookup get t ms [] ∙ or_none (last_value get t ms)

-- No `{` in a text.
abbrev pub is_plain : String → Bool
is_plain String.[] = true
is_plain (String.◌∷◌ c s) = not (eqb (code c) 123) && is_plain s

plain_start :
    (c : Char) (s : String) → eqb (code c) 123 ≡ false → is_placeholder (String.◌∷◌ c s) ≡ false
plain_start c s h = ground (arith, h)

codes-append : (a b : String) → codes (String.◌++◌ a b) ≡ codes a ++ codes b
codes-append String.[] b = ap codes (append.nil b)
codes-append (String.◌∷◌ c s) b =
    ap codes (append.cons c s b) ∙ ap (λ l. code c ∷ l) (codes-append s b)

fill_past :
    (value : String) (c : Char) (s : String)
    → eqb (code c) 123 ≡ false
    → fill value 0 (String.◌∷◌ c s) ≡ String.◌∷◌ c (fill value 0 s)
unfolding fill
fill_past value c s h = rw (plain_start c s h) refl

fill_plain :
    (value a rest : String)
    → is_plain a ≡ true
    → fill value 0 (String.◌++◌ a rest) ≡ String.◌++◌ a (fill value 0 rest)
fill_plain value String.[] rest h =
    ap (fill value 0) (append.nil rest) ∙ sym (append.nil (fill value 0 rest))
fill_plain value (String.◌∷◌ c s) rest h =
    ap (fill value 0) (append.cons c s rest)
    ∙ fill_past value c (String.◌++◌ s rest) (ground (arith, h))
    ∙ ap (String.◌∷◌ c) (fill_plain value s rest (ground (arith, h)))
    ∙ sym (append.cons c s (fill value 0 rest))

fill_end : (value b : String) → is_plain b ≡ true → fill value 0 b ≡ b
unfolding fill
fill_end value String.[] h = refl
fill_end value (String.◌∷◌ c s) h =
    fill_past value c s (ground (arith, h))
    ∙ ap (String.◌∷◌ c) (fill_end value s (ground (arith, h)))

fill_skips : (value s b : String) → fill value (length (codes s)) (String.◌++◌ s b) ≡ fill value 0 b
unfolding fill
fill_skips value String.[] b = ap (fill value 0) (append.nil b)
fill_skips value (String.◌∷◌ c s) b =
    ap (fill value (suc (length (codes s)))) (append.cons c s b) ∙ fill_skips value s b

fill_found :
    (value : String) (c : Char) (s : String)
    → is_placeholder (String.◌∷◌ c s) ≡ true
    → fill value 0 (String.◌∷◌ c s) ≡ String.◌++◌ value (fill value 6 s)
unfolding fill
fill_found value c s h = rw h refl

placeholder_found : (b : String) → is_placeholder (String.◌++◌ "{value}" b) ≡ true
placeholder_found b = ap (is_prefix (codes "{value}")) (codes-append "{value}" b)

fill_placeholder :
    (value b : String) → fill value 0 (String.◌++◌ "{value}" b) ≡ String.◌++◌ value (fill value 0 b)
fill_placeholder value b =
    let e = append.cons _ "value}" b in
    ap (fill value 0) e
    ∙ fill_found value _ (String.◌++◌ "value}" b) (ap is_placeholder (sym e) ∙ placeholder_found b)
    ∙ ap (String.◌++◌ value) (fill_skips value "value}" b)

filled : (l m : List ℕ) (c : ℕ) → l ++ (c ∷ m) ≡ [] → ⊥
filled [] m c h = cc
filled (d ∷ l) m c h = cc

template_filled : (a b : String) → (String.◌++◌ a (String.◌++◌ "{value}" b) == "") ≡ false
template_filled a b = elim (Bool-cases (String.◌++◌ a (String.◌++◌ "{value}" b) == "")) [
  | inl e ↦ absurd (
      filled (codes a) (codes (String.◌++◌ "value}" b)) 123 (
        sym (
          codes-append a (String.◌++◌ "{value}" b)
          ∙ ap (λ l. codes a ++ l) (ap codes (append.cons _ "value}" b)))
        ∙ ap codes ((eq_iff _ _).0 e)))
  | inr e ↦ e
]

-- A template with one placeholder puts the whole credential in its place, whatever characters the
-- credential has, and keeps the rest.
pub format_credential_value-fills :
    (value a b : String)
    → is_plain a ≡ true
    → is_plain b ≡ true
    → format_credential_value (String.◌++◌ a (String.◌++◌ "{value}" b)) value
      ≡ String.◌++◌ a (String.◌++◌ value b)
unfolding format_credential_value
format_credential_value-fills value a b h k = rw (template_filled a b) (
    fill_plain value a (String.◌++◌ "{value}" b) h
    ∙ ap (String.◌++◌ a) (fill_placeholder value b ∙ ap (String.◌++◌ value) (fill_end value b k)))
