-- ===== src/Gateway/Names.antt =====
-- The prefixed names of internal/gateway/client_manager.go.
use Prim.Native.Nat.{compare}
use Prim.Native.String.{◌++◌ as join, len, slice, find}
use text.Mathlib.Text.{find?, when, is_le}
use text.Mathlib.TextFind.{find_cases}
use text.Mathlib.TextPositions.{slice-append_left, slice-append_right, len-append}
use text.Mathlib.TextLemmas.{append_assoc as join_assoc}
use maybe_dont.Prelude.{
  ℕ, suc, ◌+◌, ◌≤◌, ◌<◌, String, ◌≡◌, refl, true, false, none, some, inl, inr, ap, sym, ◌∙◌, arith,
  ◌⊎◌, subst,
}
use maybe_dont.Gateway.{parse_prefixed_name, prefix_name, split_at}

le_true : (a b : ℕ) → a ≤ b → is_le (compare a b) ≡ true
le_true a b h = ground (arith, h)

le_false : (a b : ℕ) → b < a → is_le (compare a b) ≡ false
le_false a b h = ground (arith, h)

find?-found : (s t : String) → find s t ≤ len s → find? s t ≡ some (find s t)
find?-found s t h = ap (λ b. when b (find s t)) (le_true (find s t) (len s) h)

find?-missing : (s t : String) → find s t ≡ suc (len s) → find? s t ≡ none
find?-missing s t e = ap (λ b. when b (find s t)) (le_false (find s t) (len s) (omega (arith, e)))

tail_of : (u t v : String) → slice (join u (join t v)) (len u + len t) (len (join u (join t v))) ≡ v
tail_of u t v =
    subst (λ w. slice w (len u + len t) (len w) ≡ v) (join_assoc u t v)
      (subst (λ n. slice (join (join u t) v) n (len (join (join u t) v)) ≡ v) (len-append u t)
        (subst (λ n. slice (join (join u t) v) (len (join u t)) n ≡ v)
          (sym (len-append (join u t) v)) (slice-append_right (join u t) v)))

pair : {a b c d : String} → a ≡ b → c ≡ d → ◌≡◌ {A = String × String} (a, c) (b, d)
pair h k = rw (h, k) refl

parse_found :
    (u v : String)
    → find (join u (join "__" v)) "__" ≡ len u
    → parse_prefixed_name (join u (join "__" v)) ≡ some (u, v)
unfolding parse_prefixed_name
parse_found u v e =
    let s = join u (join "__" v) in
    ap (split_at s) (find?-found s "__" (omega (arith, e, len-append u (join "__" v))) ∙ ap some e)
    ∙ ap some (pair (slice-append_left u (join "__" v)) (tail_of u "__" v))

-- A name either has no separator and does not parse, or it parses into two names around a separator.
pub parse_prefixed_name-cases :
    (name : String)
    → (parse_prefixed_name name ≡ none)
      ⊎ ((u : String) × (v : String) × (parse_prefixed_name name ≡ some (u, v))
          × (prefix_name u v ≡ name))
unfolding parse_prefixed_name prefix_name
parse_prefixed_name-cases name = elim (find_cases name "__") [
  | inl (u, v, e, at) ↦ inr (
    u,
    v,
    subst (λ s. parse_prefixed_name s ≡ some (u, v)) (sym e)
        (parse_found u v (subst (λ s. find s "__" ≡ len u) e at)),
    sym e,
  )
  | inr e ↦ inl (ap (split_at name) (find?-missing name "__" e))
]

-- A name that parses is its two parts joined: `PrefixName` undoes `ParsePrefixedName`.
pub parse_prefixed_name_roundtrip :
    (name client_name tool : String)
    → parse_prefixed_name name ≡ some (client_name, tool)
    → prefix_name client_name tool ≡ name
parse_prefixed_name_roundtrip name client_name tool h = elim (parse_prefixed_name-cases name) [
  | inl e ↦ cc
  | inr (u, v, e, j) ↦ ground (arith, h, e, j)
]
