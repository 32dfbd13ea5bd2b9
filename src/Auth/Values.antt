-- ===== src/Auth/Values.antt =====
-- How internal/gateway/auth_middleware.go reads the allowed values, and what each of them allows.
use maybe_dont.Prelude.{
  ◌≡◌, ◌↔◌, ◌⊎◌, refl, sym, subst, inl, inr, String, Bool, true, false, ◌==◌, ◌&&◌, ◌||◌, not, List,
  [], ◌∷◌, none, some, map, select, some_of, if◌then◌else◌, Bool-cases, arith, eq_iff,
}
use maybe_dont.Prelude.Text.{codes}
use maybe_dont.Auth.Globs.{is_stray, match_string}
use maybe_dont.Auth.Globs.Meaning.{atom, glob_pattern-compiles, glob_pattern-stray}
use maybe_dont.Auth.Globs.Matching.{Denotes, match_string-Denotes}
use maybe_dont.Auth.{
  AllowedValue, AuthError, parsed, unusable, only_wildcards, not_compiled, has_star, only_stars,
  parse_allowed_value, parse_values, matches, matches_any,
}

-- A value without a star allows itself, a glob what it denotes.
abbrev pub Allows : String → String → Type 0
Allows v h = if has_star v then Denotes (codes v) (codes h) else h ≡ v

abbrev pub AllowsOneOf : List String → String → Type 0
AllowsOneOf [] h = ⊥
AllowsOneOf (v ∷ vs) h = Allows v h ⊎ AllowsOneOf vs h

-- A glob without any other character, or that is not valid UTF-8.
abbrev pub is_unusable : String → Bool
is_unusable v = has_star v && (only_stars (codes v) || some_of is_stray (codes v))

abbrev pub present : List String → List String
present vs = select (λ v. not (v == "")) vs

abbrev pub value_of : String → AllowedValue
value_of v = record { original = v; regex = if has_star v then some (map atom (codes v)) else none }

exact_value : (v : String) → has_star v ≡ false → parse_allowed_value v ≡ parsed (value_of v)
unfolding parse_allowed_value
exact_value v h = rw h refl

glob_value :
    (v : String)
    → has_star v ≡ true
    → only_stars (codes v) ≡ false
    → some_of is_stray (codes v) ≡ false
    → parse_allowed_value v ≡ parsed (value_of v)
unfolding parse_allowed_value
glob_value v h k u = rw (h, k, glob_pattern-compiles (codes v) u) refl

usable_value : (v : String) → is_unusable v ≡ false → parse_allowed_value v ≡ parsed (value_of v)
usable_value v h = elim (Bool-cases (has_star v)) [
  | inl s ↦ glob_value v s (ground (arith, h, s)) (ground (arith, h, s))
  | inr s ↦ exact_value v s
]

unusable_value :
    (v : String) → is_unusable v ≡ true → (e : AuthError) × (parse_allowed_value v ≡ unusable e)
unfolding parse_allowed_value
unusable_value v h = elim (Bool-cases (only_stars (codes v))) [
  | inl o ↦ (only_wildcards v, ground (arith, h, o))
  | inr o ↦
      let s : has_star v ≡ true = ground (arith, h, o) in
      (not_compiled v, rw (s, o, glob_pattern-stray (codes v) (ground (arith, h, o))) refl)
]

pub values_usable :
    (vs : List String)
    → some_of is_unusable (present vs) ≡ false
    → parse_values vs ≡ inl (map value_of (present vs))
unfolding parse_values
values_usable [] h = refl
values_usable (v ∷ vs) h = elim (Bool-cases (v == "")) [
  | inl e ↦ rw e (values_usable vs (rw e at h))
  | inr e ↦
      let k : (is_unusable v || some_of is_unusable (present vs)) ≡ false = rw e at h in
      rw (e, usable_value v (ground (arith, k)), values_usable vs (ground (arith, k))) refl
]

pub values_unusable :
    (vs : List String)
    → some_of is_unusable (present vs) ≡ true
    → (e : AuthError) × (parse_values vs ≡ inr e)
unfolding parse_values
values_unusable [] h = absurd (cc)
values_unusable (v ∷ vs) h = elim (Bool-cases (v == "")) [
  | inl e ↦ let (x, p) = values_unusable vs (rw e at h) in (x, rw (e, p) refl)
  | inr e ↦
      let k : (is_unusable v || some_of is_unusable (present vs)) ≡ true = rw e at h in
      elim (Bool-cases (is_unusable v)) [
        | inl b ↦ let (x, p) = unusable_value v b in (x, rw (e, p) refl)
        | inr b ↦
            let (x, p) = values_unusable vs (ground (arith, k, b)) in
            (x, rw (e, usable_value v b, p) refl)
      ]
]

glob_matches :
    (v h : String)
    → has_star v ≡ true
    → matches (value_of v) h ≡ match_string (map atom (codes v)) (codes h)
unfolding matches
glob_matches v h s = rw s refl

exact_matches : (v h : String) → has_star v ≡ false → matches (value_of v) h ≡ (h == v)
unfolding matches
exact_matches v h s = rw s refl

glob-Allows : (v h : String) → has_star v ≡ true → Allows v h ≡ Denotes (codes v) (codes h)
glob-Allows v h s = rw s refl

exact-Allows : (v h : String) → has_star v ≡ false → Allows v h ≡ (h ≡ v)
exact-Allows v h s = rw s refl

-- A value that was read matches exactly the headers that it allows.
matches-Allows : (v h : String) → (matches (value_of v) h ≡ true) ↔ Allows v h
matches-Allows v h = elim (Bool-cases (has_star v)) [
  | inl s ↦
      subst (λ T. (matches (value_of v) h ≡ true) ↔ T) (sym (glob-Allows v h s))
        (subst (λ b. (b ≡ true) ↔ Denotes (codes v) (codes h)) (sym (glob_matches v h s))
          (match_string-Denotes (codes v) (codes h)))
  | inr s ↦
      subst (λ T. (matches (value_of v) h ≡ true) ↔ T) (sym (exact-Allows v h s))
        (subst (λ b. (b ≡ true) ↔ (h ≡ v)) (sym (exact_matches v h s)) (eq_iff h v))
]

or_true : (a b : Bool) → (a || b) ≡ true → (a ≡ true) ⊎ (b ≡ true)
or_true true b h = inl refl
or_true false b h = inr h

pub matches_any-Allows :
    (vs : List String) (h : String) → (matches_any (map value_of vs) h ≡ true) ↔ AllowsOneOf vs h
unfolding matches_any
matches_any-Allows [] h = (λ e. absurd (cc), λ x. absurd x)
matches_any-Allows (v ∷ vs) h =
    let (f, g) = matches-Allows v h in
    let (p, q) = matches_any-Allows vs h in
    (
      λ e. elim (or_true (matches (value_of v) h) (matches_any (map value_of vs) h) e) [
        | inl a ↦ inl (f a)
        | inr b ↦ inr (p b)
      ],
      λ x. elim x [
        | inl a ↦ let k = g a in ground (arith, k)
        | inr b ↦ let k = q b in ground (arith, k)
      ],
    )
