-- ===== src/Auth/Globs/Meaning.antt =====
-- What a glob of internal/gateway/auth_middleware.go becomes: when the pattern made of it compiles, and
-- to what.
use maybe_dont.Prelude.{
  some_of, ◌||◌, none, ℕ, ◌≡◌, refl, sym, ◌∙◌, ap, subst, inl, inr, Bool, true, false, ◌&&◌, List,
  [], ◌∷◌, ◌++◌, some, map, eqb, if◌then◌else◌, Bool-cases, arith,
}
use maybe_dont.Auth.Globs.{
  compile_parts, is_stray, Atom, literal, some_more, is_special, put, quote_meta, replace_stars,
  glob_pattern, compile_rest, compile,
}

abbrev pub atom : ℕ → Atom
atom c = if eqb c 42 then some_more else literal c

abbrev starts_star : List ℕ → Bool
starts_star [] = false
starts_star (d ∷ ds) = eqb d 42

replace_keeps :
    (c : ℕ) (t : List ℕ)
    → (eqb c 92 && starts_star t) ≡ false
    → replace_stars (c ∷ t) ≡ c ∷ replace_stars t
unfolding replace_stars
replace_keeps c [] h = refl
replace_keeps c (d ∷ ds) h = rw (h, replace_stars) refl

-- A quoted text never begins with a star, so a backslash before it stays a backslash.
quoted_unstarred : (cs : List ℕ) → starts_star (quote_meta cs ++ 36 ∷ []) ≡ false
unfolding quote_meta
quoted_unstarred [] = refl
quoted_unstarred (c ∷ cs) = elim (Bool-cases (is_special c)) [
  | inl s ↦ rw s refl
  | inr s ↦ rw s (ground (arith, s))
]

abbrev quoted : List ℕ → List ℕ
quoted cs = quote_meta cs ++ 36 ∷ []

quoted_special : (c : ℕ) (cs : List ℕ) → is_special c ≡ true → quoted (c ∷ cs) ≡ 92 ∷ c ∷ quoted cs
unfolding quote_meta
quoted_special c cs h = rw h refl

quoted_plain : (c : ℕ) (cs : List ℕ) → is_special c ≡ false → quoted (c ∷ cs) ≡ c ∷ quoted cs
unfolding quote_meta
quoted_plain c cs h = rw h refl

abbrev IsFilled : List ℕ → Type 0
IsFilled [] = ⊥
IsFilled (c ∷ cs) = Unit

replaced-IsFilled_by :
    (c d : ℕ) (ds : List ℕ) (b : Bool)
    → (eqb c 92 && eqb d 42) ≡ b
    → IsFilled (replace_stars (c ∷ d ∷ ds))
unfolding replace_stars
replaced-IsFilled_by c d ds true h = rw (h, replace_stars, IsFilled) tt
replaced-IsFilled_by c d ds false h = rw (h, replace_stars, IsFilled) tt

replaced-IsFilled : (c : ℕ) (t : List ℕ) → IsFilled (replace_stars (c ∷ t))
unfolding replace_stars
replaced-IsFilled c [] = tt
replaced-IsFilled c (d ∷ ds) = replaced-IsFilled_by c d ds (eqb c 92 && eqb d 42) refl

quoted-IsFilled : (cs : List ℕ) → IsFilled (replace_stars (quoted cs))
unfolding quote_meta
quoted-IsFilled [] = replaced-IsFilled 36 []
quoted-IsFilled (c ∷ cs) = elim (Bool-cases (is_special c)) [
  | inl s ↦ rw s (replaced-IsFilled 92 (c ∷ quoted cs))
  | inr s ↦ rw s (replaced-IsFilled c (quoted cs))
]

compile_plain :
    (c : ℕ) (r : List ℕ)
    → is_special c ≡ false
    → IsFilled r
    → compile_rest (c ∷ r) ≡ put (literal c) (compile_rest r)
unfolding compile_rest
compile_plain c [] h f = absurd f
compile_plain c (d ∷ ds) h f = ground (arith, h)

compile_escaped :
    (c : ℕ) (r : List ℕ)
    → is_special c ≡ true
    → compile_rest (92 ∷ c ∷ r) ≡ put (literal c) (compile_rest r)
unfolding compile_rest
compile_escaped c r h = rw h refl

star_compiled :
    (cs : List ℕ)
    → compile_rest (replace_stars (quoted cs)) ≡ some (map atom cs)
    → compile_rest (replace_stars (92 ∷ 42 ∷ quoted cs)) ≡ some (some_more ∷ map atom cs)
unfolding compile_rest replace_stars
star_compiled cs ih = rw ih refl

escaped_compiled :
    (c : ℕ) (cs : List ℕ)
    → is_special c ≡ true
    → eqb c 42 ≡ false
    → compile_rest (replace_stars (quoted cs)) ≡ some (map atom cs)
    → compile_rest (replace_stars (92 ∷ c ∷ quoted cs)) ≡ some (literal c ∷ map atom cs)
escaped_compiled c cs s n ih =
    ap compile_rest (
      replace_keeps 92 (c ∷ quoted cs) n
      ∙ ap (λ r. 92 ∷ r) (replace_keeps c (quoted cs) (rw (quoted_unstarred cs) (ground arith))))
    ∙ compile_escaped c (replace_stars (quoted cs)) s
    ∙ ap (put (literal c)) ih

plain_compiled :
    (c : ℕ) (cs : List ℕ)
    → is_special c ≡ false
    → compile_rest (replace_stars (quoted cs)) ≡ some (map atom cs)
    → compile_rest (replace_stars (c ∷ quoted cs)) ≡ some (literal c ∷ map atom cs)
plain_compiled c cs s ih =
    ap compile_rest (replace_keeps c (quoted cs) (ground (arith, s)))
    ∙ compile_plain c (replace_stars (quoted cs)) s (quoted-IsFilled cs)
    ∙ ap (put (literal c)) ih

pub literal_atom : (c : ℕ) → eqb c 42 ≡ false → atom c ≡ literal c
literal_atom c h = rw h refl

pub equal_star : (c : ℕ) → eqb c 42 ≡ true → c ≡ 42
equal_star c h = ground arith

glob_compiled : (cs : List ℕ) → compile_rest (replace_stars (quoted cs)) ≡ some (map atom cs)
unfolding quote_meta replace_stars compile_rest
glob_compiled [] = refl
glob_compiled (c ∷ cs) =
    let ih = glob_compiled cs in
    elim (Bool-cases (eqb c 42)) [
      | inl e ↦
          subst (λ d. compile_rest (replace_stars (quoted (d ∷ cs))) ≡ some (atom d ∷ map atom cs))
            (sym (equal_star c e)) (star_compiled cs ih)
      | inr e ↦ elim (Bool-cases (is_special c)) [
        | inl s ↦
            ap (λ l. compile_rest (replace_stars l)) (quoted_special c cs s)
            ∙ escaped_compiled c cs s e ih
            ∙ ap (λ a. some (a ∷ map atom cs)) (sym (literal_atom c e))
        | inr s ↦
            ap (λ l. compile_rest (replace_stars l)) (quoted_plain c cs s)
            ∙ plain_compiled c cs s ih
            ∙ ap (λ a. some (a ∷ map atom cs)) (sym (literal_atom c e))
      ]
    ]

parts_compiled : (value : List ℕ) → compile_parts (glob_pattern value) ≡ some (map atom value)
unfolding compile_parts glob_pattern
parts_compiled value = ap compile_parts (replace_keeps 94 (quoted value) refl) ∙ glob_compiled value

quoted_stray : (cs : List ℕ) → some_of is_stray (quoted cs) ≡ some_of is_stray cs
unfolding quote_meta
quoted_stray [] = refl
quoted_stray (c ∷ cs) = elim (Bool-cases (is_special c)) [
  | inl h ↦ rw h (ap (λ b. is_stray c || b) (quoted_stray cs))
  | inr h ↦ rw h (ap (λ b. is_stray c || b) (quoted_stray cs))
]

replaced_match :
    (c d : ℕ) (cs : List ℕ)
    → (eqb c 92 && eqb d 42) ≡ true
    → replace_stars (c ∷ d ∷ cs) ≡ 46 ∷ 43 ∷ replace_stars cs
unfolding replace_stars
replaced_match c d cs h = rw (h, replace_stars) refl

replaced_stray : (cs : List ℕ) → some_of is_stray (replace_stars cs) ≡ some_of is_stray cs
unfolding replace_stars
replaced_stray [] = refl
replaced_stray (c ∷ []) = refl
replaced_stray (c ∷ d ∷ cs) = elim (Bool-cases (eqb c 92 && eqb d 42)) [
  | inl h ↦
      ap (some_of is_stray) (replaced_match c d cs h) ∙ (replaced_stray cs ∙ ground (arith, h))
  | inr h ↦
      ap (some_of is_stray) (replace_keeps c (d ∷ cs) h)
      ∙ ap (λ b. is_stray c || b) (replaced_stray (d ∷ cs))
]

pattern_stray : (value : List ℕ) → some_of is_stray (glob_pattern value) ≡ some_of is_stray value
unfolding glob_pattern
pattern_stray value = replaced_stray (94 ∷ quoted value) ∙ quoted_stray value

-- The pattern made of valid UTF-8 compiles, whatever characters the text has: each star becomes `.+`
-- and every other character itself.
pub glob_pattern-compiles :
    (value : List ℕ)
    → some_of is_stray value ≡ false
    → compile (glob_pattern value) ≡ some (map atom value)
unfolding compile
glob_pattern-compiles value h = rw (pattern_stray value, h) (parts_compiled value)

-- The pattern made of any other text does not.
pub glob_pattern-stray :
    (value : List ℕ) → some_of is_stray value ≡ true → compile (glob_pattern value) ≡ none
unfolding compile
glob_pattern-stray value h = rw (pattern_stray value, h) refl
