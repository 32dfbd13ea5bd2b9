-- ===== src/Sanitize/Escapes.antt =====
-- What the repair of internal/gateway/json_sanitize.go does to a text.
use mathlib.Core.Bool.{false≢true}
use maybe_dont.Prelude.{
  ℕ, ◌+◌, ◌*◌, ◌≤◌, ◌≡◌, refl, sym, ap, subst, ◌∙◌, Bool, true, false, ◌&&◌, not, List, [], ◌∷◌,
  Option, none, some, eqb, length, inl, inr, arith, if◌then◌else◌, Bool-cases,
}
use maybe_dont.Sanitize.{
  quote, backslash, is_valid_json_escape, contains_backslash, not_escaped, escape_pair,
  sanitize_loop, sanitize_json_escapes,
}

-- One round of the loop, by what it finds.
module _ (b : Bool) (p : Option ℕ) (c n : ℕ) (rest : List ℕ) where
  toggles :
      (eqb c quote && not_escaped p) ≡ true
      → sanitize_loop b p (c ∷ n ∷ rest) ≡ c ∷ sanitize_loop (not b) (some c) (n ∷ rest)
  unfolding sanitize_loop
  toggles e = rw (e, sanitize_loop)

  escapes :
      (eqb c quote && not_escaped p) ≡ false
      → (b && eqb c backslash) ≡ true
      → sanitize_loop b p (c ∷ n ∷ rest) ≡ escape_pair n (sanitize_loop b (some n) rest)
  unfolding sanitize_loop
  escapes e f = rw (e, f, sanitize_loop)

  copies :
      (eqb c quote && not_escaped p) ≡ false
      → (b && eqb c backslash) ≡ false
      → sanitize_loop b p (c ∷ n ∷ rest) ≡ c ∷ sanitize_loop b (some c) (n ∷ rest)
  unfolding sanitize_loop
  copies e f = rw (e, f, sanitize_loop)

escape_pair-length :
    (n : ℕ) (rest : List ℕ)
    → (length rest + 2 ≤ length (escape_pair n rest))
      × (length (escape_pair n rest) ≤ length rest + 3)
escape_pair-length n rest = elim (Bool-cases (is_valid_json_escape n)) [
  | inl e ↦ rw e (omega arith, omega arith)
  | inr e ↦ rw e (omega arith, omega arith)
]

sanitize_loop-length :
    (b : Bool) (p : Option ℕ) (s : List ℕ)
    → (length s ≤ length (sanitize_loop b p s)) × (length (sanitize_loop b p s) ≤ 2 * length s)
sanitize_loop-length b p [] = unfold sanitize_loop in (omega arith, omega arith)
sanitize_loop-length b p (c ∷ []) = unfold sanitize_loop in (omega arith, omega arith)
sanitize_loop-length b p (c ∷ n ∷ rest) = elim (Bool-cases (eqb c quote && not_escaped p)) [
  | inl e ↦
      let (l, h) = sanitize_loop-length (not b) (some c) (n ∷ rest) in
      rw (toggles b p c n rest e) (omega arith, omega arith)
  | inr e ↦ elim (Bool-cases (b && eqb c backslash)) [
    | inl f ↦
        let (l, h) = sanitize_loop-length b (some n) rest in
        let (l', h') = escape_pair-length n (sanitize_loop b (some n) rest) in
        rw (escapes b p c n rest e f) (omega arith, omega arith)
    | inr f ↦
        let (l, h) = sanitize_loop-length b (some c) (n ∷ rest) in
        rw (copies b p c n rest e f) (omega arith, omega arith)
  ]
]

-- The repaired text is at least as long as the text, and at most twice as long; a text with no
-- backslash is returned as it is.
pub sanitize_json_escapes-length :
    (s : List ℕ)
    → (length s ≤ length (sanitize_json_escapes s))
      × (length (sanitize_json_escapes s) ≤ 2 * length s)
      × (contains_backslash s ≡ false → sanitize_json_escapes s ≡ s)
unfolding sanitize_json_escapes
sanitize_json_escapes-length s = elim (Bool-cases (contains_backslash s)) [
  | inl e ↦
      let (l, h) = sanitize_loop-length false none s in
      rw e (l, h, λ k. absurd (false≢true (sym k)))
  | inr e ↦ rw e (omega arith, omega arith, λ _. refl)
]

toggle_any :
    (b : Bool) (p : Option ℕ) (c : ℕ) (xs : List ℕ)
    → (eqb c quote && not_escaped p) ≡ true
    → sanitize_loop b p (c ∷ xs) ≡ c ∷ sanitize_loop (not b) (some c) xs
toggle_any b p c [] e = unfold sanitize_loop in refl
toggle_any b p c (n ∷ rest) e = toggles b p c n rest e

copy_any :
    (b : Bool) (p : Option ℕ) (c : ℕ) (xs : List ℕ)
    → (eqb c quote && not_escaped p) ≡ false
    → (b && eqb c backslash) ≡ false
    → sanitize_loop b p (c ∷ xs) ≡ c ∷ sanitize_loop b (some c) xs
copy_any b p c [] e f = unfold sanitize_loop in refl
copy_any b p c (n ∷ rest) e f = copies b p c n rest e f

-- A repaired pair, with a text behind it, is left as it is.
pair_kept :
    (p : Option ℕ) (n : ℕ) (xs : List ℕ)
    → sanitize_loop true p (escape_pair n xs) ≡ escape_pair n (sanitize_loop true (some n) xs)
unfolding is_valid_json_escape
pair_kept p n xs = elim (Bool-cases (is_valid_json_escape n)) [
  | inl e ↦ rw e (escapes true p backslash n xs refl refl ∙ kept e)
  | inr e ↦ rw e (
      escapes true p backslash backslash (n ∷ xs) refl refl
      ∙ ap (λ (t : List ℕ). backslash ∷ backslash ∷ t)
          (copy_any true (some backslash) n xs (plain_quote n) (plain_backslash e)))
]
  where
    kept :
        is_valid_json_escape n ≡ true
        → escape_pair n (sanitize_loop true (some n) xs)
          ≡ backslash ∷ n ∷ sanitize_loop true (some n) xs
    kept e = rw e refl

    plain_quote : (n : ℕ) → (eqb n quote && not_escaped (some backslash)) ≡ false
    plain_quote n = ground arith

    plain_backslash : is_valid_json_escape n ≡ false → (true && eqb n backslash) ≡ false
    plain_backslash e = ground arith

inside : (b : Bool) (c : ℕ) → (b && eqb c backslash) ≡ true → b ≡ true
inside b c h = ground arith

sanitize_loop_idem :
    (b : Bool) (p : Option ℕ) (s : List ℕ)
    → sanitize_loop b p (sanitize_loop b p s) ≡ sanitize_loop b p s
sanitize_loop_idem b p [] = unfold sanitize_loop in refl
sanitize_loop_idem b p (c ∷ []) = unfold sanitize_loop in refl
sanitize_loop_idem b p (c ∷ n ∷ rest) = elim (Bool-cases (eqb c quote && not_escaped p)) [
  | inl e ↦ rw (toggles b p c n rest e) (
      toggle_any b p c (sanitize_loop (not b) (some c) (n ∷ rest)) e
      ∙ ap (◌∷◌ c) (sanitize_loop_idem (not b) (some c) (n ∷ rest)))
  | inr e ↦ elim (Bool-cases (b && eqb c backslash)) [
    | inl f ↦ rw (escapes b p c n rest e f) (
        subst
          (λ (d : Bool).
            sanitize_loop d p (escape_pair n (sanitize_loop d (some n) rest))
            ≡ escape_pair n (sanitize_loop d (some n) rest))
          (sym (inside b c f))
          (pair_kept p n (sanitize_loop true (some n) rest)
            ∙ ap (escape_pair n) (sanitize_loop_idem true (some n) rest)))
    | inr f ↦ rw (copies b p c n rest e f) (
        copy_any b p c (sanitize_loop b (some c) (n ∷ rest)) e f
        ∙ ap (◌∷◌ c) (sanitize_loop_idem b (some c) (n ∷ rest)))
  ]
]

-- Repairing a repaired text changes nothing.
pub sanitize_json_escapes_idem :
    (s : List ℕ) → sanitize_json_escapes (sanitize_json_escapes s) ≡ sanitize_json_escapes s
unfolding sanitize_json_escapes
sanitize_json_escapes_idem s = elim (Bool-cases (contains_backslash s)) [
  | inl e ↦ rw e (go (sanitize_loop false none s) (sanitize_loop_idem false none s))
  | inr e ↦ rw (e, e) refl
]
  where
    go :
        (out : List ℕ)
        → sanitize_loop false none out ≡ out
        → (if contains_backslash out then sanitize_loop false none out else out) ≡ out
    go out h = elim (Bool-cases (contains_backslash out)) [ inl e ↦ rw e h | inr e ↦ rw e refl ]
