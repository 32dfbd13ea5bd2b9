-- ===== src/Auth/Globs/Matching.antt =====
-- Which texts a glob of internal/gateway/auth_middleware.go matches: those that it denotes.
use maybe_dont.Prelude.{
  ℕ, ◌≡◌, ◌≢◌, ◌↔◌, refl, sym, ◌∙◌, ap, subst, inl, inr, true, false, List, [], ◌∷◌, ◌++◌, All, map,
  eqb, if◌then◌else◌, Bool-cases, arith,
}
use maybe_dont.Auth.Globs.{Atom, literal, some_more, match_string}
use maybe_dont.Auth.Globs.Meaning.{atom, literal_atom}

-- At least one character, and no line feed.
abbrev pub IsStretch : List ℕ → Type 0
IsStretch w = (w ≢ []) × All (λ c. eqb c 10 ≡ false) w

abbrev pub Split : (List ℕ → Type 0) → (List ℕ → Type 0) → List ℕ → Type 0
Split P Q s = (w : List ℕ) × (r : List ℕ) × (s ≡ w ++ r) × P w × Q r

-- A star of the glob stands for a stretch, any other character for itself.
abbrev pub Denotes : List ℕ → List ℕ → Type 0
Denotes [] s = s ≡ []
Denotes (c ∷ p) s =
    if eqb c 42 then Split IsStretch (Denotes p) s else Split (λ w. w ≡ c ∷ []) (Denotes p) s

literal_splits :
    (c : ℕ) (as' : List Atom) (s : List ℕ)
    → match_string (literal c ∷ as') s ≡ true
    → Split (λ w. w ≡ c ∷ []) (λ r. match_string as' r ≡ true) s
unfolding match_string
literal_splits c as' [] h = absurd (cc)
literal_splits c as' (d ∷ ds) h = (c ∷ [], ds, ground (arith, h), refl, ground (arith, h))

literal_joins :
    (c : ℕ) (as' : List Atom) (r : List ℕ)
    → match_string as' r ≡ true
    → match_string (literal c ∷ as') (c ∷ r) ≡ true
unfolding match_string
literal_joins c as' r h = ground (arith, h)

more_splits :
    (as' : List Atom) (s : List ℕ)
    → match_string (some_more ∷ as') s ≡ true
    → Split IsStretch (λ r. match_string as' r ≡ true) s
unfolding match_string
more_splits as' [] h = absurd (cc)
more_splits as' (d ∷ ds) h = elim (Bool-cases (match_string as' ds)) [
  | inl m ↦ (d ∷ [], ds, refl, (λ e. cc, (ground (arith, h), tt)), m)
  | inr m ↦
      let (w, r, e, (_, l), k) = more_splits as' ds (ground (arith, h, m)) in
      (d ∷ w, r, ap (λ t. d ∷ t) e, (λ q. cc, (ground (arith, h), l)), k)
]

more_joins :
    (as' : List Atom) (w r : List ℕ)
    → IsStretch w
    → match_string as' r ≡ true
    → match_string (some_more ∷ as') (w ++ r) ≡ true
unfolding match_string
more_joins as' [] r (f, l) h = absurd (f refl)
more_joins as' (c ∷ []) r (f, (l, _)) h = ground (arith, l, h)
more_joins as' (c ∷ d ∷ w) r (f, (l, ls)) h =
    let ih = more_joins as' (d ∷ w) r (λ e. cc, ls) h in ground (arith, l, ih)

Split-map :
    (P Q R : List ℕ → Type 0) (s : List ℕ) → ((r : List ℕ) → Q r → R r) → Split P Q s → Split P R s
Split-map P Q R s f (w, r, e, p, q) = (w, r, e, p, f r q)

star-Denotes :
    (c : ℕ) (p s : List ℕ) → eqb c 42 ≡ true → Denotes (c ∷ p) s ≡ Split IsStretch (Denotes p) s
star-Denotes c p s h = rw h refl

plain-Denotes :
    (c : ℕ) (p s : List ℕ)
    → eqb c 42 ≡ false
    → Denotes (c ∷ p) s ≡ Split (λ w. w ≡ c ∷ []) (Denotes p) s
plain-Denotes c p s h = rw h refl

star_atom : (c : ℕ) → eqb c 42 ≡ true → atom c ≡ some_more
star_atom c h = rw h refl

matched-Denotes : (p s : List ℕ) → match_string (map atom p) s ≡ true → Denotes p s
unfolding match_string
matched-Denotes [] [] h = refl
matched-Denotes [] (c ∷ s) h = absurd (cc)
matched-Denotes (c ∷ p) s h = elim (Bool-cases (eqb c 42)) [
  | inl e ↦
      subst (λ T. T) (sym (star-Denotes c p s e))
        (Split-map IsStretch (λ r. match_string (map atom p) r ≡ true) (Denotes p) s
          (matched-Denotes p)
          (more_splits (map atom p) s
            (subst (λ a. match_string (a ∷ map atom p) s ≡ true) (star_atom c e) h)))
  | inr e ↦
      subst (λ T. T) (sym (plain-Denotes c p s e))
        (Split-map (λ w. w ≡ c ∷ []) (λ r. match_string (map atom p) r ≡ true) (Denotes p) s
          (matched-Denotes p)
          (literal_splits c (map atom p) s
            (subst (λ a. match_string (a ∷ map atom p) s ≡ true) (literal_atom c e) h)))
]

star_matches :
    (c : ℕ) (p s : List ℕ)
    → eqb c 42 ≡ true
    → Split IsStretch (λ r. match_string (map atom p) r ≡ true) s
    → match_string (map atom (c ∷ p)) s ≡ true
star_matches c p s e (w, r, d, k, m) =
    subst (λ a. match_string (a ∷ map atom p) s ≡ true) (sym (star_atom c e))
      (subst (λ t. match_string (some_more ∷ map atom p) t ≡ true) (sym d)
        (more_joins (map atom p) w r k m))

plain_matches :
    (c : ℕ) (p s : List ℕ)
    → eqb c 42 ≡ false
    → Split (λ w. w ≡ c ∷ []) (λ r. match_string (map atom p) r ≡ true) s
    → match_string (map atom (c ∷ p)) s ≡ true
plain_matches c p s e (w, r, d, k, m) =
    subst (λ a. match_string (a ∷ map atom p) s ≡ true) (sym (literal_atom c e))
      (subst (λ t. match_string (literal c ∷ map atom p) t ≡ true) (sym (d ∙ ap (λ v. v ++ r) k))
        (literal_joins c (map atom p) r m))

denoted_matches : (p s : List ℕ) → Denotes p s → match_string (map atom p) s ≡ true
unfolding match_string
denoted_matches [] s h = rw h refl
denoted_matches (c ∷ p) s h = elim (Bool-cases (eqb c 42)) [
  | inl e ↦ star_matches c p s e (
      Split-map IsStretch (Denotes p) (λ r. match_string (map atom p) r ≡ true) s
        (denoted_matches p) (subst (λ T. T) (star-Denotes c p s e) h))
  | inr e ↦ plain_matches c p s e (
      Split-map (λ w. w ≡ c ∷ []) (Denotes p) (λ r. match_string (map atom p) r ≡ true) s
        (denoted_matches p) (subst (λ T. T) (plain-Denotes c p s e) h))
]

-- The expression of a glob matches exactly the texts that the glob denotes.
pub match_string-Denotes : (p s : List ℕ) → (match_string (map atom p) s ≡ true) ↔ Denotes p s
match_string-Denotes p s = (matched-Denotes p s, denoted_matches p s)
