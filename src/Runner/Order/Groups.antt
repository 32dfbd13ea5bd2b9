-- ===== src/Runner/Order/Groups.antt =====
-- The groups of internal/testsuite/runner.go: one for each provider, with its models.
use maybe_dont.Prelude.{
  ◌≡◌, refl, sym, ◌∙◌, ap, String, true, false, ◌==◌, ◌&&◌, List, [], ◌∷◌, ◌++◌, inl, inr, subst,
  All, if◌then◌else◌, Bool-cases, arith, eq_iff, append_assoc, append-nil, All-append,
}
use maybe_dont.Runner.{ModelConfig}
use maybe_dont.Runner.Order.{Groups, add_to_groups, group_by_provider, heads, tails, of_provider}

-- The group of a provider.
abbrev pub group : String → Groups → List ModelConfig
group q [] = []
group q ((p, ms) ∷ gs) = if p == q then ms else group q gs

abbrev pub Absent : String → Groups → Type 0
Absent q = All (λ g. (g.0 == q) ≡ false)

-- The names of groups differ, and a group holds models of its provider.
abbrev pub Separate : Groups → Type 0
Separate [] = Unit
Separate ((p, ms) ∷ gs) = All (λ m. (m.provider == p) ≡ true) ms × Absent p gs × Separate gs

add-Absent :
    (q : String) (m : ModelConfig) (gs : Groups)
    → (m.provider == q) ≡ false
    → Absent q gs
    → Absent q (add_to_groups m gs)
unfolding add_to_groups
add-Absent q m [] n a = (n, tt)
add-Absent q m ((p, ms) ∷ gs) n a = elim (Bool-cases (p == m.provider)) [
  | inl e ↦ rw e (a.0, a.1)
  | inr e ↦ rw e (a.0, add-Absent q m gs n a.1)
]

add-Separate : (m : ModelConfig) (gs : Groups) → Separate gs → Separate (add_to_groups m gs)
unfolding add_to_groups
add-Separate m [] s = (((eq_iff m.provider m.provider).1 refl, tt), tt, tt)
add-Separate m ((p, ms) ∷ gs) s = elim (Bool-cases (p == m.provider)) [
  | inl e ↦ rw e (
    All-append (λ x. (x.provider == p) ≡ true) ms (m ∷ []) s.0
        ((eq_iff m.provider p).1 (sym ((eq_iff p m.provider).0 e)), tt),
    s.1,
    s.2,
  )
  | inr e ↦ rw e (
    s.0,
    add-Absent p m gs (ground (arith, e, eq_iff p m.provider, eq_iff m.provider p)) s.1,
    add-Separate m gs s.2,
  )
]

pub group_by-Separate :
    (ms : List ModelConfig) (gs : Groups) → Separate gs → Separate (group_by_provider gs ms)
unfolding group_by_provider
group_by-Separate [] gs s = s
group_by-Separate (m ∷ ms) gs s = group_by-Separate ms (add_to_groups m gs) (add-Separate m gs s)

-- The group of a provider after a model has joined.
pub group-add :
    (q : String) (m : ModelConfig) (gs : Groups)
    → group q (add_to_groups m gs) ≡ group q gs ++ of_provider q (m ∷ [])
unfolding add_to_groups
group-add q m [] = ground arith
group-add q m ((p, ms) ∷ gs) = elim (Bool-cases (p == m.provider)) [
  | inl e ↦ rw e (joins (ground (arith, e, eq_iff p q, eq_iff p m.provider, eq_iff m.provider q)))
  | inr e ↦ rw e (
      stays (ground (arith, e, eq_iff p q, eq_iff p m.provider, eq_iff m.provider q))
        (group-add q m gs))
]
  where
    joins :
        (p == q) ≡ (m.provider == q)
        → group q ((p, ms ++ m ∷ []) ∷ gs) ≡ group q ((p, ms) ∷ gs) ++ of_provider q (m ∷ [])
    joins k = elim (Bool-cases (p == q)) [
      | inl f ↦ rw (f, sym k ∙ f) refl
      | inr f ↦ rw (f, sym k ∙ f) (sym (append-nil (group q gs)))
    ]

    stays :
        ((p == q) && (m.provider == q)) ≡ false
        → group q (add_to_groups m gs) ≡ group q gs ++ of_provider q (m ∷ [])
        → group q ((p, ms) ∷ add_to_groups m gs) ≡ group q ((p, ms) ∷ gs) ++ of_provider q (m ∷ [])
    stays k h = elim (Bool-cases (p == q)) [
      | inl f ↦
          let g : (m.provider == q) ≡ false = ground (arith, k, f) in
          rw (f, g) (sym (append-nil ms))
      | inr f ↦ rw f h
    ]

pub select-append :
    (q : String) (xs ys : List ModelConfig)
    → of_provider q (xs ++ ys) ≡ of_provider q xs ++ of_provider q ys
select-append q [] ys = refl
select-append q (x ∷ xs) ys = ground (arith, select-append q xs ys)

pub group-group_by :
    (q : String) (ms : List ModelConfig) (gs : Groups)
    → group q (group_by_provider gs ms) ≡ group q gs ++ of_provider q ms
unfolding group_by_provider
group-group_by q [] gs = sym (append-nil (group q gs))
group-group_by q (m ∷ ms) gs =
    group-group_by q ms (add_to_groups m gs)
    ∙ ap (λ l. l ++ of_provider q ms) (group-add q m gs)
    ∙ append_assoc (group q gs) (of_provider q (m ∷ [])) (of_provider q ms)
    ∙ ap (λ l. group q gs ++ l) (sym (select-append q (m ∷ []) ms))

Absent-heads :
    (q : String) (gs : Groups) → Separate gs → Absent q gs → of_provider q (heads gs) ≡ []
Absent-heads q [] s a = refl
Absent-heads q ((p, []) ∷ gs) s a = Absent-heads q gs s.2 a.1
Absent-heads q ((p, m ∷ ms) ∷ gs) s a = ground (
  arith,
  s.0.0,
  a.0,
  eq_iff m.provider p,
  eq_iff m.provider q,
  eq_iff p q,
  Absent-heads q gs s.2 a.1,
)

Absent-group : (q : String) (gs : Groups) → Absent q gs → group q gs ≡ []
Absent-group q [] a = refl
Absent-group q ((p, ms) ∷ gs) a = ground (arith, a.0, Absent-group q gs a.1)

Absent-tails : (q : String) (gs : Groups) → Absent q gs → Absent q (tails gs)
Absent-tails q [] a = tt
Absent-tails q ((p, []) ∷ gs) a = (a.0, Absent-tails q gs a.1)
Absent-tails q ((p, m ∷ ms) ∷ gs) a = (a.0, Absent-tails q gs a.1)

pub tails-Separate : (gs : Groups) → Separate gs → Separate (tails gs)
tails-Separate [] s = tt
tails-Separate ((p, []) ∷ gs) s = (s.0, Absent-tails p gs s.1, tails-Separate gs s.2)
tails-Separate ((p, m ∷ ms) ∷ gs) s = (s.0.1, Absent-tails p gs s.1, tails-Separate gs s.2)

-- A pass takes the first model of each group.
pub pass_takes :
    (q : String) (gs : Groups)
    → Separate gs
    → of_provider q (heads gs) ++ group q (tails gs) ≡ group q gs
pass_takes q [] s = refl
pass_takes q ((p, []) ∷ gs) s =
    ground (arith, pass_takes q gs s.2, Absent-heads p gs s.2 s.1, eq_iff p q)
pass_takes q ((p, m ∷ ms) ∷ gs) s = elim (Bool-cases (p == q)) [
  | inl e ↦
      let k : p ≡ q = (eq_iff p q).0 e in
      let n : of_provider q (heads gs) ≡ [] =
        Absent-heads q gs s.2 (subst (λ x. Absent x gs) k s.1) in
      ground (arith, e, n, s.0.0, eq_iff m.provider p, eq_iff m.provider q, k)
  | inr e ↦
      ground
        (arith, e, s.0.0, eq_iff m.provider p, eq_iff m.provider q, eq_iff p q, pass_takes q gs s.2)
]
