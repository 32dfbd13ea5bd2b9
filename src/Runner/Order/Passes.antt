-- ===== src/Runner/Order/Passes.antt =====
-- The passes over the groups of internal/testsuite/runner.go, up to the end.
use maybe_dont.Prelude.{
  ℕ, zero, suc, ◌+◌, ◌≤◌, ◌≡◌, refl, sym, ◌∙◌, ap, String, ◌==◌, List, [], ◌∷◌, ◌++◌, inl, inr, ltb,
  length, Bool-cases, arith, append_assoc, append-nil, length-append,
}
use maybe_dont.Runner.{ModelConfig}
use maybe_dont.Runner.Order.{
  Groups, add_to_groups, group_by_provider, heads, tails, of_provider, round_robin,
  interleave_by_provider,
}
use maybe_dont.Runner.Order.Groups.{
  group, Separate, group_by-Separate, group-group_by, select-append, tails-Separate, pass_takes,
}

-- How many models are left.
abbrev size : Groups → ℕ
size [] = 0
size ((p, ms) ∷ gs) = length ms + size gs

pass_size : (gs : Groups) → length (heads gs) + size (tails gs) ≡ size gs
pass_size [] = omega arith
pass_size ((p, []) ∷ gs) = omega (arith, pass_size gs)
pass_size ((p, m ∷ ms) ∷ gs) = omega (arith, pass_size gs)

pass_empty : (gs : Groups) → length (heads gs) ≡ 0 → size gs ≡ 0
pass_empty [] h = refl
pass_empty ((p, []) ∷ gs) h = omega (arith, pass_empty gs h)
pass_empty ((p, m ∷ ms) ∷ gs) h = absurd (omega (arith, h))

size-group : (q : String) (gs : Groups) → size gs ≡ 0 → group q gs ≡ []
size-group q [] h = refl
size-group q ((p, []) ∷ gs) h = ground (arith, size-group q gs (omega (arith, h)))
size-group q ((p, m ∷ ms) ∷ gs) h = absurd (omega (arith, h))

add-size : (m : ModelConfig) (gs : Groups) → size (add_to_groups m gs) ≡ suc (size gs)
unfolding add_to_groups
add-size m [] = omega arith
add-size m ((p, ms) ∷ gs) = elim (Bool-cases (p == m.provider)) [
  | inl e ↦ rw e (omega (arith, length-append {0} ms (m ∷ [])))
  | inr e ↦ rw e (omega (arith, add-size m gs))
]

group_by-size :
    (ms : List ModelConfig) (gs : Groups) → size (group_by_provider gs ms) ≡ size gs + length ms
unfolding group_by_provider
group_by-size [] gs = omega arith
group_by-size (m ∷ ms) gs = omega (arith, group_by-size ms (add_to_groups m gs), add-size m gs)

positive : (k : ℕ) → (k ≡ 0 → ⊥) → 1 ≤ k
positive zero n = absurd (n refl)
positive (suc k) n = omega arith

-- The passes end with every model picked.
passes_take :
    (q : String) (fuel total : ℕ) (result : List ModelConfig) (gs : Groups)
    → Separate gs
    → size gs ≤ fuel
    → length result + size gs ≡ total
    → of_provider q (round_robin fuel total result gs) ≡ of_provider q result ++ group q gs
unfolding round_robin
passes_take q zero total result gs s f t =
    rw (size-group q gs (omega (arith, f))) (sym (append-nil (of_provider q result)))
passes_take q (suc fuel) total result gs s f t = elim (Bool-cases (ltb (length result) total)) [
  | inr e ↦
      rw (e, round_robin, size-group q gs (ground (arith, e, t)))
        (sym (append-nil (of_provider q result)))
  | inl e ↦
      let n : length (heads gs) ≡ 0 → ⊥ = λ z. ground (arith, e, t, pass_empty gs z) in
      rw (e, round_robin)
        (passes_take q fuel total (result ++ heads gs) (tails gs) (tails-Separate gs s) (progress n)
            (omega (arith, t, pass_size gs, length-append {0} result (heads gs)))
          ∙ ap (λ l. l ++ group q (tails gs)) (select-append q result (heads gs))
          ∙ append_assoc (of_provider q result) (of_provider q (heads gs)) (group q (tails gs))
          ∙ ap (λ l. of_provider q result ++ l) (pass_takes q gs s))
]
  where
    progress : (length (heads gs) ≡ 0 → ⊥) → size (tails gs) ≤ fuel
    progress n = omega (arith, pass_size gs, f, positive (length (heads gs)) n)

-- The interleaved list holds for each provider the same models in the same order: none is lost, none is
-- repeated, and the models of one provider keep their order.
pub interleave_by_provider-of_provider :
    (q : String) (ms : List ModelConfig)
    → of_provider q (interleave_by_provider ms) ≡ of_provider q ms
unfolding interleave_by_provider
interleave_by_provider-of_provider q ms =
    passes_take q (length ms) (length ms) [] (group_by_provider [] ms) (group_by-Separate ms [] tt)
      (omega (arith, group_by-size ms [])) (omega (arith, group_by-size ms []))
    ∙ group-group_by q ms []
