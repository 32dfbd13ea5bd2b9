-- ===== src/Runner/Order.antt =====
-- `interleaveByProvider` of internal/testsuite/runner.go.
pub mod Groups
pub mod Passes
use maybe_dont.Prelude.{
  ℕ, zero, suc, ◌+◌, ◌≤◌, ◌≡◌, refl, sym, ◌∙◌, ap, String, Bool, true, false, ◌==◌, ◌&&◌, not, List,
  [], ◌∷◌, ◌++◌, inl, inr, ltb, subst, length, select, All, if◌then◌else◌, Bool-cases, arith,
  eq_iff, append_assoc, append-nil, length-append, All-append,
}
use maybe_dont.Runner.{ModelConfig}

abbrev pub Groups : Type 0
Groups = List (String × List ModelConfig)

-- A model joins the group of its provider, or begins it.
unfoldable pub add_to_groups : ModelConfig → Groups → Groups
add_to_groups m [] = (m.provider, m ∷ []) ∷ []
add_to_groups m ((p, ms) ∷ gs) =
    let rest = add_to_groups m gs in
    if p == m.provider then (p, ms ++ m ∷ []) ∷ gs else (p, ms) ∷ rest

unfoldable pub group_by_provider : Groups → List ModelConfig → Groups
group_by_provider gs [] = gs
group_by_provider gs (m ∷ ms) = group_by_provider (add_to_groups m gs) ms

-- One pass over the groups: what it picks, and what is left.
abbrev pub heads : Groups → List ModelConfig
heads [] = []
heads ((p, []) ∷ gs) = heads gs
heads ((p, m ∷ ms) ∷ gs) = m ∷ heads gs

abbrev pub tails : Groups → Groups
tails [] = []
tails ((p, []) ∷ gs) = (p, []) ∷ tails gs
tails ((p, m ∷ ms) ∷ gs) = (p, ms) ∷ tails gs

-- The passes, as long as the result is shorter than the list of models.
unfoldable pub round_robin : ℕ → ℕ → List ModelConfig → Groups → List ModelConfig
round_robin zero total result gs = result
round_robin (suc fuel) total result gs = elim (ltb (length result) total) [
  | true ↦ round_robin fuel total (result ++ heads gs) (tails gs)
  | false ↦ result
]

-- Each pass picks a model, so their number is fuel enough.
unfoldable pub interleave_by_provider : List ModelConfig → List ModelConfig
unfolding round_robin group_by_provider add_to_groups
interleave_by_provider ms = round_robin (length ms) (length ms) [] (group_by_provider [] ms)

abbrev pub of_provider : String → List ModelConfig → List ModelConfig
of_provider q = select (λ m. m.provider == q)
