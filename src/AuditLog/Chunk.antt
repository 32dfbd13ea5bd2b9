-- ===== src/AuditLog/Chunk.antt =====
-- `extractLinesReverse` of internal/gateway/audit_log_tool.go.
use maybe_dont.Prelude.{
  ℕ, zero, suc, ◌-◌, Bool, List, [], ◌∷◌, ◌++◌, ltb, eqb, length, if◌then◌else◌,
}

module _ {ℓ} {A : Type ℓ} where
  abbrev pub take : ℕ → List A → List A
  take zero xs = []
  take (suc n) [] = []
  take (suc n) (x ∷ xs) = x ∷ take n xs

  abbrev pub drop : ℕ → List A → List A
  drop zero xs = xs
  drop (suc n) [] = []
  drop (suc n) (x ∷ xs) = drop n xs

  -- `xs[a:b]`.
  abbrev pub slice : List A → ℕ → ℕ → List A
  slice xs a b = take (b - a) (drop a xs)

-- The positions of the newlines, from a position on.
unfoldable pub line_ends : ℕ → List ℕ → List ℕ
line_ends i [] = []
line_ends i (b ∷ bs) = let rest = line_ends (suc i) bs in if eqb b 10 then i ∷ rest else rest

pub record LinesResult : Type 0 where
  pub complete : List (List ℕ)
  pub partial : List ℕ

abbrev pub last_end : ℕ → List ℕ → ℕ
last_end e [] = e
last_end e (f ∷ es) = last_end f es

-- From the last newline to the end.
abbrev pub last_segment : List ℕ → ℕ → List (List ℕ)
last_segment chunk e =
    if ltb e (length chunk - 1) then slice chunk (suc e) (length chunk) ∷ [] else []

-- Between a newline and the next, newest first.
unfoldable pub middle_segments : List ℕ → ℕ → List ℕ → List (List ℕ)
middle_segments chunk e [] = []
middle_segments chunk e (f ∷ es) =
    middle_segments chunk f es ++ (if ltb (suc e) f then slice chunk (suc e) f ∷ [] else [])

-- What lies between the newlines: without one the whole chunk is one line.
unfoldable pub lines_between : List ℕ → Bool → List ℕ → LinesResult
unfolding middle_segments
lines_between chunk more [] =
    if more
    then record { complete = []; partial = chunk }
    else record { complete = if ltb 0 (length chunk) then chunk ∷ [] else []; partial = [] }
lines_between chunk more (e ∷ es) = record {
  complete =
      last_segment chunk (last_end e es)
      ++ (middle_segments chunk e es
          ++ (if more then [] else if ltb 0 e then slice chunk 0 e ∷ [] else []));
  partial = if more then (if ltb 0 e then slice chunk 0 e else []) else [];
}

unfoldable pub extract_lines_reverse : List ℕ → Bool → LinesResult
unfolding line_ends lines_between
extract_lines_reverse chunk more = lines_between chunk more (line_ends 0 chunk)
