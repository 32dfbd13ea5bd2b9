-- ===== src/AuditLog/Lines.antt =====
-- What `extractLinesReverse` of internal/gateway/audit_log_tool.go finds, in terms of the text split at
-- its newlines.
use mathlib.Core.List.{reverse, reverse-append}
use maybe_dont.Prelude.{
  ℕ, suc, ◌-◌, ◌≡◌, refl, sym, ◌∙◌, ap, true, false, List, [], ◌∷◌, ◌++◌, map, inl, inr, ltb, eqb,
  length, select, if◌then◌else◌, Bool-cases, arith, append-nil, append_assoc, subst,
}
use maybe_dont.AuditLog.Chunk.{
  take, drop, slice, line_ends, last_end, last_segment, middle_segments, lines_between,
  extract_lines_reverse,
}

abbrev pub onto_first : ℕ → List (List ℕ) → List (List ℕ)
onto_first b [] = (b ∷ []) ∷ []
onto_first b (s ∷ ss) = (b ∷ s) ∷ ss

-- The text split at its newlines.
unfoldable pub segments : List ℕ → List (List ℕ)
segments [] = [] ∷ []
segments (b ∷ bs) = let rest = segments bs in if eqb b 10 then [] ∷ rest else onto_first b rest

abbrev pub first_of : List (List ℕ) → List ℕ
first_of [] = []
first_of (s ∷ ss) = s

abbrev pub rest_of : List (List ℕ) → List (List ℕ)
rest_of [] = []
rest_of (s ∷ ss) = ss

abbrev pub nonempty : List (List ℕ) → List (List ℕ)
nonempty = select (λ l. ltb 0 (length l))

-- The lines that are not empty, newest first.
abbrev pub newest : List (List ℕ) → List (List ℕ)
newest ss = reverse (nonempty ss)

pub segments-cons : (bs : List ℕ) → segments bs ≡ first_of (segments bs) ∷ rest_of (segments bs)
unfolding segments
segments-cons [] = refl
segments-cons (b ∷ bs) = ground (arith, segments-cons bs)

select-append : (xs ys : List (List ℕ)) → nonempty (xs ++ ys) ≡ nonempty xs ++ nonempty ys
select-append [] ys = refl
select-append (x ∷ xs) ys = ground (arith, select-append xs ys)

pub newest-append : (xs ys : List (List ℕ)) → newest (xs ++ ys) ≡ newest ys ++ newest xs
newest-append xs ys = ap reverse (select-append xs ys) ∙ reverse-append (nonempty xs) (nonempty ys)

take_all : (xs : List ℕ) → take (length xs) xs ≡ xs
take_all [] = refl
take_all (x ∷ xs) = ap (λ r. x ∷ r) (take_all xs)

suc-sub : (a b : ℕ) → suc b - suc a ≡ b - a
suc-sub a b = omega arith

slice_shift : (b : ℕ) (bs : List ℕ) (a c : ℕ) → slice (b ∷ bs) (suc a) (suc c) ≡ slice bs a c
slice_shift b bs a c = ap (λ n. take n (drop a bs)) (suc-sub a c)

slice_zero : (bs : List ℕ) (c : ℕ) → slice bs 0 c ≡ take c bs
slice_zero bs c = let e : c - 0 ≡ c = omega arith in ap (λ n. take n bs) e

line_ends_shift : (i : ℕ) (bs : List ℕ) → line_ends (suc i) bs ≡ map suc (line_ends i bs)
unfolding line_ends
line_ends_shift i [] = refl
line_ends_shift i (b ∷ bs) = ground (arith, line_ends_shift (suc i) bs)

last_end_shift : (e : ℕ) (es : List ℕ) → last_end (suc e) (map suc es) ≡ suc (last_end e es)
last_end_shift e [] = refl
last_end_shift e (f ∷ es) = last_end_shift f es

last_segment_shift :
    (b : ℕ) (bs : List ℕ) (e : ℕ) → last_segment (b ∷ bs) (suc e) ≡ last_segment bs e
last_segment_shift b bs e = ground (arith, slice_shift b bs (suc e) (length bs))

middle_shift :
    (b : ℕ) (bs : List ℕ) (e : ℕ) (es : List ℕ)
    → middle_segments (b ∷ bs) (suc e) (map suc es) ≡ middle_segments bs e es
unfolding middle_segments
middle_shift b bs e [] = refl
middle_shift b bs e (f ∷ es) = ground (arith, slice_shift b bs (suc e) f, middle_shift b bs f es)

-- The lines after the first newline.
abbrev after : List ℕ → ℕ → List ℕ → List (List ℕ)
after chunk e es = last_segment chunk (last_end e es) ++ middle_segments chunk e es

after_shift :
    (b : ℕ) (bs : List ℕ) (e : ℕ) (es : List ℕ)
    → after (b ∷ bs) (suc e) (map suc es) ≡ after bs e es
after_shift b bs e es =
    ap (λ n. last_segment (b ∷ bs) n ++ middle_segments (b ∷ bs) (suc e) (map suc es))
      (last_end_shift e es)
    ∙ ap (λ l. l ++ middle_segments (b ∷ bs) (suc e) (map suc es))
        (last_segment_shift b bs (last_end e es))
    ∙ ap (λ l. last_segment bs (last_end e es) ++ l) (middle_shift b bs e es)

-- What the newlines of a text say of its segments.
abbrev Describes : List ℕ → List ℕ → Type 0
Describes chunk [] = segments chunk ≡ chunk ∷ []
Describes chunk (e ∷ es) =
    (after chunk e es ≡ newest (rest_of (segments chunk)))
    × (slice chunk 0 e ≡ first_of (segments chunk))
    × (ltb 0 e ≡ ltb 0 (length (first_of (segments chunk))))

newest-cons :
    (s : List ℕ) (ss : List (List ℕ))
    → newest (s ∷ ss) ≡ newest ss ++ (if ltb 0 (length s) then s ∷ [] else [])
newest-cons s ss = newest-append (s ∷ []) ss ∙ ap (λ r. newest ss ++ r) (single s)
  where
    single : (s : List ℕ) → newest (s ∷ []) ≡ (if ltb 0 (length s) then s ∷ [] else [])
    single s = ground arith

-- A newline in front of a text that its newlines describe.
after_newline :
    (b : ℕ) (bs xs : List ℕ)
    → Describes bs xs
    → after (b ∷ bs) 0 (map suc xs) ≡ newest (segments bs)
unfolding middle_segments
after_newline b bs [] d = rw d (
    append-nil (last_segment (b ∷ bs) 0)
    ∙ ground (arith, slice_zero bs (length bs), take_all bs, newest-cons bs []))
after_newline b bs (e ∷ es) (d, f, g) =
    sym (
      append_assoc (last_segment (b ∷ bs) (last_end (suc e) (map suc es)))
        (middle_segments (b ∷ bs) (suc e) (map suc es))
        (if ltb 1 (suc e) then slice (b ∷ bs) 1 (suc e) ∷ [] else []))
    ∙ ap (λ l. l ++ (if ltb 1 (suc e) then slice (b ∷ bs) 1 (suc e) ∷ [] else []))
        (after_shift b bs e es ∙ d)
    ∙ ap (λ l. newest (rest_of (segments bs)) ++ l) (ground (arith, slice_shift b bs 0 e, f, g))
    ∙ sym (
        ap newest (segments-cons bs) ∙ newest-cons (first_of (segments bs)) (rest_of (segments bs)))

Describes-newline :
    (b : ℕ) (bs xs : List ℕ)
    → eqb b 10 ≡ true
    → Describes bs xs
    → Describes (b ∷ bs) (0 ∷ map suc xs)
unfolding segments
Describes-newline b bs xs n d = (
  after_newline b bs xs d ∙ ap newest q,
  slice_zero (b ∷ bs) 0 ∙ ground (arith, n),
  ground (arith, n),
)
  where
    q : segments bs ≡ rest_of (segments (b ∷ bs))
    q = ground (arith, n)

Describes-other :
    (b : ℕ) (bs xs : List ℕ) → eqb b 10 ≡ false → Describes bs xs → Describes (b ∷ bs) (map suc xs)
unfolding segments
Describes-other b bs [] n d = ground (arith, n, d)
Describes-other b bs (e ∷ es) n (d, f, g) =
    let s = segments-cons bs in
    (
      after_shift b bs e es ∙ d ∙ ap newest (rests n s),
      slice_zero (b ∷ bs) (suc e) ∙ ap (λ l. b ∷ l) (sym (slice_zero bs e) ∙ f) ∙ firsts n s,
      ground (arith, n, s),
    )
  where
    rests :
        eqb b 10 ≡ false
        → segments bs ≡ first_of (segments bs) ∷ rest_of (segments bs)
        → rest_of (segments bs) ≡ rest_of (segments (b ∷ bs))
    rests n s = ground (arith, n, s)

    firsts :
        eqb b 10 ≡ false
        → segments bs ≡ first_of (segments bs) ∷ rest_of (segments bs)
        → b ∷ first_of (segments bs) ≡ first_of (segments (b ∷ bs))
    firsts n s = ground (arith, n, s)

describes : (bs : List ℕ) → Describes bs (line_ends 0 bs)
unfolding line_ends segments
describes [] = refl
describes (b ∷ bs) = elim (Bool-cases (eqb b 10)) [
  | inl n ↦
      let q : line_ends 0 (b ∷ bs) ≡ 0 ∷ map suc (line_ends 0 bs) =
        ground (arith, n, line_ends_shift 0 bs) in
      subst (Describes (b ∷ bs)) (sym q) (Describes-newline b bs (line_ends 0 bs) n (describes bs))
  | inr n ↦
      let q : line_ends 0 (b ∷ bs) ≡ map suc (line_ends 0 bs) =
        ground (arith, n, line_ends_shift 0 bs) in
      subst (Describes (b ∷ bs)) (sym q) (Describes-other b bs (line_ends 0 bs) n (describes bs))
]

-- At the start of the file: all lines.
all_lines :
    (chunk xs : List ℕ)
    → Describes chunk xs
    → (lines_between chunk false xs).complete ≡ newest (segments chunk)
unfolding lines_between
all_lines chunk [] d = rw d (ground (arith, newest-cons chunk []))
all_lines chunk (e ∷ es) (d, f, g) =
    sym (
      append_assoc (last_segment chunk (last_end e es)) (middle_segments chunk e es)
        (if ltb 0 e then slice chunk 0 e ∷ [] else []))
    ∙ ap (λ l. l ++ (if ltb 0 e then slice chunk 0 e ∷ [] else [])) d
    ∙ ap (λ l. newest (rest_of (segments chunk)) ++ l) (ground (arith, f, g))
    ∙ sym (
        ap newest (segments-cons chunk)
        ∙ newest-cons (first_of (segments chunk)) (rest_of (segments chunk)))

-- Before the start: all but the first, which is left over.
later_lines :
    (chunk xs : List ℕ)
    → Describes chunk xs
    → ((lines_between chunk true xs).complete ≡ newest (rest_of (segments chunk)))
      × ((lines_between chunk true xs).partial ≡ first_of (segments chunk))
unfolding lines_between
later_lines chunk [] d = (ground (arith, d), ground (arith, d))
later_lines chunk (e ∷ es) (d, f, g) = (
  ap (λ l. last_segment chunk (last_end e es) ++ l) (append-nil (middle_segments chunk e es)) ∙ d,
  ground (arith, f, g),
)

pub extract-all :
    (chunk : List ℕ) → (extract_lines_reverse chunk false).complete ≡ newest (segments chunk)
unfolding extract_lines_reverse
extract-all chunk = all_lines chunk (line_ends 0 chunk) (describes chunk)

pub extract-later :
    (chunk : List ℕ)
    → ((extract_lines_reverse chunk true).complete ≡ newest (rest_of (segments chunk)))
      × ((extract_lines_reverse chunk true).partial ≡ first_of (segments chunk))
unfolding extract_lines_reverse
extract-later chunk = later_lines chunk (line_ends 0 chunk) (describes chunk)
