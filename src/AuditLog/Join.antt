-- ===== src/AuditLog/Join.antt =====
-- A text in two parts, split at its newlines; and lists in two parts.
use maybe_dont.Prelude.{
  ℕ, zero, suc, ◌+◌, ◌-◌, ◌≤◌, ◌≡◌, refl, sym, ◌∙◌, ap, false, List, [], ◌∷◌, ◌++◌, eqb, ltb,
  length, if◌then◌else◌, arith,
}
use maybe_dont.AuditLog.Chunk.{take, drop, slice}
use maybe_dont.AuditLog.Lines.{segments, first_of, rest_of, onto_first, segments-cons}

first_single : (ys : List ℕ) → segments (first_of (segments ys)) ≡ first_of (segments ys) ∷ []
unfolding segments
first_single [] = refl
first_single (b ∷ bs) = ground (arith, first_single bs, segments-cons bs)

segments_head :
    (ys : List ℕ) → segments ys ≡ segments (first_of (segments ys)) ++ rest_of (segments ys)
segments_head ys = segments-cons ys ∙ ap (λ l. l ++ rest_of (segments ys)) (sym (first_single ys))

step :
    (b : ℕ) (bs : List ℕ)
    → segments (b ∷ bs) ≡ (if eqb b 10 then [] ∷ segments bs else onto_first b (segments bs))
unfolding segments
step b bs = refl

onto_first-append :
    (b : ℕ) (xs : List ℕ) (t : List (List ℕ))
    → onto_first b (segments xs ++ t) ≡ onto_first b (segments xs) ++ t
onto_first-append b xs t = rw (segments-cons xs) refl

-- Only the last line of the first part and the first of the second are joined.
pub segments-append :
    (xs ys : List ℕ)
    → segments (xs ++ ys) ≡ segments (xs ++ first_of (segments ys)) ++ rest_of (segments ys)
segments-append [] ys = segments_head ys
segments-append (x ∷ xs) ys =
    step x (xs ++ ys)
    ∙ ground (
      arith,
      segments-append xs ys,
      onto_first-append x (xs ++ first_of (segments ys)) (rest_of (segments ys)),
    )
    ∙ ap (λ l. l ++ rest_of (segments ys)) (sym (step x (xs ++ first_of (segments ys))))

module _ {ℓ} {A : Type ℓ} where
  pub take-drop : (n : ℕ) (xs : List A) → take n xs ++ drop n xs ≡ xs
  take-drop zero xs = refl
  take-drop (suc n) [] = refl
  take-drop (suc n) (x ∷ xs) = ap (λ r. x ∷ r) (take-drop n xs)

  drop-nil : (n : ℕ) → drop {A = A} n [] ≡ []
  drop-nil zero = refl
  drop-nil (suc n) = refl

  drop-drop : (a n : ℕ) (xs : List A) → drop n (drop a xs) ≡ drop (a + n) xs
  drop-drop zero n xs = let e : n ≡ 0 + n = omega arith in ap (λ k. drop k xs) e
  drop-drop (suc a) n [] = drop-nil n ∙ sym (drop-nil (suc a + n))
  drop-drop (suc a) n (x ∷ xs) =
      let e : suc (a + n) ≡ suc a + n = omega arith in
      drop-drop a n xs ∙ ap (λ k. drop k (x ∷ xs)) e

  pub slice-drop : (xs : List A) (a b : ℕ) → a ≤ b → slice xs a b ++ drop b xs ≡ drop a xs
  slice-drop xs a b h =
      let e : a + (b - a) ≡ b = omega arith in
      ap (λ k. slice xs a b ++ drop k xs) (sym e)
      ∙ ap (λ l. slice xs a b ++ l) (sym (drop-drop a (b - a) xs))
      ∙ take-drop (b - a) (drop a xs)

  pub drop_all : (xs : List A) → drop (length xs) xs ≡ []
  drop_all [] = refl
  drop_all (x ∷ xs) = drop_all xs

  pub take-nil : (n : ℕ) → take {A = A} n [] ≡ []
  take-nil zero = refl
  take-nil (suc n) = refl

  -- A prefix that is full is not changed by what follows.
  pub take-append_full :
      (n : ℕ) (xs ys : List A) → ltb (length (take n xs)) n ≡ false → take n (xs ++ ys) ≡ take n xs
  take-append_full zero xs ys h = refl
  take-append_full (suc n) [] ys h = absurd (ground (arith, h))
  take-append_full (suc n) (x ∷ xs) ys h =
      ap (λ r. x ∷ r) (take-append_full n xs ys (ground (arith, h)))

  -- Appending to a prefix as long as it is not full.
  pub take-append_one :
      (n : ℕ) (xs : List A) (x : A)
      → (if ltb (length (take n xs)) n then take n xs ++ x ∷ [] else take n xs)
        ≡ take n (xs ++ x ∷ [])
  take-append_one zero xs x = refl
  take-append_one (suc n) [] x = ground (arith, take-nil n)
  take-append_one (suc n) (y ∷ xs) x = ground (arith, take-append_one n xs x)
