-- ===== src/AuditLog/Reading.antt =====
-- What reading backwards in chunks finds, in internal/gateway/audit_log_tool.go.
use maybe_dont.Prelude.{
  ℕ, ◌≡◌, refl, sym, ◌∙◌, ap, Bool, true, false, List, [], ◌∷◌, ◌++◌, ltb, length, if◌then◌else◌,
  arith, append-nil, append_assoc, subst,
}
use maybe_dont.AuditLog.Chunk.{take}
use maybe_dont.AuditLog.Join.{take-append_one}
use maybe_dont.AuditLog.{
  Decoders, Query, LogEntry, LineKind, ignored, ends, wanted, classify, Collected, keep,
  process_lines,
}

abbrev onto : LineKind → List LogEntry → List LogEntry
onto ignored r = r
onto ends r = []
onto (wanted e) r = e ∷ r

-- The entries that are asked for, up to the first that is too old.
unfoldable pub matched : Decoders → Query → List (List ℕ) → List LogEntry
matched d q [] = []
matched d q (l ∷ ls) = onto (classify d q l) (matched d q ls)

abbrev onto_end : LineKind → Bool → Bool
onto_end ignored r = r
onto_end ends r = true
onto_end (wanted e) r = r

-- Some entry is too old.
unfoldable pub hits_end : Decoders → Query → List (List ℕ) → Bool
hits_end d q [] = false
hits_end d q (l ∷ ls) = onto_end (classify d q l) (hits_end d q ls)

onto-append :
    (k : LineKind) (h : Bool) (r s t : List LogEntry)
    → onto_end k h ≡ false
    → (h ≡ false → t ≡ r ++ s)
    → onto k t ≡ onto k r ++ s
onto-append ignored h r s t f e = e f
onto-append ends h r s t f e = absurd (ground (arith, f))
onto-append (wanted x) h r s t f e = ap (λ l. x ∷ l) (e f)

onto-stop :
    (k : LineKind) (h : Bool) (r t : List LogEntry)
    → onto_end k h ≡ true
    → (h ≡ true → t ≡ r)
    → onto k t ≡ onto k r
onto-stop ignored h r t f e = e f
onto-stop ends h r t f e = refl
onto-stop (wanted x) h r t f e = ap (λ l. x ∷ l) (e f)

module _ (d : Decoders) (q : Query) where
  pub matched-append :
      (xs ys : List (List ℕ))
      → hits_end d q xs ≡ false
      → matched d q (xs ++ ys) ≡ matched d q xs ++ matched d q ys
  unfolding matched hits_end
  matched-append [] ys h = refl
  matched-append (x ∷ xs) ys h =
      onto-append (classify d q x) (hits_end d q xs) (matched d q xs) (matched d q ys) _ h
        (matched-append xs ys)

  -- What follows an entry that is too old is not read.
  pub matched-stop :
      (xs ys : List (List ℕ)) → hits_end d q xs ≡ true → matched d q (xs ++ ys) ≡ matched d q xs
  unfolding matched hits_end
  matched-stop [] ys h = absurd (ground (arith, h))
  matched-stop (x ∷ xs) ys h =
      onto-stop (classify d q x) (hits_end d q xs) (matched d q xs) _ h (matched-stop xs ys)

  pub hits_end-append :
      (xs ys : List (List ℕ)) → hits_end d q xs ≡ false → hits_end d q (xs ++ ys) ≡ hits_end d q ys
  unfolding hits_end
  hits_end-append [] ys h = refl
  hits_end-append (x ∷ xs) ys h = let f = hits_end-append xs ys in ground (arith, h, f)

  -- The state after some lines: the first entries of those seen, and whether one was too old.
  abbrev pub Holds : List LogEntry → Bool → Collected → Type 0
  Holds es old c = (c.entries ≡ take q.limit es) × (c.stopped ≡ old)

  process-by :
      (l : List ℕ) (ls : List (List ℕ)) (c : Collected) (k : LineKind)
      → classify d q l ≡ k
      → process_lines d q (l ∷ ls) c ≡ elim k [
        | ignored ↦ process_lines d q ls c
        | ends ↦ record c { stopped = true }
        | wanted e ↦ process_lines d q ls (keep q.limit e c)
      ]
  unfolding process_lines
  process-by l ls c ignored e = rw (e, process_lines) refl
  process-by l ls c ends e = rw (e, process_lines) refl
  process-by l ls c (wanted x) e = rw (e, process_lines) refl

  pub process-Holds :
      (ls : List (List ℕ)) (seen : List LogEntry) (c : Collected)
      → Holds seen false c
      → Holds (seen ++ matched d q ls) (hits_end d q ls) (process_lines d q ls c)
  unfolding matched hits_end process_lines
  process-Holds [] seen c h = rw (append-nil seen) h
  process-Holds (l ∷ ls) seen c h = by_kind (classify d q l) refl (process-Holds ls seen c h) (λ e.
      subst (λ es. Holds es (hits_end d q ls) (process_lines d q ls (keep q.limit e c)))
        (append_assoc seen (e ∷ []) (matched d q ls))
        (process-Holds ls (seen ++ e ∷ []) (keep q.limit e c) (
          ap (λ es. if ltb (length es) q.limit then es ++ e ∷ [] else es) h.0
              ∙ take-append_one q.limit seen e,
          h.1,
        )))
    where
      by_kind :
          (k : LineKind)
          → classify d q l ≡ k
          → Holds (seen ++ matched d q ls) (hits_end d q ls) (process_lines d q ls c)
          → ((e : LogEntry)
              → Holds
                  (seen ++ e ∷ matched d q ls)
                  (hits_end d q ls)
                  (process_lines d q ls (keep q.limit e c)))
          → Holds
              (seen ++ onto (classify d q l) (matched d q ls))
              (onto_end (classify d q l) (hits_end d q ls))
              (process_lines d q (l ∷ ls) c)
      by_kind ignored e i w = rw (process-by l ls c ignored e, e) i
      by_kind ends e i w =
          rw (process-by l ls c ends e, e) (h.0 ∙ ap (take q.limit) (sym (append-nil seen)), refl)
      by_kind (wanted x) e i w = rw (process-by l ls c (wanted x) e, e) (w x)
