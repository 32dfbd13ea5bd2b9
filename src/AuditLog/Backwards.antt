-- ===== src/AuditLog/Backwards.antt =====
-- The loop over the chunks of a file, in internal/gateway/audit_log_tool.go.
use maybe_dont.Prelude.{
  ℕ, zero, suc, ◌-◌, ◌≤◌, ◌<◌, ◌≡◌, refl, sym, ◌∙◌, ap, subst, true, false, ◌&&◌, List, [], ◌++◌,
  inl, inr, ltb, length, if◌then◌else◌, Bool-cases, arith, append-nil,
}
use maybe_dont.AuditLog.Chunk.{take, drop, slice, extract_lines_reverse}
use maybe_dont.AuditLog.Lines.{
  segments, first_of, rest_of, segments-cons, newest, newest-append, extract-all, extract-later,
}
use maybe_dont.AuditLog.Join.{segments-append, slice-drop, take-append_full}
use maybe_dont.AuditLog.{
  Decoders, Query, LogEntry, Collected, process_lines, read_chunks, finish_reading,
}
use maybe_dont.AuditLog.Reading.{
  matched, hits_end, matched-append, matched-stop, hits_end-append, Holds, process-Holds,
}

-- The lines of the part from a position that do not reach before it, newest first.
abbrev pub seen_from : List ℕ → ℕ → List (List ℕ)
seen_from file pos = newest (rest_of (segments (drop pos file)))

abbrev joined : List ℕ → ℕ → ℕ → List ℕ
joined file start pos = slice file start pos ++ first_of (segments (drop pos file))

segments_from :
    (file : List ℕ) (start pos : ℕ)
    → start ≤ pos
    → segments (drop start file)
      ≡ segments (joined file start pos) ++ rest_of (segments (drop pos file))
segments_from file start pos h =
    ap segments (sym (slice-drop file start pos h))
    ∙ segments-append (slice file start pos) (drop pos file)

-- A chunk that does not begin the file.
seen_step :
    (file : List ℕ) (start pos : ℕ)
    → start ≤ pos
    → seen_from file start
      ≡ seen_from file pos ++ newest (rest_of (segments (joined file start pos)))
seen_step file start pos h =
    ap (λ s. newest (rest_of s)) (segments_from file start pos h)
    ∙ ap (λ s. newest (rest_of (s ++ rest_of (segments (drop pos file)))))
        (segments-cons (joined file start pos))
    ∙ newest-append (rest_of (segments (joined file start pos)))
        (rest_of (segments (drop pos file)))

left_step :
    (file : List ℕ) (start pos : ℕ)
    → start ≤ pos
    → first_of (segments (joined file start pos)) ≡ first_of (segments (drop start file))
left_step file start pos h = sym (
    ap first_of (segments_from file start pos h)
    ∙ ap (λ s. first_of (s ++ rest_of (segments (drop pos file))))
        (segments-cons (joined file start pos)))

-- The chunk that begins it.
all_step :
    (file : List ℕ) (pos : ℕ)
    → newest (segments file) ≡ seen_from file pos ++ newest (segments (joined file 0 pos))
all_step file pos =
    ap newest (segments_from file 0 pos (omega arith))
    ∙ newest-append (segments (joined file 0 pos)) (rest_of (segments (drop pos file)))

module _ (d : Decoders) (q : Query) (size : ℕ) (file : List ℕ) (positive : 0 < size) where
  abbrev pub wanted_entries : List LogEntry
  wanted_entries = matched d q (newest (segments file))

  -- The reading ends with the first entries of the whole file.
  abbrev pub Ends : Collected × List ℕ → Type 0
  Ends r = (finish_reading d q r).entries ≡ take q.limit wanted_entries

  finish_stopped : (c : Collected) (l : List ℕ) → c.stopped ≡ true → finish_reading d q (c, l) ≡ c
  unfolding finish_reading
  finish_stopped c l h = ground (arith, h)

  finish_empty : (c : Collected) → finish_reading d q (c, []) ≡ c
  unfolding finish_reading
  finish_empty c = ground arith

  finish_full :
      (c : Collected) (l : List ℕ)
      → ltb (length c.entries) q.limit ≡ false
      → finish_reading d q (c, l) ≡ c
  unfolding finish_reading
  finish_full c l h = ground (arith, h)

  read_zero :
      (fuel : ℕ) (l : List ℕ) (c : Collected) → read_chunks d q size file fuel 0 l c ≡ (c, l)
  unfolding read_chunks
  read_zero zero l c = refl
  read_zero (suc fuel) l c = refl

  -- What the loop knows before a round: the entries of the lines seen, none of which was too old.
  pub record Reads (pos : ℕ) (l : List ℕ) (c : Collected) : Type 0 where
    pub running : hits_end d q (seen_from file pos) ≡ false
    pub holds : Holds d q (matched d q (seen_from file pos)) false c
    pub left : l ≡ first_of (segments (drop pos file))

  -- A limit that is reached.
  full-Ends :
      (pos : ℕ) (l : List ℕ) (c : Collected)
      → Reads pos l c
      → ltb (length c.entries) q.limit ≡ false
      → Ends (c, l)
  full-Ends pos l c r f =
      let ms = matched d q (seen_from file pos) in
      let rest = newest (segments (joined file 0 pos)) in
      ap (λ (x : Collected). x.entries) (finish_full c l f)
      ∙ r.holds.0
      ∙ sym (
          take-append_full q.limit ms (matched d q rest)
            (ap (λ es. ltb (length es) q.limit) (sym r.holds.0) ∙ f))
      ∙ ap (take q.limit) (
          sym (
            ap (matched d q) (all_step file pos)
            ∙ matched-append d q (seen_from file pos) rest r.running))

  abbrev start_of : ℕ → ℕ
  start_of pos = pos - size

  abbrev lines_at : ℕ → List ℕ → List (List ℕ)
  lines_at pos l =
      (extract_lines_reverse (slice file (start_of pos) pos ++ l) (ltb 0 (start_of pos))).complete

  abbrev left_at : ℕ → List ℕ → List ℕ
  left_at pos l =
      if ltb 0 (start_of pos)
      then (extract_lines_reverse (slice file (start_of pos) pos ++ l)
          (ltb 0 (start_of pos))).partial
      else []

  round_idle :
      (fuel pos : ℕ) (l : List ℕ) (c : Collected)
      → ltb (length c.entries) q.limit ≡ false
      → read_chunks d q size file (suc fuel) pos l c ≡ (c, l)
  unfolding read_chunks
  round_idle fuel pos l c f =
      let g : (ltb 0 pos && ltb (length c.entries) q.limit) ≡ false = ground (arith, f) in
      rw (g, read_chunks) refl

  round_stops :
      (fuel pos : ℕ) (l : List ℕ) (c : Collected)
      → 0 < pos
      → ltb (length c.entries) q.limit ≡ true
      → (process_lines d q (lines_at pos l) c).stopped ≡ true
      → read_chunks d q size file (suc fuel) pos l c ≡ (process_lines d q (lines_at pos l) c, [])
  unfolding read_chunks
  round_stops fuel pos l c p f s =
      let g : (ltb 0 pos && ltb (length c.entries) q.limit) ≡ true = ground (arith, f, p) in
      rw (g, s, read_chunks) refl

  round_goes :
      (fuel pos : ℕ) (l : List ℕ) (c : Collected)
      → 0 < pos
      → ltb (length c.entries) q.limit ≡ true
      → (process_lines d q (lines_at pos l) c).stopped ≡ false
      → read_chunks d q size file (suc fuel) pos l c
        ≡ read_chunks d q size file fuel
            (start_of pos)
            (left_at pos l)
            (process_lines d q (lines_at pos l) c)
  unfolding read_chunks
  round_goes fuel pos l c p f s =
      let g : (ltb 0 pos && ltb (length c.entries) q.limit) ≡ true = ground (arith, f, p) in
      rw (g, s, read_chunks) refl

  -- What the lines of a chunk are.
  lines_later :
      (pos : ℕ) (l : List ℕ)
      → l ≡ first_of (segments (drop pos file))
      → ltb 0 (start_of pos) ≡ true
      → (lines_at pos l ≡ newest (rest_of (segments (joined file (start_of pos) pos))))
        × (left_at pos l ≡ first_of (segments (drop (start_of pos) file)))
  lines_later pos l e b =
      let x = extract-later (joined file (start_of pos) pos) in
      let part = slice file (start_of pos) pos in
      (
        ap (λ n. (extract_lines_reverse (part ++ l) n).complete) b
            ∙ ap (λ k. (extract_lines_reverse (part ++ k) true).complete) e
            ∙ x.0,
        ap (λ n. if n then (extract_lines_reverse (part ++ l) n).partial else []) b
            ∙ ap (λ k. (extract_lines_reverse (part ++ k) true).partial) e
            ∙ x.1
            ∙ left_step file (start_of pos) pos (omega arith),
      )

  lines_first :
      (pos : ℕ) (l : List ℕ)
      → l ≡ first_of (segments (drop pos file))
      → start_of pos ≡ 0
      → lines_at pos l ≡ newest (segments (joined file 0 pos))
  lines_first pos l e z =
      ap (λ n. (extract_lines_reverse (slice file n pos ++ l) (ltb 0 n)).complete) z
      ∙ ap (λ k. (extract_lines_reverse (slice file 0 pos ++ k) false).complete) e
      ∙ extract-all (joined file 0 pos)

  -- The entries after a chunk.
  after_chunk :
      (pos : ℕ) (l : List ℕ) (c : Collected) (ls : List (List ℕ))
      → Reads pos l c
      → lines_at pos l ≡ ls
      → Holds d q
          (matched d q (seen_from file pos ++ ls))
          (hits_end d q (seen_from file pos ++ ls))
          (process_lines d q (lines_at pos l) c)
  after_chunk pos l c ls r e =
      let (h, s) = process-Holds d q ls (matched d q (seen_from file pos)) c r.holds in
      rw
        (
          e,
          matched-append d q (seen_from file pos) ls r.running,
          hits_end-append d q (seen_from file pos) ls r.running,
        )
        (h, s)

  -- An entry that is too old.
  stopped-Ends :
      (pos : ℕ) (l : List ℕ) (c : Collected) (ls more : List (List ℕ))
      → Reads pos l c
      → lines_at pos l ≡ ls
      → newest (segments file) ≡ (seen_from file pos ++ ls) ++ more
      → (process_lines d q (lines_at pos l) c).stopped ≡ true
      → Ends (process_lines d q (lines_at pos l) c, [])
  stopped-Ends pos l c ls more r e n s =
      let (h, t) = after_chunk pos l c ls r e in
      ap (λ (x : Collected). x.entries) (finish_stopped _ [] s)
      ∙ h
      ∙ ap (take q.limit)
          (sym (ap (matched d q) n ∙ matched-stop d q (seen_from file pos ++ ls) more (sym t ∙ s)))

  -- One round, when the loop is right from every earlier position.
  round-Ends :
      (fuel pos : ℕ) (l : List ℕ) (c : Collected)
      → 0 < pos
      → Reads pos l c
      → ((l' : List ℕ) (c' : Collected)
          → 0 < start_of pos
          → Reads (start_of pos) l' c'
          → Ends (read_chunks d q size file fuel (start_of pos) l' c'))
      → Ends (read_chunks d q size file (suc fuel) pos l c)
  round-Ends fuel pos l c p r ih = elim (Bool-cases (ltb (length c.entries) q.limit)) [
    | inr f ↦ subst Ends (sym (round_idle fuel pos l c f)) (full-Ends pos l c r f)
    | inl f ↦ elim (Bool-cases (ltb 0 (start_of pos))) [
      | inl b ↦ later b f
      | inr b ↦ first (ground (arith, b)) f
    ]
  ]
    where
      later :
          ltb 0 (start_of pos) ≡ true
          → ltb (length c.entries) q.limit ≡ true
          → Ends (read_chunks d q size file (suc fuel) pos l c)
      later b f =
          let (e, k) = lines_later pos l r.left b in
          let ls = newest (rest_of (segments (joined file (start_of pos) pos))) in
          let more = newest (segments (joined file 0 (start_of pos))) in
          let n = seen_step file (start_of pos) pos (omega arith) in
          let (h, t) = after_chunk pos l c ls r e in
          elim (Bool-cases (process_lines d q (lines_at pos l) c).stopped) [
            | inl s ↦ subst Ends (sym (round_stops fuel pos l c p f s)) (
                stopped-Ends pos l c ls more r e
                  (all_step file (start_of pos) ∙ ap (λ x. x ++ more) n) s)
            | inr s ↦ subst Ends (sym (round_goes fuel pos l c p f s)) (
                ih (left_at pos l) (process_lines d q (lines_at pos l) c) (ground (arith, b))
                  (record {
                    running = ap (hits_end d q) n ∙ sym t ∙ s;
                    holds = (h ∙ ap (λ x. take q.limit (matched d q x)) (sym n), s);
                    left = k;
                  }))
          ]

      first :
          start_of pos ≡ 0
          → ltb (length c.entries) q.limit ≡ true
          → Ends (read_chunks d q size file (suc fuel) pos l c)
      first z f =
          let e = lines_first pos l r.left z in
          let ls = newest (segments (joined file 0 pos)) in
          let (h, t) = after_chunk pos l c ls r e in
          let end = process_lines d q (lines_at pos l) c in
          elim (Bool-cases (process_lines d q (lines_at pos l) c).stopped) [
            | inl s ↦ subst Ends (sym (round_stops fuel pos l c p f s)) (
                stopped-Ends pos l c ls [] r e
                  (all_step file pos ∙ sym (append-nil (seen_from file pos ++ ls))) s)
            | inr s ↦
                subst Ends
                  (sym (
                    round_goes fuel pos l c p f s
                    ∙ ap (λ n. read_chunks d q size file fuel n (left_at pos l) end) z
                    ∙ read_zero fuel (left_at pos l) end
                    ∙ ap
                        (λ n. (
                          end,
                          if ltb 0 n
                              then (extract_lines_reverse (slice file n pos ++ l) (ltb 0 n)).partial
                              else [],
                        ))
                        z))
                  (ap (λ (x : Collected). x.entries) (finish_empty end)
                    ∙ h
                    ∙ ap (λ x. take q.limit (matched d q x)) (sym (all_step file pos)))
          ]

  pub Reads-end :
      (fuel pos : ℕ) (l : List ℕ) (c : Collected)
      → pos ≤ fuel
      → 0 < pos
      → Reads pos l c
      → Ends (read_chunks d q size file fuel pos l c)
  Reads-end zero pos l c h p r = absurd (omega arith)
  Reads-end (suc fuel) pos l c h p r =
      round-Ends fuel pos l c p r
        (λ l' c' p' r'. Reads-end fuel (start_of pos) l' c' (omega arith) p' r')
