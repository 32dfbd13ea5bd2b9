-- ===== src/AuditLog/Newest.antt =====
-- The whole of `readAuditLogEntries` of internal/gateway/audit_log_tool.go.
use maybe_dont.Prelude.{ℕ, suc, ◌<◌, ◌≡◌, refl, sym, ◌∙◌, ap, false, List, [], ◌∷◌, length, arith}
use maybe_dont.AuditLog.Chunk.{take}
use maybe_dont.AuditLog.Lines.{segments, rest_of, first_of, newest}
use maybe_dont.AuditLog.Join.{drop_all, take-nil}
use maybe_dont.AuditLog.{Decoders, Query, Collected, read_entries}
use maybe_dont.AuditLog.Reading.{matched, hits_end}
use maybe_dont.AuditLog.Backwards.{Reads, Reads-end}

module _ (d : Decoders) (q : Query) (size : ℕ) where
  abbrev begin : Collected
  begin = record { stopped = false; entries = []; total_count = 0 }

  begin-Reads :
      (file : List ℕ) (positive : 0 < size) → Reads d q size file positive (length file) [] begin
  unfolding segments matched hits_end
  begin-Reads file positive =
      let e = drop_all file in
      record {
        running = ap (λ x. hits_end d q (newest (rest_of (segments x)))) e;
        holds = (
          sym (
              ap (λ x. take q.limit (matched d q (newest (rest_of (segments x))))) e
              ∙ take-nil q.limit),
          refl,
        );
        left = sym (ap (λ x. first_of (segments x)) e);
      }

  -- Reading backwards in chunks gives the newest entries that are asked for, in order, as many as the
  -- limit allows: those of the lines of the whole file taken last to first, up to the first entry
  -- that is too old, whatever the size of the chunks and wherever they cut the lines.
  pub read_entries-newest :
      (file : List ℕ)
      → 0 < size
      → (read_entries d q size file).entries ≡ take q.limit (matched d q (newest (segments file)))
  unfolding read_entries segments matched
  read_entries-newest [] positive = sym (take-nil q.limit)
  read_entries-newest (b ∷ bs) positive =
      Reads-end d q size (b ∷ bs) positive (suc (length bs)) (suc (length bs)) [] begin
        (omega arith) (omega arith) (begin-Reads (b ∷ bs) positive)
