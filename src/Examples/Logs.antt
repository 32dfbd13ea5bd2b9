-- ===== src/Examples/Logs.antt =====
-- Reading the audit log, at concrete inputs.
use maybe_dont.Prelude.{
  ℕ, ◌≡◌, refl, false, true, String, List, [], ◌∷◌, Option, none, some, length, arith,
}
use maybe_dont.AuditLog.Chunk.{take, extract_lines_reverse}
use maybe_dont.AuditLog.Lines.{segments, newest}
use maybe_dont.AuditLog.{
  Decoders, Query, LogAudit, LogFile, failed, read_entries, read_audit_log_entries,
}
use maybe_dont.AuditLog.Reading.{matched}
use maybe_dont.AuditLog.Newest.{read_entries-newest}

-- Each line decodes to an entry that names its length, at the time of its length.
abbrev entry : String → LogAudit
entry action = record {
  validation_started = "2025-01-01T00:00:00Z";
  tool = some (record { prefixed_name = "files__read"; client = "files" });
  action = action;
}

abbrev decode : List ℕ → Option (LogAudit × ℕ)
decode line = some (entry "deny", length line)

abbrev decoders : Decoders
decoders = record {
  direct = λ line. none;
  is_legacy = λ line. false;
  legacy = λ line. none;
  wrapped = decode;
}

abbrev query : Query
query = record {
  limit = 2;
  cutoff = some 2;
  filter = record { status = "denied"; tool_name = "files"; client = "" };
}

-- "a\nbbb\n\ncc\nddd\n".
abbrev file : List ℕ
file = 97 ∷ 10 ∷ 98 ∷ 98 ∷ 98 ∷ 10 ∷ 10 ∷ 99 ∷ 99 ∷ 10 ∷ 100 ∷ 100 ∷ 100 ∷ 10 ∷ []

read_entries-newest_example :
    (read_entries decoders query 4 file).entries
    ≡ take 2 (matched decoders query (newest (segments file)))
read_entries-newest_example = read_entries-newest decoders query 4 file (omega arith)

two_read : length (read_entries decoders query 4 file).entries ≡ 2
unfolding read_entries
two_read = refl

lines_of_chunk :
    (extract_lines_reverse file true).complete
    ≡ (100 ∷ 100 ∷ 100 ∷ []) ∷ (99 ∷ 99 ∷ []) ∷ (98 ∷ 98 ∷ 98 ∷ []) ∷ []
unfolding extract_lines_reverse
lines_of_chunk = refl

not_from_stderr :
    (f : LogFile)
    → read_audit_log_entries decoders "stderr" f 0 2 0 query.filter
      ≡ failed "cannot read audit logs when audit log path is a standard stream"
unfolding read_audit_log_entries
not_from_stderr f = refl

-- The reading ends with the chunk that fills the limit: what earlier chunks hold is not counted.
undercounted :
    (read_entries decoders (record query { limit = 1; cutoff = none }) 5 file).total_count ≡ 1
unfolding read_entries
undercounted = refl
