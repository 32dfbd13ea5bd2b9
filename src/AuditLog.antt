-- ===== src/AuditLog.antt =====
-- internal/gateway/audit_log_tool.go: reading the newest entries of the audit log backwards, in
-- chunks. A file is its bytes; the clock, the limit, the time range and the chunk size are numbers.
-- Decoding JSON is the parameter `Decoders`.
pub mod Chunk
pub mod Lines
pub mod Join
pub mod Reading
pub mod Backwards
pub mod Newest
use Prim.Native.Char.{code}
use Prim.Native.String
use text.Mathlib.Text.{starts_with}
use maybe_dont.Prelude.{
  ℕ, zero, suc, ◌+◌, ◌-◌, String, Bool, true, false, ◌==◌, ◌&&◌, ◌||◌, not, List, [], ◌∷◌, ◌++◌,
  Option, none, some, ltb, leb, eqb, is_some, length, if◌then◌else◌,
}
use maybe_dont.AuditLog.Chunk.{slice, extract_lines_reverse}

-- The fields of an entry that are read.
pub record LogTool : Type 0 where
  pub prefixed_name : String
  pub client : String

pub record LogAudit : Type 0 where
  pub validation_started : String
  pub tool : Option LogTool
  pub action : String

pub record LogEntry : Type 0 where
  pub audit : Option LogAudit

-- `json.Unmarshal` of a line as a new entry with its parsed time, as a legacy entry, and as a log entry
-- around a new one; and whether the line has a field that marks a legacy entry.
pub record Decoders : Type 0 where
  pub direct : List ℕ → Option (LogAudit × Option ℕ)
  pub is_legacy : List ℕ → Bool
  pub legacy : List ℕ → Option (LogAudit × ℕ)
  pub wrapped : List ℕ → Option (LogAudit × ℕ)

abbrev has_name : Option LogTool → Bool
has_name none = false
has_name (some t) = not (t.prefixed_name == "")

abbrev found : Option (LogAudit × ℕ) → Option (LogEntry × Option ℕ)
found none = none
found (some (a, t)) = if has_name a.tool then some (record { audit = some a }, some t) else none

abbrev or_next :
    Option (LogEntry × Option ℕ) → Option (LogEntry × Option ℕ) → Option (LogEntry × Option ℕ)
or_next (some r) other = some r
or_next none other = other

abbrev found_direct : Option (LogAudit × Option ℕ) → Option (LogEntry × Option ℕ)
found_direct none = none
found_direct (some (a, t)) =
    if not (a.validation_started == "") && has_name a.tool
    then some (record { audit = some a }, t)
    else none

-- An entry and its time, if it has one that parses.
unfoldable pub parse_audit_line : Decoders → List ℕ → Option (LogEntry × Option ℕ)
parse_audit_line d line =
    or_next (found_direct (d.direct line))
      (or_next (if d.is_legacy line then found (d.legacy line) else none) (found (d.wrapped line)))

pub record AuditLogFilter : Type 0 where
  pub status : String
  pub tool_name : String
  pub client : String

abbrev expected_action : String → String
expected_action s =
    if s == "success"
    then "allow"
    else if s == "denied" || s == "response_denied"
    then "deny"
    else s

abbrev tool_matches : AuditLogFilter → String → Option LogTool → Bool
tool_matches f action none = false
tool_matches f action (some t) =
    not (t.prefixed_name == "")
    && (f.status == "" || action == expected_action f.status)
    && (f.tool_name == "" || starts_with t.prefixed_name f.tool_name)
    && (f.client == "" || t.client == f.client)

abbrev audit_matches : AuditLogFilter → Option LogAudit → Bool
audit_matches f none = false
audit_matches f (some a) = tool_matches f a.action a.tool

unfoldable pub matches_filter : LogEntry → AuditLogFilter → Bool
matches_filter e f = audit_matches f e.audit

-- What is read for: how many entries, not before which time, and which.
pub record Query : Type 0 where
  pub limit : ℕ
  pub cutoff : Option ℕ
  pub filter : AuditLogFilter

abbrev too_old : Option ℕ → Option ℕ → Bool
too_old none time = false
too_old (some c) none = false
too_old (some c) (some t) = ltb t c

-- What a line is: nothing, an entry before the cutoff, or an entry that is asked for.
pub data LineKind : Type 0 where
  ignored ends : LineKind
  wanted : LogEntry → LineKind

abbrev kind_of : Query → Option (LogEntry × Option ℕ) → LineKind
kind_of q none = ignored
kind_of q (some (e, t)) =
    if too_old q.cutoff t then ends else if matches_filter e q.filter then wanted e else ignored

unfoldable pub classify : Decoders → Query → List ℕ → LineKind
unfolding matches_filter parse_audit_line
classify d q line = if eqb (length line) 0 then ignored else kind_of q (parse_audit_line d line)

-- Whether the reading has ended, the entries and their count.
pub record Collected : Type 0 where
  pub stopped : Bool
  pub entries : List LogEntry
  pub total_count : ℕ

abbrev pub keep : ℕ → LogEntry → Collected → Collected
keep limit e c = record c {
  entries = if ltb (length c.entries) limit then c.entries ++ e ∷ [] else c.entries;
  total_count = suc c.total_count;
}

module _ (d : Decoders) (q : Query) where
  unfoldable pub process_lines : List (List ℕ) → Collected → Collected
  unfolding classify
  process_lines [] c = c
  process_lines (l ∷ ls) c = elim (classify d q l) [
    | ignored ↦ process_lines ls c
    | ends ↦ record c { stopped = true }
    | wanted e ↦ process_lines ls (keep q.limit e c)
  ]

  -- The loop over the chunks: `read_pos` is where the unread part ends.
  unfoldable pub read_chunks : ℕ → List ℕ → ℕ → ℕ → List ℕ → Collected → Collected × List ℕ
  unfolding process_lines extract_lines_reverse
  read_chunks chunk_size file zero read_pos leftover c = (c, leftover)
  read_chunks chunk_size file (suc fuel) read_pos leftover c =
      elim (ltb 0 read_pos && ltb (length c.entries) q.limit) [
        | false ↦ (c, leftover)
        | true ↦
            let start = read_pos - chunk_size in
            let lines =
              extract_lines_reverse (slice file start read_pos ++ leftover) (ltb 0 start) in
            let c' = process_lines lines.complete c in
            elim c'.stopped [
              | true ↦ (c', [])
              | false ↦
                  read_chunks chunk_size file fuel start (if ltb 0 start then lines.partial else [])
                    c'
            ]
      ]

  -- What is left of the first line, after the loop.
  unfoldable pub finish_reading : Collected × List ℕ → Collected
  unfolding process_lines
  finish_reading (c, leftover) =
      if not c.stopped && ltb 0 (length leftover) && ltb (length c.entries) q.limit
      then process_lines (leftover ∷ []) c
      else c

  -- Each round reads at least one byte, so the size of the file is fuel enough.
  unfoldable pub read_entries : ℕ → List ℕ → Collected
  unfolding read_chunks finish_reading
  read_entries chunk_size file = finish_reading (
      read_chunks chunk_size file (length file) (length file) []
        (record { stopped = false; entries = []; total_count = 0 }))

-- The file behind the configured path.
pub data LogFile : Type 0 where
  missing : LogFile
  unreadable : String → LogFile
  contents : List ℕ → LogFile

pub data LogReply : Type 0 where
  failed : String → LogReply
  listed : List LogEntry → ℕ → LogReply

abbrev cutoff_time : ℕ → ℕ → Option ℕ
cutoff_time now range = if ltb 0 range then some (now - range) else none

abbrev pub chunk_bytes : ℕ
chunk_bytes = 65536

abbrev listed_of : Collected → LogReply
listed_of c = listed c.entries c.total_count

abbrev read_file : Decoders → Query → LogFile → LogReply
read_file d q missing = listed [] 0
read_file d q (unreadable e) = failed e
read_file d q (contents file) = listed_of (read_entries d q chunk_bytes file)

unfoldable pub read_audit_log_entries :
    Decoders → String → LogFile → ℕ → ℕ → ℕ → AuditLogFilter → LogReply
unfolding read_entries
read_audit_log_entries d path file now limit range filter =
    if path == "stderr" || path == "stdout"
    then failed "cannot read audit logs when audit log path is a standard stream"
    else read_file d (record { limit = limit; cutoff = cutoff_time now range; filter = filter })
        file
