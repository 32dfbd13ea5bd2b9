-- ===== src/Intercept/Shell.antt =====
-- The merge of a shell tool's two evaluations (internal/gateway/intercept_handler.go).
use maybe_dont.Prelude.{◌+◌, ◌≡◌, refl, true, false, ◌==◌, ◌&&◌, ◌||◌, arith}
use maybe_dont.Results.{ValidationResults}
use maybe_dont.Intercept.{merge_shell_results}

-- A shell tool call passes only if it passes as a command and as a tool call. A refusal carries the
-- message of the command's refusal first, and reports no bypass; failing open on either side is kept.
pub merge_shell_results-denies :
    (cli mcp : ValidationResults)
    → let m = merge_shell_results cli mcp in
      (m.allowed ≡ (cli.allowed && mcp.allowed))
      × (m.failed_open ≡ (cli.failed_open || mcp.failed_open))
      × (m.deny_count ≡ cli.deny_count + mcp.deny_count)
      × ((m.allowed && m.audit_mode_bypass) ≡ m.audit_mode_bypass)
      × (cli.allowed ≡ false → (cli.message == "") ≡ false → m.message ≡ cli.message)
      × (cli.allowed ≡ true
          → mcp.allowed ≡ false
          → (mcp.message == "") ≡ false
          → m.message ≡ mcp.message)
unfolding merge_shell_results
merge_shell_results-denies cli mcp =
    (refl, refl, refl, ground arith, λ a m. ground arith, λ a b m. rw (a, b, m) refl)
