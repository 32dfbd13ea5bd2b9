-- ===== src/Runner.antt =====
-- internal/testsuite/runner.go: which tests are run against which models, and the summary of the results.
-- Files, output and the running of a test are left out; rates are pairs of counts.
pub mod Order
pub mod Models
pub mod Filters
pub mod Summary
use maybe_dont.Prelude.{String, Bool, Option, List}
use maybe_dont.Prelude.Json.{Members}

pub record ModelConfig : Type 0 where
  pub provider : String
  pub model : String
  pub endpoint : String
  pub api_key : String
  pub parameters : Option Members
  pub query_params : Option Members
  pub headers : Option Members
  pub enabled : Option Bool
