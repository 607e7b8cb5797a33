-- ===== src/Backend/Connectors/Tests.antt =====
-- Requests to a system in memory, and the theorems about the executor on them.
use vision_qc.Prelude.{ℕ, String, none, some, true, false, []}
use vision_qc.Backend.Connectors.{Memory, new_result, ExecutionOutcome}

abbrev ref_text : ℕ → String
ref_text n = "MES-1"

-- A system that accepts the first request and then reports a retryable failure.
abbrev flaky : Memory
flaky = record { records = []; calls = []; fail_after_create_once = true; always_fail = false }

abbrev second_try : ExecutionOutcome
second_try = record {
  result = some (new_result ref_text "HOLD_BATCH" flaky);
  attempts = 2;
  error = none;
}
