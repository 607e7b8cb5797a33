-- ===== src/Backend/Workflow/Stuck.antt =====
-- What an event whose handler raises does to the worker.
use vision_qc.Prelude.{ℕ, String, List, [], ◌∷◌}
use vision_qc.Backend.Workflow.Tables.{Db}
use vision_qc.Backend.Calls.{ServiceError}
use vision_qc.Backend.Workflow.Environment.{Env}
use vision_qc.Backend.Workflow.Outbox.{worker_turn}

-- The rounds of `run_forever` at some times.
abbrev pub worker_rounds : Env → (ServiceError → String) → List ℕ → Db → Db
worker_rounds env text [] db = db
worker_rounds env text (now ∷ times) db = worker_rounds env text times (worker_turn env text now db)
