-- ===== src/Backend/Workflow/Routed.antt =====
-- The branch of `process_inference` where the model answers: the policy's route becomes the state.
use vision_qc.Prelude.{some, true, ◌≡◌, find_first}
use vision_qc.Backend.Domain.{InspectionStatus}
use vision_qc.Backend.Workflow.Tables.{Inspection, ReviewTask, Db}
use vision_qc.Backend.Workflow.Inference.{is_task_of, needs_review}
use vision_qc.Backend.Workflow.History.{Has}

-- The inspection has the state, and a task where the state asks for a review.
abbrev pub IsRouted : Inspection → InspectionStatus → Db → Type 0
IsRouted x s db =
    Has x.id s db
    × (needs_review s ≡ true → (t : ReviewTask) × (find_first (is_task_of x) db.tasks ≡ some t))
