-- ===== src/Backend/Workflow/Environment.antt =====
-- What the workflow of backend/app/services.py is given: its settings, the model, the connectors.
use vision_qc.Prelude.{ℕ, String, Option, Bool}
use vision_qc.Backend.Policy.{Score, PolicyConfig, Reason}
use vision_qc.Backend.Connectors.{ConnectorError, ExecutionOutcome}
use vision_qc.Backend.Workflow.Tables.{Inspection, ExternalAction}

-- What the `try` block of `process_inference` comes to: the name of the exception's class, or the
-- score of the model with the policy of the deployment's manifest.
pub data Inferred : Type 0 where
  raised : String → Inferred
  output : Score → PolicyConfig → Inferred

pub record Env : Type 0 where
  -- `settings.process_inline`
  pub inline : Bool
  -- original image, deployment, manifest and `model_adapter.infer`
  pub infer : Inspection → Inferred
  -- whether `storage.put_immutable` stores the heatmap
  pub heatmap_stored : Inspection → Bool
  -- whether `connectors` has the name
  pub has_connector : String → Bool
  -- `connector_executor.execute`; `none` is an exception. The row counts the attempts made so far, so
  -- that two executions of one action may differ.
  pub call : ExternalAction → Option ExecutionOutcome
  -- the text of `PolicyEvaluation.reason`, with its numbers to six places
  pub reason_text : Reason → String
  pub error_text : ConnectorError → String
  -- `f"{id}:{suffix}"`
  pub label : ℕ → String → String
