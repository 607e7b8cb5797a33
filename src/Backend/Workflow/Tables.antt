-- ===== src/Backend/Workflow/Tables.antt =====
-- The tables of backend/app/models.py that the workflow of backend/app/services.py reads and writes.
--
-- Ids are drawn from one counter, as `new_id` draws fresh ones. JSON payloads, wall-clock times and
-- the texts of audit payloads are not kept.
use vision_qc.Prelude.{ℕ, String, Option, Bool, true, false, List}
use vision_qc.Backend.Domain.{InspectionStatus, PolicyRoute, ReviewChoice, ActionStatus}
use vision_qc.Backend.Policy.{Score}

-- `Role` of backend/app/auth.py
pub data Role : Type 0 where
  inspector edge_gateway quality_manager ml_engineer admin auditor fde : Role

abbrev pub role_eq : Role → Role → Bool
role_eq inspector inspector = true
role_eq edge_gateway edge_gateway = true
role_eq quality_manager quality_manager = true
role_eq ml_engineer ml_engineer = true
role_eq admin admin = true
role_eq auditor auditor = true
role_eq fde fde = true
role_eq _ _ = false

pub record Principal : Type 0 where
  pub actor_id : String
  pub tenant_id : String
  pub roles : List Role

pub record Inspection : Type 0 where
  pub id : ℕ
  pub tenant_id : String
  pub deployment_pack_id : ℕ
  pub idempotency_key : String
  pub request_fingerprint : String
  pub correlation_id : String
  pub status : InspectionStatus
  pub product_code : String
  pub station_code : String
  pub batch_no : String
  pub failure_reason : Option String

abbrev pub with_status : InspectionStatus → Inspection → Inspection
with_status s i = record i { status = s }

-- `InferenceResult`, by its score.
pub record ScoreRow : Type 0 where
  pub tenant_id : String
  pub inspection_id : ℕ
  pub score : Score

-- `PolicyDecision`, by the policy's version and the route.
pub record PolicyRow : Type 0 where
  pub tenant_id : String
  pub inspection_id : ℕ
  pub policy_version : String
  pub decision : PolicyRoute

pub data TaskStatus : Type 0 where
  task_open completed : TaskStatus

pub record ReviewTask : Type 0 where
  pub id : ℕ
  pub tenant_id : String
  pub inspection_id : ℕ
  pub status : TaskStatus
  pub assignee : Option String
  pub version : ℕ

pub record ReviewDecision : Type 0 where
  pub tenant_id : String
  pub review_task_id : ℕ
  pub actor_id : String
  pub decision : ReviewChoice
  pub reason : Option String

-- The texts of `QualityIncident.status`.
pub data IncidentStatus : Type 0 where
  waiting running finished broken shut : IncidentStatus

pub record Incident : Type 0 where
  pub id : ℕ
  pub tenant_id : String
  pub inspection_id : ℕ
  pub status : IncidentStatus
  pub disposition : ReviewChoice
  pub owner : Option String
  pub outcome : Option String
  pub verification_record : Option String

pub record ExternalAction : Type 0 where
  pub id : ℕ
  pub tenant_id : String
  pub incident_id : ℕ
  pub connector : String
  pub operation : String
  pub idempotency_key : String
  pub status : ActionStatus
  pub attempts : ℕ
  pub external_reference : Option String
  pub last_error : Option String

pub record StateTransition : Type 0 where
  pub tenant_id : String
  pub entity_id : ℕ
  pub from_state : InspectionStatus
  pub to_state : InspectionStatus
  pub actor : String
  pub reason : String
  pub correlation_id : String

pub record AuditEvent : Type 0 where
  pub tenant_id : String
  pub actor : String
  pub action : String
  pub target_type : String
  pub target_id : ℕ
  pub correlation_id : String

pub data EventStatus : Type 0 where
  waiting processed failed : EventStatus

pub record OutboxEvent : Type 0 where
  pub id : ℕ
  pub tenant_id : String
  pub topic : String
  pub aggregate_id : ℕ
  pub correlation_id : String
  pub status : EventStatus
  pub attempts : ℕ
  pub last_error : Option String
  pub available_at : ℕ
  pub created_at : ℕ

-- The tables but for the inspections and the log of their transitions.
pub record Rest : Type 0 where
  pub scores : List ScoreRow
  pub policies : List PolicyRow
  pub tasks : List ReviewTask
  pub decisions : List ReviewDecision
  pub incidents : List Incident
  pub actions : List ExternalAction
  pub audit : List AuditEvent
  pub outbox : List OutboxEvent
  pub next_id : ℕ

pub record Db : Type 0 where
  pub inspections : List Inspection
  pub transitions : List StateTransition
  pub rest : Rest
  pub open rest use *
