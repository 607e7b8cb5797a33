-- ===== src/Backend/Domain.antt =====
-- backend/app/domain.py: the states of an inspection and the table of its transitions.
pub mod Trails
mod Tests
use vision_qc.Prelude.{
  String, Option, none, some, Bool, true, false, List, [], ◌∷◌, ◌≡◌, refl, any_of, find_first,
  str_eq, if◌then◌else◌,
}

pub data InspectionStatus : Type 0 where
  received validated inferencing scored auto_released review_required : InspectionStatus
  batch_held release_approved nonconformance_confirmed action_pending : InspectionStatus
  action_executing action_completed action_failed verifying closed : InspectionStatus
  rejected_input inference_failed escalated : InspectionStatus

abbrev pub text_of : InspectionStatus → String
text_of received = "RECEIVED"
text_of validated = "VALIDATED"
text_of inferencing = "INFERENCING"
text_of scored = "SCORED"
text_of auto_released = "AUTO_RELEASED"
text_of review_required = "REVIEW_REQUIRED"
text_of batch_held = "BATCH_HELD"
text_of release_approved = "RELEASE_APPROVED"
text_of nonconformance_confirmed = "NONCONFORMANCE_CONFIRMED"
text_of action_pending = "ACTION_PENDING"
text_of action_executing = "ACTION_EXECUTING"
text_of action_completed = "ACTION_COMPLETED"
text_of action_failed = "ACTION_FAILED"
text_of verifying = "VERIFYING"
text_of closed = "CLOSED"
text_of rejected_input = "REJECTED_INPUT"
text_of inference_failed = "INFERENCE_FAILED"
text_of escalated = "ESCALATED"

abbrev pub all_states : List InspectionStatus
all_states =
    received ∷ validated ∷ inferencing ∷ scored ∷ auto_released ∷ review_required ∷ batch_held
    ∷ release_approved ∷ nonconformance_confirmed ∷ action_pending ∷ action_executing
    ∷ action_completed ∷ action_failed ∷ verifying ∷ closed ∷ rejected_input ∷ inference_failed
    ∷ escalated ∷ []

-- `InspectionStatus(text)`; `none` is its ValueError.
unfoldable pub parse : String → Option InspectionStatus
parse t = find_first (λ s. str_eq (text_of s) t) all_states

-- `INSPECTION_TRANSITIONS`
unfoldable pub transitions : InspectionStatus → List InspectionStatus
transitions received = validated ∷ rejected_input ∷ []
transitions validated = inferencing ∷ []
transitions inferencing = scored ∷ inference_failed ∷ []
transitions inference_failed = review_required ∷ []
transitions scored = auto_released ∷ review_required ∷ batch_held ∷ []
transitions review_required = release_approved ∷ nonconformance_confirmed ∷ escalated ∷ []
transitions batch_held = release_approved ∷ nonconformance_confirmed ∷ escalated ∷ []
transitions nonconformance_confirmed = action_pending ∷ []
transitions action_pending = action_executing ∷ []
transitions action_executing = action_completed ∷ action_failed ∷ []
transitions action_failed = action_pending ∷ []
transitions action_completed = verifying ∷ closed ∷ []
transitions verifying = closed ∷ escalated ∷ []
transitions escalated = review_required ∷ batch_held ∷ []
transitions auto_released = []
transitions release_approved = []
transitions closed = []
transitions rejected_input = []

-- The place of a state in the declaration, by which states are compared.
abbrev pub state_eq : InspectionStatus → InspectionStatus → Bool
state_eq s t = str_eq (text_of s) (text_of t)

pub data DomainConflict : Type 0 where
  unknown_state illegal_transition : DomainConflict

-- `assert_inspection_transition`; `none` is the return without an exception.
unfoldable pub assert_inspection_transition : String → String → Option DomainConflict
assert_inspection_transition current target = elim (parse current) [
  | none ↦ some unknown_state
  | some c ↦ elim (parse target) [
    | none ↦ some unknown_state
    | some t ↦ if any_of (λ s. state_eq s t) (transitions c) then none else some illegal_transition
  ]
]

-- `PolicyRoute`
pub data PolicyRoute : Type 0 where
  auto_release manual_review batch_hold_and_review : PolicyRoute

-- `ReviewChoice`
pub data ReviewChoice : Type 0 where
  good rework scrap investigate unable_to_determine : ReviewChoice

-- `ExternalActionStatus`
pub data ActionStatus : Type 0 where
  pending executing succeeded failed manual : ActionStatus
