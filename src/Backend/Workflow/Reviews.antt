-- ===== src/Backend/Workflow/Reviews.antt =====
-- Reviews: `claim_review` and `decide_review` of backend/app/services.py. An UPDATE that names the
-- expected version takes a task at most once.
use vision_qc.Prelude.{
  ℕ, ◌+◌, String, Option, none, some, Bool, true, false, ◌&&◌, not, [], ◌∷◌, ◌++◌, str_eq, ◌==◌,
  if◌then◌else◌, find_first, update_where, count_if, any_of, is_some,
}
use vision_qc.Backend.Domain.{
  InspectionStatus, release_approved, nonconformance_confirmed, escalated, ReviewChoice, good,
  rework, scrap, investigate, unable_to_determine,
}
use vision_qc.Backend.Workflow.Tables.{
  quality_manager, role_eq, Principal, ReviewTask, task_open, completed, Rest,
}
use vision_qc.Backend.Calls.{
  not_found, conflict, forbidden, pure, gets, or_raise, branch, guard, ◌>>=◌, ◌>>◌,
}
use vision_qc.Backend.Workflow.Session.{Action, modify, record_audit, transition, or_text}
use vision_qc.Backend.Workflow.Environment.{Env}
use vision_qc.Backend.Workflow.Actions.{own_inspection}
use vision_qc.Backend.Workflow.Incidents.{create_incident}

abbrev pub is_task : ℕ → String → ReviewTask → Bool
is_task i tenant t = t.id == i && str_eq t.tenant_id tenant

abbrev pub is_open : ReviewTask → Bool
is_open t = elim t.status [ task_open ↦ true | completed ↦ false ]

abbrev pub claimable : ℕ → String → ℕ → ReviewTask → Bool
claimable i tenant version t =
    is_task i tenant t && is_open t && t.version == version && not (is_some t.assignee)

abbrev pub claim_by : String → ReviewTask → ReviewTask
claim_by actor t = record t { assignee = some actor; version = t.version + 1 }

abbrev pub set_tasks : (ReviewTask → Bool) → (ReviewTask → ReviewTask) → Rest → Rest
set_tasks p f r = record r { tasks = update_where p f r.tasks }

-- `claim_review`; the answer is the task after the claim.
unfoldable pub claim_review : Principal → ℕ → ℕ → String → Action ReviewTask
claim_review p i version correlation = do
  hits ← gets (λ db. count_if (claimable i p.tenant_id version) db.tasks)
  modify (set_tasks (claimable i p.tenant_id version) (claim_by p.actor_id))
  found ← gets (λ db. find_first (is_task i p.tenant_id) db.tasks)
  guard (hits == 1) (
      if is_some found
      then conflict "review task version or assignment changed"
      else not_found "review task not found")
  t ← or_raise found (not_found "review task not found")
  record_audit p.tenant_id p.actor_id "review.claimed" "review_task" t.id correlation
  pure t

-- `ReviewDecisionRequest`, but for notes and model feedback.
pub record DecisionRequest : Type 0 where
  pub decision : ReviewChoice
  pub reason : Option String
  pub expected_version : ℕ

abbrev pub high_risk : ReviewChoice → Bool
high_risk rework = true
high_risk scrap = true
high_risk investigate = true
high_risk _ = false

abbrev pub decidable : ℕ → String → ℕ → ReviewTask → Bool
decidable i tenant version t = is_task i tenant t && is_open t && t.version == version

abbrev pub decide_by : String → ReviewTask → ReviewTask
decide_by actor t = record t { status = completed; assignee = some actor; version = t.version + 1 }

abbrev pub may_decide : Option String → String → Bool
may_decide none actor = true
may_decide (some a) actor = str_eq a actor

abbrev pub target_of : ReviewChoice → InspectionStatus
target_of good = release_approved
target_of unable_to_determine = escalated
target_of _ = nonconformance_confirmed

abbrev pub reason_of : ReviewChoice → Option String → String
reason_of good r = "named inspector approved release"
reason_of unable_to_determine r = or_text r "unable to determine"
reason_of _ r = or_text r "nonconformance confirmed"

abbrev pub add_decision : Principal → ℕ → DecisionRequest → Rest → Rest
add_decision p i request r = record r {
  decisions =
      r.decisions
      ++ record {
        tenant_id = p.tenant_id;
        review_task_id = i;
        actor_id = p.actor_id;
        decision = request.decision;
        reason = request.reason;
      }
        ∷ [];
}

-- `decide_review`; the answer is the incident, if one was created, and the task's new version.
unfoldable pub decide_review :
    Env → Principal → ℕ → DecisionRequest → String → Action (Option ℕ × ℕ)
decide_review env p i request correlation = do
  t ←
      or_raise (← gets (λ db. find_first (is_task i p.tenant_id) db.tasks))
        (not_found "review task not found")
  guard (may_decide t.assignee p.actor_id) (forbidden "review task is assigned to another actor")
  guard (not (high_risk request.decision && not (any_of (role_eq quality_manager) p.roles)))
      (forbidden "quality_manager role is required for nonconformance disposition")
  hits ← gets (λ db. count_if (decidable i p.tenant_id request.expected_version) db.tasks)
  modify (set_tasks (decidable i p.tenant_id request.expected_version) (decide_by p.actor_id))
  guard (hits == 1) (conflict "review task was already decided or its version changed")
  modify (add_decision p t.id request)
  x ←
      or_raise
        (← gets (λ db. find_first (own_inspection t.inspection_id p.tenant_id) db.inspections))
        (not_found "inspection for review task not found")
  let reason = reason_of request.decision request.reason
  transition x.id (target_of request.decision) p.actor_id reason (some correlation)
  incident ←
      branch (high_risk request.decision)
        (do n ← create_incident env x request.decision p.actor_id reason correlation; pure (some n))
        (pure none)
  record_audit p.tenant_id p.actor_id "review.completed" "review_task" t.id correlation
  pure (incident, request.expected_version + 1)
