-- ===== src/Backend/Workflow/Safely.antt =====
-- The fail-safe branch of `process_inference`: what becomes of an inspection whose model call fails.
use vision_qc.Prelude.{
  ℕ, String, Option, none, some, true, [], ◌∷◌, ◌++◌, ◌≡◌, refl, sym, ◌∙◌, subst, ap, find_first,
  update_where, Option-cases, inl, inr, eq_iff, ==→eq, arith, find_first-some,
}
use vision_qc.Backend.Domain.{
  InspectionStatus, validated, inferencing, inference_failed, review_required, transitions, text_of,
  state_eq, assert_inspection_transition,
}
use vision_qc.Backend.Domain.Trails.{IsMove, assert_inspection_transition_lem}
use vision_qc.Backend.Workflow.Tables.{Inspection, with_status, ReviewTask, OutboxEvent, Rest, Db}
use vision_qc.Backend.Calls.{ok, pure, branch, on_option, bind_ok, gets_lem, ◌>>=◌, ◌>>◌}
use vision_qc.Backend.Workflow.Session.{
  Action, modify, new_id, record_audit, transition, note_failure, is_inspection, moved_db, or_text,
}
use vision_qc.Backend.Workflow.Environment.{Env, raised}
use vision_qc.Backend.Workflow.Inference.{
  process_event, has_event_id, done_event, mark_inference_processed, is_task_of, new_task,
  ensure_review_task, fail_safe, on_inferred, is_wanted, process_inference,
}
use vision_qc.Backend.Workflow.Tracked.{find_first-same, find_first-append}
use vision_qc.Backend.Workflow.History.{Has, Has-noted}

-- An action that answers wherever the first predicate holds, and then makes the second one hold.
pub data Wins {A : Type 0} (P : Db → Type 0) (m : Action A) (Q : Db → Type 0) : Type 0 where
  wins : ((db : Db) → P db → (a : A) × (db' : Db) × (m db ≡ ok (a, db')) × Q db') → Wins P m Q

pub Wins-bind :
    {A B : Type 0} {P R Q : Db → Type 0} {m : Action A} {f : A → Action B}
    → Wins P m R
    → ((a : A) → Wins R (f a) Q)
    → Wins P (m >>= f) Q
Wins-bind {B = B} {R = R} {Q} {m} {f} (wins k) l = wins λ db p.
    let (a, db', e, r) = k db p in
    let (b, db'', h, q) = run a db' (l a) r in (b, db'', bind_ok m db f e ∙ h, q)
  where
    run :
        (a : _) (db : Db)
        → Wins R (f a) Q
        → R db
        → (b : B) × (db' : Db) × (f a db ≡ ok (b, db')) × Q db'
    run a db (wins g) r = g db r

pub Wins-then :
    {A B : Type 0} {P R Q : Db → Type 0} {m : Action A} {n : Action B}
    → Wins P m R
    → Wins R n Q
    → Wins P (m >> n) Q
unfolding ◌>>◌
Wins-then k l = Wins-bind k (λ _. l)

transition_ok :
    (i : ℕ) (target : InspectionStatus) (actor reason : String) (c : Option String) (db : Db)
    {x : Inspection}
    → find_first (is_inspection i) db.inspections ≡ some x
    → assert_inspection_transition (text_of x.status) (text_of target) ≡ none
    → let c' = or_text c x.correlation_id in
      transition i target actor reason c db
      ≡ record_audit x.tenant_id actor "inspection.state_changed" "inspection" x.id c'
          (moved_db x target actor reason c' db)
unfolding transition
transition_ok i target actor reason c db f legal = rw (transition, f, legal)

pub transition-Wins :
    (i : ℕ) {s : InspectionStatus} (target : InspectionStatus) (actor reason : String)
    (c : Option String)
    → IsMove s target
    → Wins (Has i s) (transition i target actor reason c) (Has i target)
unfolding record_audit modify
transition-Wins i {s} target actor reason c m = wins λ db (x, f, e).
    let sx : x.id ≡ i = ==→eq _ _ (find_first-some (is_inspection i) db.inspections f).1 in
    let legal : assert_inspection_transition (text_of x.status) (text_of target) ≡ none =
      (assert_inspection_transition_lem.0 x.status target).1
        (subst (λ u. IsMove u target) (sym e) m) in
    (
      tt,
      _,
      transition_ok i target actor reason c db {x = x} f legal,
      (
        with_status target x,
        subst
            (λ j.
              find_first (is_inspection i)
                (update_where (is_inspection j) (with_status target) db.inspections)
              ≡ some (with_status target x))
            (sym sx) (find_first-same i (with_status target) db.inspections {x = x} (λ y. refl) f),
        refl,
      ),
    )

note_failure-Wins :
    (i : ℕ) (s : InspectionStatus) (reason : String)
    → Wins (Has i s) (note_failure i reason) (Has i s)
unfolding note_failure
note_failure-Wins i s reason = wins λ db h. (tt, _, refl, Has-noted i i s reason db h)

-- The inspection has the state, and a task for its review.
abbrev pub IsInReview : Inspection → InspectionStatus → Db → Type 0
IsInReview x s db = Has x.id s db × (t : ReviewTask) × (find_first (is_task_of x) db.tasks ≡ some t)

-- The state, and no task yet.
abbrev IsUntasked : Inspection → InspectionStatus → Db → Type 0
IsUntasked x s db = Has x.id s db × (find_first (is_task_of x) db.tasks ≡ none)

new_id-Wins :
    (x : Inspection) (s : InspectionStatus) → Wins (IsUntasked x s) new_id (IsUntasked x s)
unfolding new_id
new_id-Wins x s = wins λ db h. (db.next_id, _, refl, h)

add_task-Wins :
    (x : Inspection) (s : InspectionStatus) (i : ℕ)
    → Wins
        (IsUntasked x s)
        (modify (λ r. record r { tasks = r.tasks ++ new_task i x ∷ [] }))
        (IsInReview x s)
unfolding modify
add_task-Wins x s i = wins λ db (h, n).
    let own : is_task_of x (new_task i x) ≡ true =
      ground (arith, (eq_iff x.tenant_id x.tenant_id).1 refl) in
    (
      tt,
      _,
      refl,
      (h, new_task i x, rw (find_first-append (is_task_of x) db.tasks (new_task i x), n, own) refl),
    )

record_audit-Wins :
    (x : Inspection) (s : InspectionStatus) (tenant actor action target_type : String) (target : ℕ)
    (correlation : String)
    → Wins
        (IsInReview x s)
        (record_audit tenant actor action target_type target correlation)
        (IsInReview x s)
unfolding record_audit modify
record_audit-Wins x s tenant actor action target_type target correlation =
    wins λ db h. (tt, _, refl, h)

pub ensure_review_task-Wins :
    (x : Inspection) (s : InspectionStatus)
    → Wins (Has x.id s) (ensure_review_task x) (IsInReview x s)
unfolding ensure_review_task on_option pure
ensure_review_task-Wins x s = wins λ db h.
    elim (Option-cases (find_first (is_task_of x) db.tasks)) [
      | inr (t, n) ↦ (tt, db, bind_ok _ db _ (gets_lem _ db) ∙ rw n refl, (h, t, n))
      | inl n ↦
          let (a, db', e, q) = run created db (h, n) in
          (a, db', bind_ok _ db _ (gets_lem _ db) ∙ rw n e, q)
    ]
  where
    run :
        {m : Action (Unit {0})}
        → Wins (IsUntasked x s) m (IsInReview x s)
        → (db : Db) → IsUntasked x s db
        → (a : Unit {0}) × (db' : Db) × (m db ≡ ok (a, db')) × IsInReview x s db'
    run (wins k) db h = k db h

    created :
        Wins
          (IsUntasked x s)
          (new_id >>= λ i.
            modify (λ r. record r { tasks = r.tasks ++ new_task i x ∷ [] })
            >> record_audit x.tenant_id "system:policy" "review.required" "review_task" i
                x.correlation_id)
          (IsInReview x s)
    created =
        Wins-bind (new_id-Wins x s)
          λ i. Wins-then (add_task-Wins x s i) (record_audit-Wins x s _ _ _ _ i _)

pub mark_inference_processed-Wins :
    (x : Inspection) (s : InspectionStatus) (i : ℕ) (tenant : String)
    → Wins (IsInReview x s) (mark_inference_processed i tenant) (IsInReview x s)
unfolding mark_inference_processed process_event modify
mark_inference_processed-Wins x s i tenant = wins λ db (h, t, n). (tt, _, refl, (h, t, kept db _ n))
  where
    kept :
        {t : ReviewTask} (db : Db) (o : Option OutboxEvent)
        → find_first (is_task_of x) db.tasks ≡ some t
        → find_first (is_task_of x) (
            (elim o as (λ _. Rest) [
              | none ↦ db.rest
              | some e ↦ record (db.rest) {
                outbox = update_where (has_event_id e.id) done_event db.outbox;
              }
            ]).tasks)
          ≡ some t
    kept db none n = n
    kept db (some e) n = n

failing :
    (x : Inspection) (name : String)
    → Wins
        (Has x.id validated)
        (transition x.id inferencing "system:model-worker" "model invocation started" none
          >> fail_safe x name)
        (IsInReview x review_required)
unfolding fail_safe transitions
failing x name = Wins-then (transition-Wins x.id {s = validated} inferencing _ _ none (inl refl)) (
    Wins-then (note_failure-Wins x.id inferencing _) (
      Wins-then (transition-Wins x.id {s = inferencing} inference_failed _ _ none (inr (inl refl)))
        (Wins-then (transition-Wins x.id {s = inference_failed} review_required _ _ none (inl refl))
          (Wins-then (ensure_review_task-Wins x review_required)
            (mark_inference_processed-Wins x review_required x.id x.tenant_id)))))

-- Where the model fails on a validated inspection, whatever it raises, `process_inference` answers, and
-- leaves the inspection to be reviewed by a person, with a review task.
pub model_failure_reviewed :
    (env : Env) (i : ℕ) (tenant : Option String) (name : String) (db : Db) (x : Inspection)
    → find_first (is_wanted i tenant) db.inspections ≡ some x
    → find_first (is_inspection x.id) db.inspections ≡ some x
    → x.status ≡ validated
    → env.infer x ≡ raised name
    → (db' : Db) × (process_inference env i tenant db ≡ ok (tt, db'))
      × IsInReview x review_required db'
unfolding process_inference on_option branch on_inferred
model_failure_reviewed env i tenant name db x wanted found s fails =
    let is_validated : state_eq x.status validated ≡ true = ap (λ u. state_eq u validated) s in
    let (a, db', e, q) = run (failing x name) db (x, found, s) in
    (db', bind_ok _ db _ (gets_lem _ db) ∙ rw (wanted, is_validated, fails) e, q)
  where
    run :
        {m : Action (Unit {0})}
        → Wins (Has x.id validated) m (IsInReview x review_required)
        → (db : Db) → Has x.id validated db
        → (a : Unit {0}) × (db' : Db) × (m db ≡ ok (a, db')) × IsInReview x review_required db'
    run (wins k) db h = k db h
