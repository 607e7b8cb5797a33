-- ===== src/Backend/Workflow/Locking.antt =====
-- Reviews are claimed and decided under a version: who wins, and who may.
use vision_qc.Prelude.{
  ℕ, String, some, Bool, true, List, [], ◌∷◌, ◌≡◌, refl, ◌==◌, find_first, update_where, count_if,
  is_some, Option-cases, Bool-cases, inl, inr, arith,
}
use vision_qc.Backend.Workflow.Tables.{Principal, ReviewTask, Db}
use vision_qc.Backend.Calls.{ok, err, conflict, pure, gets, or_raise, guard, ◌>>=◌, ◌>>◌}
use vision_qc.Backend.Workflow.Session.{modify, record_audit}
use vision_qc.Backend.Workflow.Reviews.{is_task, claimable, claim_by, claim_review}

count-claimed :
    (i version : ℕ) (tenant actor : String) (l : List ReviewTask)
    → count_if
        (claimable i tenant version)
        (update_where (claimable i tenant version) (claim_by actor) l)
      ≡ 0
count-claimed i version tenant actor [] = refl
count-claimed i version tenant actor (t ∷ l) =
    ground (arith, count-claimed i version tenant actor l)

-- The task under an id is still there after a claim.
task_kept :
    (i version : ℕ) (tenant actor : String) (l : List ReviewTask) (p : ReviewTask → Bool)
    → is_some (find_first (is_task i tenant) (update_where p (claim_by actor) l))
      ≡ is_some (find_first (is_task i tenant) l)
task_kept i version tenant actor [] p = refl
task_kept i version tenant actor (t ∷ l) p = elim (Bool-cases (p t)) [
  | inl e ↦ ground (arith, e, task_kept i version tenant actor l p)
  | inr e ↦ ground (arith, e, task_kept i version tenant actor l p)
]

claim_missed :
    (p : Principal) (i version : ℕ) (correlation : String) (db : Db)
    → count_if (claimable i p.tenant_id version) db.tasks ≡ 0
    → is_some (find_first (is_task i p.tenant_id) db.tasks) ≡ true
    → claim_review p i version correlation db
      ≡ err (conflict "review task version or assignment changed")
unfolding claim_review gets modify guard ◌>>=◌ ◌>>◌
claim_missed p i version correlation db h k = ground (
  arith,
  h,
  k,
  task_kept i version p.tenant_id p.actor_id db.tasks (claimable i p.tenant_id version),
)

claim_answers :
    (p : Principal) (i version : ℕ) (correlation : String) (db : Db) {t : ReviewTask} {db' : Db}
    → claim_review p i version correlation db ≡ ok (t, db')
    → (count_if (claimable i p.tenant_id version) db.tasks ≡ 1)
      × (db'.tasks ≡ update_where (claimable i p.tenant_id version) (claim_by p.actor_id) db.tasks)
      × (find_first (is_task i p.tenant_id) db'.tasks ≡ some t)
unfolding claim_review gets modify guard or_raise pure record_audit ◌>>=◌ ◌>>◌
claim_answers p i version correlation db {t} {db'} h =
    elim (Bool-cases (count_if (claimable i p.tenant_id version) db.tasks == 1)) [
      | inr e ↦ ground (arith, e, h)
      | inl e ↦
          elim (Option-cases (
            find_first (is_task i p.tenant_id)
              (update_where (claimable i p.tenant_id version) (claim_by p.actor_id) db.tasks))) [
                | inl n ↦ ground (arith, e, n, h)
                | inr (u, n) ↦ ground (arith, e, n, h)
              ]
    ]

-- The claim of a review task under a version is won once: after it answered, a claim under the same
-- version, by anyone of the tenant, conflicts.
pub claim_review_once :
    (p q : Principal) (i version : ℕ) (correlation again : String) (db : Db) {t : ReviewTask}
    {db' : Db}
    → q.tenant_id ≡ p.tenant_id
    → claim_review p i version correlation db ≡ ok (t, db')
    → claim_review q i version again db'
      ≡ err (conflict "review task version or assignment changed")
claim_review_once p q i version correlation again db {t} {db'} same h =
    let (one, tasks, found) = claim_answers p i version correlation db h in
    claim_missed q i version again db'
      (rw (same, tasks) (count-claimed i version p.tenant_id p.actor_id db.tasks))
      (rw (same, found) refl)
