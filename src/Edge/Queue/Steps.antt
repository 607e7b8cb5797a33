-- ===== src/Edge/Queue/Steps.antt =====
-- The life of the table: every transaction that the gateway runs, in any order and over restarts.
use vision_qc.Prelude.{
  ℕ, String, Bool, ◌≡◌, ◌⊎◌, inl, inr, Member, Member-snoc_old, Option-cases, find_first,
  find_least,
}
use vision_qc.Edge.Rows.{uploaded, rejected, duplicate, Row}
use vision_qc.Edge.Inserts.{Capture, Refusal}
use vision_qc.Edge.Queue.{
  Queue, empty, has_fingerprint, is_primary, before_id, enqueue, record_rejection, recover_inflight,
  claim_due, mark_uploaded, mark_failed, retry,
}
use vision_qc.Edge.Queue.Invariant.{IsValid}
use vision_qc.Edge.Queue.Preserve.{
  InFlight, empty-IsValid, enqueue-IsValid, record_rejection-IsValid, recover_inflight-IsValid,
  claim_due-IsValid, mark_uploaded-IsValid, mark_failed-IsValid, retry-IsValid,
}

-- One transaction. The upload worker marks only the item that it has claimed.
pub data Step : Queue → Queue → Type 0 where
  arrive : (now : ℕ) (c : Capture) (q : Queue) → Step q (enqueue now c q).0
  refuse : (now : ℕ) (c : Refusal) (q : Queue) → Step q (record_rejection now c q).0
  restart : (now : ℕ) (q : Queue) → Step q (recover_inflight now q).0
  claim : (current at : ℕ) (q : Queue) → Step q (claim_due current at q).0
  succeed :
      (now i : ℕ) (inspection : String) (q : Queue)
      → InFlight i q
      → Step q (mark_uploaded now i inspection q).0
  fail :
      (now i : ℕ) (code error : String) (again : Bool) (delay : ℕ) (q : Queue)
      → InFlight i q
      → Step q (mark_failed now i code error again delay q).0
  try_again : (now i : ℕ) (q : Queue) → Step q (retry now i q).0

pub data Reach (q : Queue) : Queue → Type 0 where
  here : Reach q q
  next : {s t : Queue} → Reach q s → Step s t → Reach q t

pub Step-IsValid : {q q' : Queue} → Step q q' → IsValid q → IsValid q'
Step-IsValid (arrive now c q) v = enqueue-IsValid now c q v
Step-IsValid (refuse now c q) v = record_rejection-IsValid now c q v
Step-IsValid (restart now q) v = recover_inflight-IsValid now q v
Step-IsValid (claim current at q) v = claim_due-IsValid current at q v
Step-IsValid (succeed now i x q fly) v = mark_uploaded-IsValid now i x q fly v
Step-IsValid (fail now i code error again delay q fly) v =
    mark_failed-IsValid now i code error again delay q fly v
Step-IsValid (try_again now i q) v = retry-IsValid now i q v

pub Reach-IsValid_from : {q q' : Queue} → IsValid q → Reach q q' → IsValid q'
Reach-IsValid_from v here = v
Reach-IsValid_from v (next r s) = Step-IsValid s (Reach-IsValid_from v r)

pub Reach-IsValid : {q : Queue} → Reach empty q → IsValid q
Reach-IsValid r = Reach-IsValid_from empty-IsValid r

-- A row that the gateway is done with.
abbrev pub IsFinal : Row → Type 0
IsFinal r = (r.status ≡ uploaded) ⊎ (r.status ≡ rejected) ⊎ (r.status ≡ duplicate)

-- Inserts leave the rows that are there alone.
pub enqueue-Member :
    (now : ℕ) (c : Capture) (q : Queue) (r : Row)
    → Member r q.rows
    → Member r (enqueue now c q).0.rows
unfolding enqueue
enqueue-Member now c q r m =
    elim (Option-cases (find_first (has_fingerprint c.source_fingerprint) q.rows)) [
      | inr (old, e) ↦ rw (e, enqueue) m
      | inl e ↦
          elim (Option-cases
            (find_least before_id (is_primary c.tenant_id c.idempotency_key) q.rows)) [
              | inl n ↦ rw (e, n, enqueue) (Member-snoc_old r _ q.rows m)
              | inr (p, n) ↦ rw (e, n, enqueue) (Member-snoc_old r _ q.rows m)
            ]
    ]

pub record_rejection-Member :
    (now : ℕ) (c : Refusal) (q : Queue) (r : Row)
    → Member r q.rows
    → Member r (record_rejection now c q).0.rows
unfolding record_rejection
record_rejection-Member now c q r m =
    elim (Option-cases (find_first (has_fingerprint c.source_fingerprint) q.rows)) [
      | inr (old, e) ↦ rw (e, record_rejection) m
      | inl e ↦ rw (e, record_rejection) (Member-snoc_old r _ q.rows m)
    ]
