-- ===== src/Edge/Queue/Preserve.antt =====
-- Every method of the queue keeps the invariant of the table.
use vision_qc.Prelude.{
  ℕ, ◌<◌, String, none, some, Bool, true, false, List, [], ◌∷◌, ◌≡◌, refl, sym, ◌≢◌, inl, inr, All,
  All-imp, All-member, Member, Pairwise, arith, Option-cases, find_first-none, find_least-some,
  find_least-none, eq_iff, eq_refl, sql_eq-some, find_first, find_least, if◌then◌else◌, ==→eq,
  update_where, All-of_Member, ap, ◌∙◌, ◌&&◌,
}
use vision_qc.Edge.Rows.{uploading, failed, duplicate, status_eq, Row}
use vision_qc.Edge.Inserts.{Capture, Refusal, queued_row, duplicate_row, rejected_row}
use vision_qc.Edge.Queue.{
  Queue, empty, has_id, has_fingerprint, is_primary, before_id, before_due, is_due, is_uploading,
  enqueue, record_rejection, recover_inflight, recovered, claim_due, claimed, mark_uploaded,
  finished, mark_failed, failed_row, retry, retried,
}
use vision_qc.Edge.Queue.Invariant.{IsRival, IsValid, Keeps, update-IsValid, insert-IsValid}

-- The row with the id, if there is one, is in the hands of the uploader.
abbrev pub InFlight : ℕ → Queue → Type 0
InFlight i q = (r : Row) → Member r q.rows → r.id ≡ i → r.status ≡ uploading

pub empty-IsValid : IsValid empty
unfolding empty
empty-IsValid = record {
  ids_below = tt;
  ascending = tt;
  sources_differ = tt;
  no_rivals = tt;
  sound = tt;
  linked = tt;
}

fresh_source :
    (f : String) (rows : List Row)
    → find_first (has_fingerprint f) rows ≡ none
    → All (λ a. a.source_fingerprint ≢ f) rows
fresh_source f rows h =
    All-imp _ _ rows (λ a k e. ground (arith, k, (eq_iff a.source_fingerprint f).1 e))
      (find_first-none (has_fingerprint f) rows h)

pub primary_facts :
    (t k : String) (a : Row)
    → is_primary t k a ≡ true
    → (a.tenant_id ≡ t) × (a.idempotency_key ≡ some k) × (a.status ≢ duplicate)
primary_facts t k a h = ground (arith, eq_iff a.tenant_id t, sql_eq-some a.idempotency_key k)

-- With no primary row, a live row for the same tenant and key has no rival.
no_primary :
    (c : Capture) (a new : Row)
    → new.tenant_id ≡ c.tenant_id
    → new.idempotency_key ≡ some c.idempotency_key
    → is_primary c.tenant_id c.idempotency_key a ≡ false
    → ¬ IsRival a new
no_primary c a new et ek h (k, la, _, t, ka, kn) =
    ground (arith, eq_iff a.tenant_id c.tenant_id, eq_refl c.idempotency_key, la)

keep_or : (b : Bool) (r s : Row) → Keeps r r → (b ≡ true → Keeps r s) → Keeps r (if b then s else r)
keep_or true r s h k = k refl
keep_or false r s h k = h

Keeps-refl : (r : Row) → Keeps r r
Keeps-refl r = ground arith

-- An UPDATE with a WHERE clause keeps the invariant if it keeps each row that it takes.
update_where-IsValid :
    (p : Row → Bool) (f : Row → Row) (q : Queue)
    → ((r : Row) → Member r q.rows → p r ≡ true → Keeps r (f r))
    → IsValid q
    → IsValid (record q { rows = update_where p f q.rows })
update_where-IsValid p f q keep v =
    update-IsValid _ q (λ r m. keep_or (p r) r (f r) (Keeps-refl r) (keep r m)) v

pub enqueue-IsValid : (now : ℕ) (c : Capture) (q : Queue) → IsValid q → IsValid (enqueue now c q).0
unfolding enqueue
enqueue-IsValid now c q v =
    elim (Option-cases (find_first (has_fingerprint c.source_fingerprint) q.rows)) [
      | inr (old, e) ↦ rw (e, enqueue) v
      | inl e ↦
          let new = fresh_source c.source_fingerprint q.rows e in
          elim (Option-cases
            (find_least before_id (is_primary c.tenant_id c.idempotency_key) q.rows)) [
              | inl n ↦
                  rw (e, n, enqueue)
                    (insert-IsValid q (queued_row q.next_id now c) refl new
                      (All-imp _ _ q.rows
                        (λ a k. no_primary c a (queued_row q.next_id now c) refl refl k)
                        (find_least-none _ _ q.rows n))
                      (ground arith) (λ d. cc) v)
              | inr (p, n) ↦
                  rw (e, n, enqueue)
                    (let (m, hit) = find_least-some before_id _ q.rows n in
                      let (et, ek, live) = primary_facts c.tenant_id c.idempotency_key p hit in
                      insert-IsValid q (duplicate_row q.next_id now c p.id) refl new
                        (All-of_Member _ q.rows (λ a _ rival. rival.2 refl)) (ground arith)
                        (λ _. (p, m, refl, live, et, ek)) v)
            ]
    ]

pub record_rejection-IsValid :
    (now : ℕ) (c : Refusal) (q : Queue) → IsValid q → IsValid (record_rejection now c q).0
unfolding record_rejection
record_rejection-IsValid now c q v =
    elim (Option-cases (find_first (has_fingerprint c.source_fingerprint) q.rows)) [
      | inr (old, e) ↦ rw (e, record_rejection) v
      | inl e ↦
          rw (e, record_rejection)
            (insert-IsValid q (rejected_row q.next_id now c) refl
              (fresh_source c.source_fingerprint q.rows e)
              (All-of_Member _ q.rows (λ a _ rival. cc (rival.5))) (ground arith) (λ d. cc) v)
    ]

pub recover_inflight-IsValid :
    (now : ℕ) (q : Queue) → IsValid q → IsValid (recover_inflight now q).0
unfolding recover_inflight
recover_inflight-IsValid now q v =
    update_where-IsValid is_uploading (recovered now) q (λ r m h. ground arith) v

claimed-Keeps : (at current : ℕ) (r : Row) → is_due current r ≡ true → Keeps r (claimed at r)
claimed-Keeps at current r h = ground arith

-- Ids differ, so that the row with a member's id is the member.
pub same_id :
    (rows : List Row) (a b : Row)
    → Pairwise (λ x y. x.id < y.id) rows
    → Member a rows
    → Member b rows
    → a.id ≡ b.id
    → a ≡ b
same_id [] a b h ma mb e = absurd ma
same_id (x ∷ xs) a b h (inl ea) (inl eb) e = ea ∙ sym eb
same_id (x ∷ xs) a b h (inl ea) (inr mb) e =
    absurd (omega (arith, All-member _ b xs h.0 mb, ap (λ (r : Row). r.id) ea))
same_id (x ∷ xs) a b h (inr ma) (inl eb) e =
    absurd (omega (arith, All-member _ a xs h.0 ma, ap (λ (r : Row). r.id) eb))
same_id (x ∷ xs) a b h (inr ma) (inr mb) e = same_id xs a b h.1 ma mb e

pub claim_due-IsValid :
    (current at : ℕ) (q : Queue) → IsValid q → IsValid (claim_due current at q).0
unfolding claim_due
claim_due-IsValid current at q v =
    elim (Option-cases (find_least before_due (is_due current) q.rows)) [
      | inl n ↦ rw (n, claim_due) v
      | inr (r, n) ↦
          rw (n, claim_due)
            (let (mr, due) = find_least-some before_due (is_due current) q.rows n in
              update_where-IsValid (has_id r.id) (claimed at) q
                (λ a m h.
                  let same : a ≡ r = same_id q.rows a r v.ascending m mr (==→eq a.id r.id h) in
                  claimed-Keeps at current a (rw same due))
                v)
    ]

pub mark_uploaded-IsValid :
    (now i : ℕ) (inspection : String) (q : Queue)
    → InFlight i q
    → IsValid q
    → IsValid (mark_uploaded now i inspection q).0
unfolding mark_uploaded
mark_uploaded-IsValid now i inspection q fly v =
    update_where-IsValid (has_id i) (finished now inspection) q
      (λ r m h. ground (arith, fly r m (==→eq r.id i h))) v

pub mark_failed-IsValid :
    (now i : ℕ) (code error : String) (again : Bool) (delay : ℕ) (q : Queue)
    → InFlight i q
    → IsValid q
    → IsValid (mark_failed now i code error again delay q).0
unfolding mark_failed
mark_failed-IsValid now i code error again delay q fly v =
    update_where-IsValid (has_id i) (failed_row now code error again delay) q
      (λ r m h. ground (arith, fly r m (==→eq r.id i h))) v

pub retry-IsValid : (now i : ℕ) (q : Queue) → IsValid q → IsValid (retry now i q).0
unfolding retry
retry-IsValid now i q v =
    update_where-IsValid (λ r. has_id i r && status_eq r.status failed) (retried now) q
      (λ r m h. ground arith) v
