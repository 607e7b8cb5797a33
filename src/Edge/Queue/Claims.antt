-- ===== src/Edge/Queue/Claims.antt =====
-- What a claim takes, what comes of a claimed item, and recovery after a restart.
use vision_qc.Prelude.{
  ℕ, ◌≤◌, ◌<◌, Option, none, some, true, false, List, [], ◌∷◌, ◌≡◌, refl, sym, subst, ◌↔◌, ◌≢◌, ap,
  ◌∙◌, ◌⊎◌, inl, inr, All, All-imp, All-map, All-member, All-of_Member, Member, Pairwise,
  Option-cases, find_first, find_least, find_least-some, find_least-none, find_least-least, IsOrder,
  update_where, if◌then◌else◌, Member-update_where_hit, arith,
}
use vision_qc.Edge.Rows.{queued, uploading, failed, Row, Item, item_of_row}
use vision_qc.Edge.Queue.{
  Queue, has_id, before_due, is_due, is_ripe, is_uploading, recover_inflight, recovered, claim_due,
  claimed,
}
use vision_qc.Edge.Queue.Invariant.{IsValid}
use vision_qc.Edge.Queue.Preserve.{InFlight, same_id, claim_due-IsValid}

pub before_due-IsOrder : IsOrder before_due
before_due-IsOrder = record {
  irrefl = λ a. ground arith;
  asym = λ a b h. ground arith;
  trans = λ a b c h k. ground arith;
}

-- An UPDATE that keeps ids, and the SELECT by id after it: the row is found as it was written.
pub find-update_where :
    (f : Row → Row) (rows : List Row) (r : Row)
    → ((a : Row) → (f a).id ≡ a.id)
    → Pairwise (λ a b. a.id < b.id) rows
    → Member r rows
    → find_first (has_id r.id) (update_where (has_id r.id) f rows) ≡ some (f r)
find-update_where f [] r keep h m = absurd m
find-update_where f (x ∷ xs) r keep h (inl e) =
    subst
      (λ (a : Row). find_first (has_id a.id) (update_where (has_id a.id) f (x ∷ xs)) ≡ some (f a))
      (sym e) (ground (arith, keep x))
find-update_where f (x ∷ xs) r keep h (inr m) =
    ground (arith, keep x, All-member _ r xs h.0 m, find-update_where f xs r keep h.1 m)

-- The row may be taken up at `now`: it is to be tried (again), and its time has come.
abbrev pub IsDue : ℕ → Row → Type 0
IsDue now r =
    (r.retryable ≡ true)
    × ((r.status ≡ queued) ⊎ (r.status ≡ failed))
    × ((t : ℕ) → r.next_attempt_at ≡ some t → t ≤ now)

is_ripe_iff : (now : ℕ) (o : Option ℕ) → (is_ripe now o ≡ true) ↔ ((t : ℕ) → o ≡ some t → t ≤ now)
is_ripe_iff now none = (λ _ t e. absurd (cc e), λ _. refl)
is_ripe_iff now (some s) = (λ h t e. ground (arith, e), λ h. ground (arith, h s refl))

pub is_due_iff : (now : ℕ) (r : Row) → (is_due now r ≡ true) ↔ IsDue now r
is_due_iff now r = (
  λ h. (ground arith, ground arith, (is_ripe_iff now r.next_attempt_at).0 (ground arith)),
  λ h. ground (arith, (is_ripe_iff now r.next_attempt_at).1 h.2),
)

-- `a` was seen no later than `b`, ids breaking ties.
abbrev pub NotLater : Row → Row → Type 0
NotLater a b = (a.created_at < b.created_at) ⊎ ((a.created_at ≡ b.created_at) × (a.id ≤ b.id))

not_later : (a b : Row) → before_due b a ≡ false → NotLater a b
not_later a b h = ground arith

-- A claim on a valid table: either no row is due, and the table stays as it is with no item handed
-- out; or a due row that was seen no later than any other due row is taken. That row alone changes:
-- it is in flight with one more attempt, and the item handed out is read from it.
pub claim_due_lem :
    (current at : ℕ) (q : Queue)
    → IsValid q
    → ((claim_due current at q ≡ (q, none)) × All (λ r. ¬ IsDue current r) q.rows)
      ⊎ ((r : Row) × Member r q.rows
          × IsDue current r
          × All (λ b. IsDue current b → NotLater r b) q.rows
          × (claim_due current at q ≡ (
            record q { rows = update_where (has_id r.id) (claimed at) q.rows },
            some (item_of_row (claimed at r)),
          )))
unfolding claim_due
claim_due_lem current at q v = elim (Option-cases (find_least before_due (is_due current) q.rows)) [
  | inl n ↦ inl (
    rw (n, claim_due),
    All-imp _ _ q.rows (λ r e d. ground (arith, e, (is_due_iff current r).1 d))
        (find_least-none before_due (is_due current) q.rows n),
  )
  | inr (r, n) ↦
      let (m, due) = find_least-some before_due (is_due current) q.rows n in
      inr (
        r,
        m,
        (is_due_iff current r).0 due,
        All-imp _ _ q.rows (λ b h d. not_later r b (h ((is_due_iff current b).1 d)))
            (find_least-least before_due (is_due current) before_due-IsOrder q.rows n),
        rw (n, claim_due, find-update_where (claimed at) q.rows r (λ a. refl) v.ascending m),
      )
]

pub claimed_id :
    (current at : ℕ) (q : Queue) {a : Item}
    → IsValid q
    → (claim_due current at q).1 ≡ some a
    → (r : Row) × Member (claimed at r) (claim_due current at q).0.rows × (a.id ≡ r.id)
unfolding item_of_row
claimed_id current at q v e = elim (claim_due_lem current at q v) [
  | inl (n, _) ↦ absurd (cc (ap (λ (p : Queue × Option Item). p.1) n))
  | inr (r, m, d, least, eq) ↦ (
    r,
    subst (λ (p : Queue × Option Item). Member (claimed at r) p.0.rows) (sym eq)
        (Member-update_where_hit (has_id r.id) (claimed at) r q.rows (ground arith) m),
    ground (arith, e, ap (λ (p : Queue × Option Item). p.1) eq),
  )
]

-- An item that a claim hands out is in flight.
pub claim_due-InFlight :
    (current at : ℕ) (q : Queue) {a : Item}
    → IsValid q
    → (claim_due current at q).1 ≡ some a
    → InFlight a.id (claim_due current at q).0
claim_due-InFlight current at q v e s m same =
    let (r, k, ia) = claimed_id current at q v e in
    ap (λ (x : Row). x.status)
      (same_id (claim_due current at q).0.rows s (claimed at r)
        (claim_due-IsValid current at q v).ascending m k (same ∙ ia))

-- Recovery after a restart leaves no item in flight; an item that was in flight is due at once, and
-- is found with its identity, its spool file and its count of attempts.
pub recover_inflight_lem :
    (now : ℕ) (q : Queue)
    → All (λ r. r.status ≢ uploading) (recover_inflight now q).0.rows
      × ((r : Row)
          → Member r q.rows
          → r.status ≡ uploading
          → (s : Row) × Member s (recover_inflight now q).0.rows
            × IsDue now s
            × (s.id ≡ r.id)
            × (s.spool_path ≡ r.spool_path)
            × (s.idempotency_key ≡ r.idempotency_key)
            × (s.attempts ≡ r.attempts))
unfolding recover_inflight
recover_inflight_lem now q = (
  All-map (λ r. Unit {0}) _ (λ r. if is_uploading r then recovered now r else r) q.rows
      (λ r _ e. ground (arith, e)) (All-of_Member _ q.rows (λ r m. tt)),
  λ r m up. (
    recovered now r,
    Member-update_where_hit is_uploading (recovered now) r q.rows (ground arith) m,
    (refl, inr refl, λ t e. ground (arith, e)),
    refl,
    refl,
    refl,
    refl,
  ),
)
