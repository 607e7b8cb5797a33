-- ===== src/Edge/Queue/Ingest.antt =====
-- What `enqueue` makes of a capture: of one seen before, of one whose content waits already, of a
-- new one.
use vision_qc.Prelude.{
  ℕ, ◌+◌, ◌≤◌, none, some, true, false, [], ◌∷◌, ◌≡◌, refl, ◌≢◌, ◌⊎◌, inl, inr, All, All-imp,
  Member, Option-cases, find_first, find_first-snoc, find_first-All, find_least, find_least-some,
  find_least-none, find_least-least, IsOrder, length, length-append, eq_iff, eq_refl, arith,
}
use vision_qc.Edge.Rows.{queued, duplicate, Row, item_of_row}
use vision_qc.Edge.Inserts.{Capture, queued_row, duplicate_row}
use vision_qc.Edge.Queue.{Queue, has_fingerprint, is_primary, before_id, enqueue, find_source}
use vision_qc.Edge.Queue.Preserve.{primary_facts}

enqueue_old :
    (now : ℕ) (c : Capture) (q : Queue) {r : Row}
    → find_first (has_fingerprint c.source_fingerprint) q.rows ≡ some r
    → enqueue now c q ≡ (q, item_of_row r)
unfolding enqueue
enqueue_old now c q e = rw (e, enqueue)

-- The row that the answer was read from is the one that is found by the fingerprint.
enqueue_found :
    (now : ℕ) (c : Capture) (q : Queue)
    → (r : Row) × (find_first (has_fingerprint c.source_fingerprint) (enqueue now c q).0.rows
        ≡ some r)
      × ((enqueue now c q).1 ≡ item_of_row r)
unfolding enqueue
enqueue_found now c q =
    elim (Option-cases (find_first (has_fingerprint c.source_fingerprint) q.rows)) [
      | inr (old, e) ↦ (old, rw (e, enqueue) e, rw (e, enqueue))
      | inl e ↦
          elim (Option-cases
            (find_least before_id (is_primary c.tenant_id c.idempotency_key) q.rows)) [
              | inl n ↦
                  let new = queued_row q.next_id now c in
                  (
                    new,
                    rw (e, n, enqueue)
                        (find_first-snoc (has_fingerprint c.source_fingerprint) new q.rows e
                          (eq_refl _)),
                    rw (e, n, enqueue),
                  )
              | inr (p, n) ↦
                  let new = duplicate_row q.next_id now c p.id in
                  (
                    new,
                    rw (e, n, enqueue)
                        (find_first-snoc (has_fingerprint c.source_fingerprint) new q.rows e
                          (eq_refl _)),
                    rw (e, n, enqueue),
                  )
            ]
    ]

-- A source observation that was enqueued is recognised: `find_source`, which a scan asks first,
-- finds its item, and a second `enqueue` of the observation, whatever else it is called with,
-- changes nothing and answers that item.
pub enqueue_again :
    (now now' : ℕ) (c c' : Capture) (q : Queue)
    → c'.source_fingerprint ≡ c.source_fingerprint
    → let (q1, item) = enqueue now c q in
      (find_source c.source_fingerprint q1 ≡ some item) × (enqueue now' c' q1 ≡ (q1, item))
unfolding find_source
enqueue_again now now' c c' q same =
    let (r, found, read) = enqueue_found now c q in
    (rw (found, read), rw read (enqueue_old now' c' (enqueue now c q).0 (rw same found)))

-- A live row for the tenant and the idempotency key of the capture.
abbrev pub IsPrimary : Capture → Row → Type 0
IsPrimary c r =
    (r.tenant_id ≡ c.tenant_id)
    × (r.idempotency_key ≡ some c.idempotency_key)
    × (r.status ≢ duplicate)

primary_of :
    (c : Capture) (r : Row) → IsPrimary c r → is_primary c.tenant_id c.idempotency_key r ≡ true
primary_of c r h = ground (arith, eq_iff r.tenant_id c.tenant_id, eq_refl c.idempotency_key, h.2)

pub before_id-IsOrder : IsOrder before_id
before_id-IsOrder = record {
  irrefl = λ a. ground arith;
  asym = λ a b h. ground arith;
  trans = λ a b c h k. ground arith;
}

-- A capture from a source that has no row gets one new row, under the next id. If a live row has its
-- tenant and idempotency key, the new row is a duplicate that is never tried and names the first
-- such row; if none has, the new row is queued and may be tried at once.
pub enqueue_new :
    (now : ℕ) (c : Capture) (q : Queue)
    → All (λ r. r.source_fingerprint ≢ c.source_fingerprint) q.rows
    → let (q1, item) = enqueue now c q in
      (length q1.rows ≡ length q.rows + 1)
      × (item.id ≡ q.next_id)
      × (((p : Row) × Member p q.rows
            × IsPrimary c p
            × All (λ b. IsPrimary c b → p.id ≤ b.id) q.rows
            × (item.status ≡ duplicate)
            × (item.retryable ≡ false)
            × (item.dedup_of_id ≡ some p.id))
          ⊎ (All (λ b. ¬ IsPrimary c b) q.rows
              × (item.status ≡ queued)
              × (item.retryable ≡ true)
              × (item.next_attempt_at ≡ some now)))
unfolding enqueue item_of_row
enqueue_new now c q new =
    elim (Option-cases (find_least before_id (is_primary c.tenant_id c.idempotency_key) q.rows)) [
      | inl n ↦
          rw (e, n, enqueue)
            (
              omega (arith, length-append {0} q.rows (queued_row q.next_id now c ∷ [])),
              refl,
              inr (
                All-imp _ _ q.rows (λ b h p. ground (arith, h, primary_of c b p))
                    (find_least-none before_id _ q.rows n),
                refl,
                refl,
                refl,
              ),
            )
      | inr (p, n) ↦
          rw (e, n, enqueue)
            (
              omega (arith, length-append {0} q.rows (duplicate_row q.next_id now c p.id ∷ [])),
              refl,
              let (m, hit) = find_least-some before_id _ q.rows n in
                  inl (
                    p,
                    m,
                    primary_facts c.tenant_id c.idempotency_key p hit,
                    All-imp _ _ q.rows (λ b h k. ground (arith, h (primary_of c b k)))
                        (find_least-least before_id _ before_id-IsOrder q.rows n),
                    refl,
                    refl,
                    refl,
                  ),
            )
    ]
  where
    e : find_first (has_fingerprint c.source_fingerprint) q.rows ≡ none
    e = find_first-All _ q.rows (All-imp _ _ q.rows (λ r k. different r k) new)
      where
        different :
            (r : Row)
            → r.source_fingerprint ≢ c.source_fingerprint
            → has_fingerprint c.source_fingerprint r ≡ false
        different r k = ground (arith, k, eq_iff r.source_fingerprint c.source_fingerprint)
