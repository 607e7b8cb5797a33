-- ===== src/Edge/Queue.antt =====
-- `QueueStore` of edge-gateway/src/edge_gateway/queue.py. Each method is one SQLite transaction, a
-- function from the table to the table and its answer. The clock readings are arguments.
pub mod Invariant
pub mod Preserve
pub mod Steps
pub mod Claims
pub mod Counts
pub mod Ingest
pub mod Reports
mod Tests
use mathlib.Core.Option
use vision_qc.Prelude.{
  ℕ, zero, suc, ◌+◌, min, max, String, Option, none, some, Bool, true, false, not, ◌&&◌, ◌||◌, List,
  [], ◌∷◌, ◌++◌, map, ltb, leb, ◌==◌, if◌then◌else◌, str_eq, sql_eq, truthy, count_if, keep_if,
  take, find_first, find_least, update_where, sort_by, clip,
}
use vision_qc.Edge.Inserts.{Capture, Refusal, queued_row, duplicate_row, rejected_row}
use vision_qc.Edge.Rows.{
  Status, queued, uploading, failed, uploaded, rejected, duplicate, status_eq, Row, Item,
  item_of_row,
}

-- The table and its AUTOINCREMENT counter, the next id to be given.
pub record Queue : Type 0 where
  pub rows : List Row
  pub next_id : ℕ

unfoldable pub empty : Queue
empty = record { rows = []; next_id = 1 }

abbrev pub has_id : ℕ → Row → Bool
has_id i r = r.id == i

abbrev pub has_fingerprint : String → Row → Bool
has_fingerprint f r = str_eq r.source_fingerprint f

-- `tenant_id = ? AND idempotency_key = ? AND status != 'DUPLICATE'`
abbrev pub is_primary : String → String → Row → Bool
is_primary tenant key r =
    str_eq r.tenant_id tenant && sql_eq r.idempotency_key key && not (status_eq r.status duplicate)

-- `ORDER BY id`
abbrev pub before_id : Row → Row → Bool
before_id a b = ltb a.id b.id

-- `ORDER BY created_at, id`
abbrev pub before_due : Row → Row → Bool
before_due a b = ltb a.created_at b.created_at || a.created_at == b.created_at && ltb a.id b.id

-- `ORDER BY updated_at DESC, id DESC`
abbrev pub before_recent : Row → Row → Bool
before_recent a b = ltb b.updated_at a.updated_at || a.updated_at == b.updated_at && ltb b.id a.id

pub get : ℕ → Queue → Option Item
get i q = Option.map item_of_row (find_first (has_id i) q.rows)

unfoldable pub find_source : String → Queue → Option Item
find_source f q = Option.map item_of_row (find_first (has_fingerprint f) q.rows)

-- INSERT, and the SELECT by `lastrowid` that follows it.
abbrev pub insert_row : Row → Queue → Queue × Item
insert_row r q = (record { rows = q.rows ++ r ∷ []; next_id = suc q.next_id }, item_of_row r)

unfoldable pub enqueue : ℕ → Capture → Queue → Queue × Item
enqueue now c q = elim (find_first (has_fingerprint c.source_fingerprint) q.rows) [
  | some existing ↦ (q, item_of_row existing)
  | none ↦ elim (find_least before_id (is_primary c.tenant_id c.idempotency_key) q.rows) [
    | some primary ↦ insert_row (duplicate_row q.next_id now c primary.id) q
    | none ↦ insert_row (queued_row q.next_id now c) q
  ]
]

pub record_rejection : ℕ → Refusal → Queue → Queue × Item
record_rejection now c q = elim (find_first (has_fingerprint c.source_fingerprint) q.rows) [
  | some existing ↦ (q, item_of_row existing)
  | none ↦ insert_row (rejected_row q.next_id now c) q
]

abbrev pub is_uploading : Row → Bool
is_uploading r = status_eq r.status uploading

abbrev pub recovered : ℕ → Row → Row
recovered now r = record r {
  status = failed;
  retryable = true;
  next_attempt_at = some now;
  error_code = some "PROCESS_RESTARTED";
  last_error = some "进程在上传中重启，已恢复为待重试状态。";
  updated_at = now;
}

-- The answer is the count of the rows that were in flight.
unfoldable pub recover_inflight : ℕ → Queue → Queue × ℕ
recover_inflight now q = (
  record q { rows = update_where is_uploading (recovered now) q.rows },
  count_if is_uploading q.rows,
)

-- `next_attempt_at IS NULL OR next_attempt_at <= ?`
abbrev pub is_ripe : ℕ → Option ℕ → Bool
is_ripe now none = true
is_ripe now (some t) = leb t now

abbrev pub is_due : ℕ → Row → Bool
is_due now r =
    r.retryable
    && (status_eq r.status queued || status_eq r.status failed)
    && is_ripe now r.next_attempt_at

abbrev pub claimed : ℕ → Row → Row
claimed at r = record r {
  status = uploading;
  attempts = r.attempts + 1;
  last_attempt_at = some at;
  updated_at = at;
}

-- `current` is the time that rows are due by, `at` the second reading of the clock.
unfoldable pub claim_due : ℕ → ℕ → Queue → Queue × Option Item
claim_due current at q = elim (find_least before_due (is_due current) q.rows) [
  | none ↦ (q, none)
  | some r ↦
      let rows' = update_where (has_id r.id) (claimed at) q.rows in
      (record q { rows = rows' }, Option.map item_of_row (find_first (has_id r.id) rows'))
]

-- UPDATE … WHERE id = ?, and the SELECT by the id that follows it.
abbrev pub update_row : ℕ → (Row → Row) → Queue → Queue × Option Item
update_row i f q =
    let rows' = update_where (has_id i) f q.rows in
    (record q { rows = rows' }, Option.map item_of_row (find_first (has_id i) rows'))

abbrev pub finished : ℕ → String → Row → Row
finished now inspection r = record r {
  status = uploaded;
  retryable = false;
  next_attempt_at = none;
  inspection_id = some inspection;
  uploaded_at = some now;
  updated_at = now;
  last_error = none;
  error_code = none;
}

unfoldable pub mark_uploaded : ℕ → ℕ → String → Queue → Queue × Option Item
mark_uploaded now i inspection = update_row i (finished now inspection)

abbrev pub failed_row : ℕ → String → String → Bool → ℕ → Row → Row
failed_row now code error retry delay r = record r {
  status = failed;
  retryable = retry;
  next_attempt_at = if retry then some (now + max 0 delay) else none;
  error_code = some code;
  last_error = some (clip 1000 error);
  updated_at = now;
}

-- `delay` is `retry_delay_seconds`, in microseconds.
pub mark_failed : ℕ → ℕ → String → String → Bool → ℕ → Queue → Queue × Option Item
mark_failed now i code error retry delay = update_row i (failed_row now code error retry delay)

abbrev pub retried : ℕ → Row → Row
retried now r = record r {
  retryable = true;
  status = failed;
  next_attempt_at = some now;
  updated_at = now;
}

-- `none` is the `KeyError`; the update before it then changed nothing.
pub retry : ℕ → ℕ → Queue → Queue × Option Item
retry now i q =
    let rows' = update_where (λ r. has_id i r && status_eq r.status failed) (retried now) q.rows in
    (record q { rows = rows' }, Option.map item_of_row (find_first (has_id i) rows'))

pub list_items : ℕ → Queue → List Item
list_items limit q =
    map item_of_row (take (max 1 (min limit 500)) (sort_by (λ a b. before_id b a) q.rows))

pub record ErrorEntry : Type 0 where
  pub queue_id : ℕ
  pub status : Status
  pub code : Option String
  pub message : Option String
  pub updated_at : ℕ

pub record Summary : Type 0 where
  pub depth : ℕ
  pub counts : Status → ℕ
  pub recent_errors : List ErrorEntry

abbrev pub is_error : Row → Bool
is_error r = status_eq r.status rejected || status_eq r.status failed

abbrev pub error_entry : Row → ErrorEntry
error_entry r = record {
  queue_id = r.id;
  status = r.status;
  code = r.error_code;
  message = if truthy r.rejection_reason then r.rejection_reason else r.last_error;
  updated_at = r.updated_at;
}

-- `SELECT status, COUNT(*) … GROUP BY status`, read by `counts.get(status, 0)`.
abbrev pub count_of : Queue → Status → ℕ
count_of q s = count_if (λ r. status_eq r.status s) q.rows

pub summary : ℕ → Queue → Summary
summary recent_limit q = record {
  depth = count_of q queued + count_of q uploading + count_of q failed;
  counts = count_of q;
  recent_errors =
      map error_entry
        (take (max 1 (min recent_limit 50)) (sort_by before_recent (keep_if is_error q.rows)));
}
