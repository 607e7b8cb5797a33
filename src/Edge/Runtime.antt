-- ===== src/Edge/Runtime.antt =====
-- `GatewayRuntime` of edge-gateway/src/edge_gateway/runtime.py: a cycle scans the directory, uploads one
-- item and reports to the backend. The readings of the clock are given operation by operation.
pub mod Refines
pub mod Drains
mod Tests
use vision_qc.Prelude.{
  ℕ, ◌+◌, ◌*◌, ◌^◌, min, String, Option, none, some, Bool, true, false, ◌&&◌, ◌||◌, not, List, [],
  ◌∷◌, ltb, if◌then◌else◌, truthy, is_some, str_eq, ◌≡◌, refl, ◌⊎◌, inl, inr,
}
use vision_qc.Edge.Rows.{uploaded, failed, status_eq, Item}
use vision_qc.Edge.Queue.{
  Queue, claim_due, mark_uploaded, mark_failed, recover_inflight, get, summary, Summary,
}
use vision_qc.Edge.Uploads.{Link, Uploaded, result, upload_error, escaped, upload, or_text}
use vision_qc.Edge.Watcher.{Listed}
use vision_qc.Edge.Ingest.{Fault, Gateway, File, Host, with_fault, scan_once}

-- What the upload of one item needs: the readings of the clock, and the spool.
pub record Turn : Type 0 where
  pub due : ℕ
  pub claimed : ℕ
  pub marked : ℕ
  pub noted : ℕ
  pub link : Link
  -- the `OSError` of reading the file, if there is one
  pub unread : String → Option String

-- The answer of `upload_once`; `left` is an exception that leaves it.
pub data Answer : Type 0 where
  answer : Option Item → Answer
  left : Answer

pub Answer-cases : (a : Answer) → ((o : Option Item) × (a ≡ answer o)) ⊎ (a ≡ left)
Answer-cases (answer o) = inl (o, refl)
Answer-cases left = inr refl

-- `min(3600.0, 2.0 ** min(attempts, 10))` seconds
abbrev pub retry_delay : ℕ → ℕ
retry_delay attempts = min 3600 (2 ^ min attempts 10) * 1000000

unfoldable pub fail_item :
    Turn → ℕ → String → String → String → Bool → ℕ → Gateway → Gateway × Answer
fail_item t i code error message again delay g =
    let (q, item) = mark_failed t.marked i code error again delay g.queue in
    (with_fault t.noted code message "FAILED" (record g { queue = q }), answer item)

-- What follows the call of `uploader.upload`.
unfoldable pub on_uploaded : Turn → Item → Uploaded → Gateway → Gateway × Answer
unfolding fail_item
on_uploaded t item (result i replay status) g =
    let (q, row) = mark_uploaded t.marked item.id i g.queue in
    (record g { queue = q; last_success_at = some t.noted; last_error = none }, answer row)
on_uploaded t item (upload_error code message again) g =
    fail_item t item.id code message message again (retry_delay item.attempts) g
on_uploaded t item escaped g = (g, left)

-- What follows the claim of an item.
unfoldable pub send_item : Turn → Item → Gateway → Gateway × Answer
unfolding on_uploaded
send_item t item g =
    if truthy item.spool_path
    then elim (t.unread (or_text item.spool_path "")) [
      | some text ↦ fail_item t item.id "SPOOL_READ_ERROR" text text false 0 g
      | none ↦ on_uploaded t item (upload t.link item) g
    ]
    else fail_item t item.id "SPOOL_MISSING" "队列项没有本地 spool 文件，保留为失败项等待人工处理。" "队列项没有本地 spool 文件。"
        false 0 g

unfoldable pub upload_once : Turn → Gateway → Gateway × Answer
unfolding send_item
upload_once t g =
    let (q, item) = claim_due t.due t.claimed g.queue in
    elim item [
      | none ↦ (record g { queue = q }, answer none)
      | some x ↦ send_item t x (record g { queue = q })
    ]

abbrev pub has_failed : Option Fault → Bool
has_failed none = false
has_failed (some f) = str_eq f.status "FAILED"

-- `_reported_status`
abbrev pub reported_status : Summary → Gateway → String
reported_status s g =
    if has_failed g.last_error
    then "DEGRADED"
    else if ltb 0 (s.counts failed) || ltb 0 s.depth
    then "DEGRADED"
    else "ONLINE"

-- The payload of a heartbeat, but for the texts that the pack and the settings give.
pub record Heartbeat : Type 0 where
  pub reported_status : String
  pub queue_depth : ℕ
  pub last_error : Option String
  pub upload_success_count : ℕ
  pub upload_failure_count : ℕ

abbrev pub message_of : Option Fault → Option String
message_of none = none
message_of (some f) = some f.message

abbrev pub heartbeat_of : Gateway → Heartbeat
heartbeat_of g =
    let s = summary 10 g.queue in
    record {
      reported_status = reported_status s g;
      queue_depth = s.depth;
      last_error = message_of g.last_error;
      upload_success_count = s.counts uploaded;
      upload_failure_count = s.counts failed;
    }

abbrev pub without_heartbeat_fault : Option Fault → Option Fault
without_heartbeat_fault none = none
without_heartbeat_fault (some f) = if str_eq f.code "HEARTBEAT_FAILED" then none else some f

-- `heartbeat_once`, at a monotonic time and a wall-clock time; `beat` is `uploader.heartbeat`.
unfoldable pub heartbeat_once : Host → ℕ → ℕ → (Heartbeat → Bool) → Bool → Gateway → Gateway × Bool
heartbeat_once h now noted beat force g =
    if not force && ltb now (g.last_heartbeat_monotonic + h.heartbeat_interval)
    then (g, g.backend_reachable)
    else let reached = beat (heartbeat_of g) in
      let g' = record g { backend_reachable = reached; last_heartbeat_monotonic = now } in
      if reached
      then (record g' { last_error = without_heartbeat_fault g.last_error }, true)
      else (with_fault noted "HEARTBEAT_FAILED" "后端心跳失败，网关继续保留本地队列。" "FAILED" g', false)

-- What the world is like during a cycle.
pub record Cycle : Type 0 where
  pub now : ℕ
  pub listing : List Listed
  pub file : String → File
  pub turn : Turn
  pub noted : ℕ
  pub beat : Heartbeat → Bool

-- `run_cycle`; the answer is whether it comes to its end.
unfoldable pub run_cycle : Host → Cycle → Gateway → Gateway × Bool
unfolding scan_once upload_once heartbeat_once
run_cycle h c g =
    let (g1, items) = scan_once h c.now c.listing c.file g in
    elim items [
      | none ↦ (g1, false)
      | some _ ↦
          let (g2, a) = upload_once c.turn g1 in
          elim a [
            | left ↦ (g2, false)
            | answer _ ↦ ((heartbeat_once h c.now c.noted c.beat false g2).0, true)
          ]
    ]

-- The `recover_inflight` of a start on the queue that was left.
unfoldable pub start : ℕ → Queue → Gateway
start now q = record {
  queue = (recover_inflight now q).0;
  observations = [];
  last_error = none;
  last_success_at = none;
  last_failure_at = none;
  backend_reachable = false;
  last_heartbeat_monotonic = 0;
}
