-- ===== src/Edge/Runtime/Refines.antt =====
-- The cycles of the runtime are runs of the queue's transactions.
use vision_qc.Prelude.{
  map, ℕ, String, Option, Bool, false, List, [], ◌∷◌, ◌≡◌, refl, inl, inr, Option-cases, Bool-cases,
  is_some, truthy, not, ◌&&◌, ltb, ◌+◌,
}
use vision_qc.Edge.Rows.{Item}
use vision_qc.Edge.Queue.{retry, Queue, empty, claim_due, find_source}
use vision_qc.Edge.Queue.Invariant.{IsValid}
use vision_qc.Edge.Queue.Preserve.{InFlight}
use vision_qc.Edge.Queue.Steps.{
  arrive, refuse, restart, claim, succeed, fail, try_again, Reach, here, next, Reach-IsValid,
}
use vision_qc.Edge.Queue.Claims.{claim_due-InFlight}
use vision_qc.Edge.Uploads.{Uploaded, result, upload_error, escaped, upload, or_text}
use vision_qc.Edge.Parsing.{Verdict, pass, reject, broke, raised, parse_file}
use vision_qc.Edge.Watcher.{Listed, stable_files}
use vision_qc.Edge.Ingest.{
  Gateway, File, Host, Ingested, Reading, on_reading, scanned, accepted, passed_over, crashed,
  unread, changing, settled, on_verdict, refuse_file, ingest_settled, ingest, scan_files, scan_once,
}
use vision_qc.Edge.Runtime.{
  Turn, Heartbeat, heartbeat_of, start, Answer-cases, fail_item, on_uploaded, send_item,
  upload_once, heartbeat_once, Cycle, run_cycle,
}

module _ (h : Host) (f : File) where
  refuse_file-Reach :
      {q : Queue} (code reason : String) (g : Gateway)
      → Reach q g.queue
      → Reach q (refuse_file h f code reason g).queue
  unfolding refuse_file
  refuse_file-Reach code reason g r = next r (refuse _ _ _)

  on_verdict-Reach :
      {A : Type 0} {q : Queue} (v : Verdict A) (k : A → Gateway → Gateway × Ingested) (g : Gateway)
      → Reach q g.queue
      → ((a : A) → Reach q (k a g).0.queue)
      → Reach q (on_verdict h f v k g).0.queue
  on_verdict-Reach (pass a) k g r l = l a
  on_verdict-Reach (reject code reason) k g r l = refuse_file-Reach code reason g r
  on_verdict-Reach (broke text) k g r l = r
  on_verdict-Reach raised k g r l = r

  ingest_settled-Reach :
      {q : Queue} (fingerprint : String) (g : Gateway)
      → Reach q g.queue
      → Reach q (ingest_settled h f fingerprint g).0.queue
  unfolding ingest_settled
  ingest_settled-Reach {q} fingerprint g r =
      elim (Bool-cases (is_some (find_source fingerprint g.queue))) [
        | inl e ↦ rw (e, ingest_settled) r
        | inr e ↦
            rw (e, ingest_settled)
              (on_verdict-Reach f.assessment _ g r λ a.
                on_verdict-Reach (parse_file h.pack h.normalize f.groups) _ g r
                  λ context. on_verdict-Reach f.spool _ g r λ spool. next r (arrive _ _ _))
      ]

  on_reading-Reach :
      {q : Queue} (x : Reading) (g : Gateway)
      → Reach q g.queue
      → Reach q (on_reading h f x g).0.queue
  on_reading-Reach (unread text) g r = r
  on_reading-Reach changing g r = r
  on_reading-Reach settled g r =
      on_verdict-Reach f.fingerprint _ g r (λ p. ingest_settled-Reach p g r)

  ingest-Reach : {q : Queue} (g : Gateway) → Reach q g.queue → Reach q (ingest h f g).0.queue
  unfolding ingest
  ingest-Reach g r = on_reading-Reach f.reading g r

scanned-Reach :
    {q : Queue} (k : Ingested) (g : Gateway) (rest : Gateway × Option (List Item))
    → Reach q g.queue
    → Reach q rest.0.queue
    → Reach q (scanned k g rest).0.queue
scanned-Reach (accepted item) g rest one all = all
scanned-Reach passed_over g rest one all = all
scanned-Reach crashed g rest one all = one

scan_files-Reach :
    {q : Queue} (h : Host) (files : List File) (g : Gateway)
    → Reach q g.queue
    → Reach q (scan_files h files g).0.queue
unfolding scan_files
scan_files-Reach h [] g r = r
scan_files-Reach h (f ∷ files) g r =
    let one = ingest-Reach h f g r in
    scanned-Reach (ingest h f g).1 (ingest h f g).0 _ one
      (scan_files-Reach h files (ingest h f g).0 one)

pub scan_once-Reach :
    {q : Queue} (h : Host) (now : ℕ) (listing : List Listed) (file : String → File) (g : Gateway)
    → Reach q g.queue
    → Reach q (scan_once h now listing file g).0.queue
unfolding scan_once
scan_once-Reach h now listing file g r =
    let (obs, keys) = stable_files now h.stable_for listing g.observations in
    scan_files-Reach h (map file keys) (record g { observations = obs }) r

module _ (t : Turn) where
  fail_item-Reach :
      {q : Queue} (i : ℕ) (code error message : String) (again : Bool) (delay : ℕ) (g : Gateway)
      → Reach q g.queue
      → InFlight i g.queue
      → Reach q (fail_item t i code error message again delay g).0.queue
  unfolding fail_item
  fail_item-Reach i code error message again delay g r fly =
      next r (fail t.marked i code error again delay g.queue fly)

  on_uploaded-Reach :
      {q : Queue} (item : Item) (u : Uploaded) (g : Gateway)
      → Reach q g.queue
      → InFlight item.id g.queue
      → Reach q (on_uploaded t item u g).0.queue
  unfolding on_uploaded
  on_uploaded-Reach item (result i replay status) g r fly =
      next r (succeed t.marked item.id i g.queue fly)
  on_uploaded-Reach item (upload_error code message again) g r fly =
      fail_item-Reach item.id code message message again _ g r fly
  on_uploaded-Reach item escaped g r fly = r

  send_item-Reach :
      {q : Queue} (item : Item) (g : Gateway)
      → Reach q g.queue
      → InFlight item.id g.queue
      → Reach q (send_item t item g).0.queue
  unfolding send_item
  send_item-Reach item g r fly = elim (Bool-cases (truthy item.spool_path)) [
    | inr e ↦
        rw (e, send_item)
          (fail_item-Reach item.id "SPOOL_MISSING" "队列项没有本地 spool 文件，保留为失败项等待人工处理。"
            "队列项没有本地 spool 文件。" false 0 g r fly)
    | inl e ↦ elim (Option-cases (t.unread (or_text item.spool_path ""))) [
      | inl n ↦ rw (e, n, send_item) (on_uploaded-Reach item (upload t.link item) g r fly)
      | inr (text, n) ↦
          rw (e, n, send_item)
            (fail_item-Reach item.id "SPOOL_READ_ERROR" text text false 0 g r fly)
    ]
  ]

  pub upload_once-Reach :
      {q : Queue} (g : Gateway)
      → IsValid g.queue
      → Reach q g.queue
      → Reach q (upload_once t g).0.queue
  unfolding upload_once
  upload_once-Reach {q} g v r =
      let r1 = next r (claim t.due t.claimed g.queue) in
      elim (Option-cases (claim_due t.due t.claimed g.queue).1) [
        | inl n ↦ rw (n, upload_once) r1
        | inr (x, n) ↦
            rw (n, upload_once)
              (send_item-Reach x _ r1 (claim_due-InFlight t.due t.claimed g.queue v n))
      ]

heartbeat_once-queue :
    (h : Host) (now noted : ℕ) (beat : Heartbeat → Bool) (force : Bool) (g : Gateway)
    → (heartbeat_once h now noted beat force g).0.queue ≡ g.queue
unfolding heartbeat_once
heartbeat_once-queue h now noted beat force g =
    elim (Bool-cases (not force && ltb now (g.last_heartbeat_monotonic + h.heartbeat_interval))) [
      | inl e ↦ rw (e, heartbeat_once) refl
      | inr e ↦ elim (Bool-cases (beat (heartbeat_of g))) [
        | inl b ↦ rw (e, b, heartbeat_once) refl
        | inr b ↦ rw (e, b, heartbeat_once) refl
      ]
    ]

pub run_cycle-Reach :
    (h : Host) (c : Cycle) (g : Gateway)
    → Reach empty g.queue
    → Reach empty (run_cycle h c g).0.queue
unfolding run_cycle
run_cycle-Reach h c g r =
    let r1 = scan_once-Reach h c.now c.listing c.file g r in
    let g1 = (scan_once h c.now c.listing c.file g).0 in
    let r2 = upload_once-Reach c.turn g1 (Reach-IsValid r1) r1 in
    elim (Option-cases (scan_once h c.now c.listing c.file g).1) [
      | inl n ↦ rw (n, run_cycle) r1
      | inr (items, n) ↦ elim (Answer-cases (upload_once c.turn g1).1) [
        | inr a ↦ rw (n, a, run_cycle) r2
        | inl (x, a) ↦
            rw
              (
                n,
                a,
                run_cycle,
                heartbeat_once-queue h c.now c.noted c.beat false (upload_once c.turn g1).0,
              )
              r2
      ]
    ]

-- The runtime over its starts: cycles, whatever each one meets and however it ends, and the retries
-- that an operator asks for.
pub data Lives (h : Host) : Gateway → Type 0 where
  first : (now : ℕ) → Lives h (start now empty)
  cycled : {g : Gateway} → Lives h g → (c : Cycle) → Lives h (run_cycle h c g).0
  asked :
      {g : Gateway}
      → Lives h g
      → (now i : ℕ) → Lives h (record g { queue = (retry now i g.queue).0 })
  restarted : {g : Gateway} → Lives h g → (now : ℕ) → Lives h (start now g.queue)

-- Whatever the directory, the spool, the backend and the clock do in each cycle, and over any
-- restarts and any retries that an operator asks for, the queue of the runtime is one that the queue's
-- transactions reach from the empty table, each taken in the state that it is allowed in: the uploader
-- marks only the item that it has claimed.
pub Lives-Reach : {h : Host} {g : Gateway} → Lives h g → Reach empty g.queue
unfolding start
Lives-Reach (first now) = next here (restart now empty)
Lives-Reach {h} (cycled {g = g} l c) = run_cycle-Reach h c g (Lives-Reach l)
Lives-Reach (asked {g = g} l now i) = next (Lives-Reach l) (try_again now i g.queue)
Lives-Reach (restarted {g = g} l now) = next (Lives-Reach l) (restart now g.queue)
