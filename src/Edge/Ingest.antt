-- ===== src/Edge/Ingest.antt =====
-- `GatewayRuntime.scan_once` of edge-gateway/src/edge_gateway/runtime.py, and the state of the runtime:
-- each stable file becomes a row of the queue, a rejection, or is tried again.
--
-- The file system is given file by file; times are in microseconds. An exception that the runtime does
-- not catch ends the cycle, with the transactions of the queue that were committed before it.
use mathlib.Core.Option
use vision_qc.Prelude.{
  map, ℕ, String, Option, none, some, Bool, List, [], ◌∷◌, if◌then◌else◌, is_some,
}
use vision_qc.Edge.Rows.{Item}
use vision_qc.Edge.Inserts.{Capture, Refusal}
use vision_qc.Edge.Queue.{Queue, find_source, enqueue, record_rejection}
use vision_qc.Edge.Parsing.{
  Verdict, pass, reject, broke, raised, GatewayPack, parse_file, Material,
  deterministic_idempotency_key,
}
use vision_qc.Edge.Watcher.{Observations, Listed, stable_files, reset}

-- `_last_error`
pub record Fault : Type 0 where
  pub code : String
  pub message : String
  pub status : String

pub record Gateway : Type 0 where
  pub queue : Queue
  pub observations : Observations
  pub last_error : Option Fault
  pub last_success_at : Option ℕ
  pub last_failure_at : Option ℕ
  pub backend_reachable : Bool
  pub last_heartbeat_monotonic : ℕ

pub record Assessment : Type 0 where
  pub sha256 : String
  pub mime_type : String
  pub width : ℕ
  pub height : ℕ

-- What reading a file comes to, between two calls of `stat`.
pub data Reading : Type 0 where
  unread : String → Reading
  changing settled : Reading

-- A stable file, as the steps of the loop meet it.
pub record File : Type 0 where
  pub key : String
  pub path : String
  pub name : String
  pub now : ℕ
  pub reading : Reading
  -- `_source_fingerprint`
  pub fingerprint : Verdict String
  -- the fingerprint of a refused file, or the hash of its path
  pub refusal_fingerprint : String
  -- `assess_image`
  pub assessment : Verdict Assessment
  -- the groups of the two patterns
  pub groups : Option (List (String × String))
  -- `_atomic_spool`
  pub spool : Verdict String

pub record Host : Type 0 where
  pub pack : GatewayPack
  pub stable_for : ℕ
  pub heartbeat_interval : ℕ
  pub normalize : String → Option String
  pub sha256 : Material → String
  -- `json.dumps(context, sort_keys=True)`
  pub dumps : List (String × String) → String

abbrev pub with_fault : ℕ → String → String → String → Gateway → Gateway
with_fault now code message status g = record g {
  last_error = some (record { code = code; message = message; status = status });
  last_failure_at = some now;
}

-- What a file comes to: a row for it, nothing, or an exception that ends the cycle.
pub data Ingested : Type 0 where
  accepted : Item → Ingested
  passed_over crashed : Ingested

-- `except QualityReject`
unfoldable pub refuse_file : Host → File → String → String → Gateway → Gateway
refuse_file h f code reason g =
    let r : Refusal = record {
      gateway_id = h.pack.gateway_id;
      tenant_id = h.pack.tenant_id;
      pack_key = h.pack.pack_key;
      pack_version = h.pack.version;
      source_path = f.path;
      source_fingerprint = f.refusal_fingerprint;
      original_filename = f.name;
      error_code = code;
      rejection_reason = reason;
      context_json = h.dumps [];
      content_sha256 = none;
    } in
    with_fault f.now code reason "REJECTED"
      (record g { queue = (record_rejection f.now r g.queue).0 })

-- `except (OSError, RuntimeError)`
abbrev pub local_fault : File → String → Gateway → Gateway
local_fault f text g =
    with_fault f.now "LOCAL_INGEST_ERROR" text "FAILED"
      (record g { observations = reset f.key g.observations })

abbrev pub on_verdict :
    {A : Type 0}
    → Host
    → File
    → Verdict A
    → (A → Gateway → Gateway × Ingested)
    → Gateway
    → Gateway × Ingested
on_verdict h f (pass a) next g = next a g
on_verdict h f (reject code reason) next g = (refuse_file h f code reason g, passed_over)
on_verdict h f (broke text) next g = (local_fault f text g, passed_over)
on_verdict h f raised next g = (g, crashed)

abbrev pub captured : Host → File → String → Assessment → List (String × String) → String → Capture
captured h f fingerprint a context spool = record {
  gateway_id = h.pack.gateway_id;
  tenant_id = h.pack.tenant_id;
  pack_key = h.pack.pack_key;
  pack_version = h.pack.version;
  source_path = f.path;
  source_fingerprint = fingerprint;
  spool_path = spool;
  original_filename = f.name;
  content_sha256 = a.sha256;
  mime_type = a.mime_type;
  width = a.width;
  height = a.height;
  context_json = h.dumps context;
  idempotency_key = deterministic_idempotency_key h.sha256 (record {
    tenant_id = h.pack.tenant_id;
    pack_key = h.pack.pack_key;
    pack_version = h.pack.version;
    content_sha256 = a.sha256;
    context = context;
  });
}

abbrev pub enqueue_file : Host → File → Capture → Gateway → Gateway × Ingested
enqueue_file h f c g =
    let (q, item) = enqueue f.now c g.queue in (record g { queue = q }, accepted item)

-- A file that has been read whole.
unfoldable pub ingest_settled : Host → File → String → Gateway → Gateway × Ingested
unfolding refuse_file
ingest_settled h f fingerprint g =
    if is_some (find_source fingerprint g.queue)
    then (g, passed_over)
    else on_verdict h f f.assessment
        (λ a. on_verdict h f (parse_file h.pack h.normalize f.groups) λ context.
          on_verdict h f f.spool
            λ spool. enqueue_file h f (captured h f fingerprint a context spool))
        g

-- What follows the reading of a file.
abbrev pub on_reading : Host → File → Reading → Gateway → Gateway × Ingested
on_reading h f (unread text) g = (local_fault f text g, passed_over)
on_reading h f changing g = (
  with_fault f.now "FILE_STILL_WRITING" "文件在读取期间仍发生变化，等待下一次稳定检查。" "RETRYING"
      (record g { observations = reset f.key g.observations }),
  passed_over,
)
on_reading h f settled g = on_verdict h f f.fingerprint (ingest_settled h f) g

-- One turn of the loop of `scan_once`.
unfoldable pub ingest : Host → File → Gateway → Gateway × Ingested
unfolding ingest_settled
ingest h f g = on_reading h f f.reading g

-- What the loop comes to after a file, with what its other turns come to.
abbrev pub scanned :
    Ingested → Gateway → Gateway × Option (List Item) → Gateway × Option (List Item)
scanned (accepted item) g rest = (rest.0, Option.map (◌∷◌ item) rest.1)
scanned passed_over g rest = rest
scanned crashed g rest = (g, none)

-- The loop of `scan_once`, over the stable files; `none` is an exception that leaves it.
unfoldable pub scan_files : Host → List File → Gateway → Gateway × Option (List Item)
unfolding ingest
scan_files h [] g = (g, some [])
scan_files h (f ∷ files) g =
    let first = ingest h f g in scanned first.1 first.0 (scan_files h files first.0)

-- `scan_once`, at a time, on a listing of the directory.
unfoldable pub scan_once :
    Host → ℕ → List Listed → (String → File) → Gateway → Gateway × Option (List Item)
unfolding scan_files
scan_once h now listing file g =
    let (obs, keys) = stable_files now h.stable_for listing g.observations in
    scan_files h (map file keys) (record g { observations = obs })
