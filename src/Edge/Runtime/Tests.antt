-- ===== src/Edge/Runtime/Tests.antt =====
-- A gateway that finds a file, uploads it, and watches it; and the theorems on it.
use vision_qc.Prelude.{ℕ, String, none, some, true, false, List, [], ◌∷◌, ◌≡◌, refl, count_if}
use vision_qc.Edge.Rows.{item_of_row}
use vision_qc.Edge.Inserts.{Capture}
use vision_qc.Edge.Queue.{empty, enqueue, find_source, claim_due, recover_inflight, mark_uploaded}
use vision_qc.Edge.Queue.Steps.{Reach}
use vision_qc.Edge.Uploads.{
  Payload, object, responded, Link, read_response, read_posted, upload, upload_form,
}
use vision_qc.Edge.Parsing.{pass, GatewayPack, parse_file}
use vision_qc.Edge.Watcher.{observe, watch_loop, stable_files}
use vision_qc.Edge.Watcher.Once.{Look, watch}
use vision_qc.Edge.Ingest.{
  Gateway, File, Host, captured, settled, refuse_file, ingest_settled, ingest, scan_files,
  scan_once,
}
use vision_qc.Edge.Runtime.{
  Turn, Cycle, start, run_cycle, fail_item, on_uploaded, send_item, upload_once, heartbeat_once,
}
use vision_qc.Edge.Runtime.Refines.{Lives, first, cycled, restarted, Lives-Reach}
use vision_qc.Edge.Runtime.Drains.{is_uploaded}

abbrev pack : GatewayPack
pack = record {
  gateway_id = "gw-1";
  tenant_id = "acme";
  pack_key = "acme/valves";
  version = "3";
  products = record { code = "VALVE-9"; revision = "R2"; aliases = "V9" ∷ [] } ∷ [];
  stations = "LINE-1" ∷ [];
  watch = record {
    capture_map = ("product_code", "part") ∷ ("batch_no", "lot") ∷ ("captured_at", "time") ∷ [];
    defaults = ("station_code", "LINE-1") ∷ [];
    source = "camera";
  };
}

abbrev host : Host
host = record {
  pack = pack;
  stable_for = 1000;
  heartbeat_interval = 5000;
  normalize = λ t. some t;
  sha256 = λ m. m.content_sha256;
  dumps = λ c. "{}";
}

abbrev image : String → File
image k = record {
  key = k;
  path = k;
  name = "V9_B7.png";
  now = 2000;
  reading = settled;
  fingerprint = pass "fp";
  refusal_fingerprint = "fp";
  assessment = pass (record { sha256 = "c0ffee"; mime_type = "image/png"; width = 8; height = 8 });
  groups = some (("part", "V9") ∷ ("lot", "B7") ∷ ("time", "20260102T030405") ∷ []);
  spool = pass "/spool/c0ffee.png";
}

abbrev reply : Payload
reply = record {
  message = none;
  detail = none;
  inspection_id = some "ins_1";
  status = none;
  idempotent_replay = false;
}

abbrev link : Link
link = record {
  has_token = true;
  mapping = record {
    product_code_key = "part";
    product_revision_key = "rev";
    batch_no_key = "lot";
    station_code_key = "cell";
    captured_at_key = "taken";
    source_key = "camera";
  };
  context = λ item. [];
  post = λ item form. responded 201 (object reply);
}

abbrev turn : Turn
turn = record {
  due = 3000;
  claimed = 3001;
  marked = 3002;
  noted = 3003;
  link = link;
  unread = λ path. none;
}

abbrev cycle : ℕ → Cycle
cycle now = record {
  now = now;
  listing = record { key = "a.png"; stat = some (64, 7) } ∷ [];
  file = image;
  turn = turn;
  noted = now;
  beat = λ h. true;
}

abbrev ran : Gateway
ran = (run_cycle host (cycle 2000) (run_cycle host (cycle 100) (start 1 empty)).0).0

lived : Lives host ran
lived = cycled (cycled (first 1) (cycle 100)) (cycle 2000)

Lives-Reach_example : Reach empty (start 9 ran.queue).queue
Lives-Reach_example = Lives-Reach (restarted lived 9)

-- The file that two cycles found unchanged is uploaded in the second one.
delivered : count_if is_uploaded ran.queue.rows ≡ 1
unfolding run_cycle start heartbeat_once scan_once stable_files watch_loop observe scan_files ingest
    ingest_settled refuse_file parse_file upload_once send_item on_uploaded fail_item upload
    read_posted read_response upload_form empty enqueue find_source claim_due recover_inflight
    mark_uploaded item_of_row
delivered = refl

abbrev shot : Capture
shot =
    captured host (image "a.png") "fp"
      (record { sha256 = "c0ffee"; mime_type = "image/png"; width = 8; height = 8 }) []
      "/spool/c0ffee.png"

abbrev waiting : Gateway
waiting = record (start 1 empty) { queue = (enqueue 2000 shot empty).0 }

abbrev looks : List Look
looks =
    record { now = 600; size = 64; mtime = 7 }
    ∷ record { now = 1200; size = 64; mtime = 7 }
    ∷ record { now = 5000; size = 64; mtime = 7 }
    ∷ []
