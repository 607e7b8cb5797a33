-- ===== src/Edge/Rows.antt =====
-- The table `queue_items` of edge-gateway/src/edge_gateway/queue.py, and the `QueueItem` that
-- `QueueStore._row` reads from one of its rows.
--
-- A time is its count of microseconds. The code stores `datetime.isoformat()` in UTC and compares
-- the texts: the fraction, if any, has six digits and `+` sorts before `.`, so that the order of the
-- texts is the order of the times. The context stays the JSON text that `json.dumps` gave.
use vision_qc.Prelude.{ℕ, String, Option, Bool, true, false, or_none}

-- The texts of the column `status`.
pub data Status : Type 0 where
  queued uploading failed uploaded rejected duplicate : Status

abbrev pub status_eq : Status → Status → Bool
status_eq queued queued = true
status_eq uploading uploading = true
status_eq failed failed = true
status_eq uploaded uploaded = true
status_eq rejected rejected = true
status_eq duplicate duplicate = true
status_eq _ _ = false

-- One row of the table.
pub record Row : Type 0 where
  pub id : ℕ
  pub gateway_id : String
  pub tenant_id : String
  pub pack_key : String
  pub pack_version : String
  pub source_path : String
  pub source_fingerprint : String
  pub spool_path : Option String
  pub original_filename : String
  pub content_sha256 : Option String
  pub mime_type : Option String
  pub width : Option ℕ
  pub height : Option ℕ
  pub context_json : String
  pub idempotency_key : Option String
  pub status : Status
  pub attempts : ℕ
  pub last_attempt_at : Option ℕ
  pub next_attempt_at : Option ℕ
  pub last_error : Option String
  pub error_code : Option String
  pub rejection_reason : Option String
  pub inspection_id : Option String
  pub dedup_of_id : Option ℕ
  pub retryable : Bool
  pub created_at : ℕ
  pub updated_at : ℕ
  pub uploaded_at : Option ℕ

-- `QueueItem`; `json.loads` of the context is left to the reader of the item.
pub record Item : Type 0 where
  pub id : ℕ
  pub gateway_id : String
  pub tenant_id : String
  pub pack_key : String
  pub pack_version : String
  pub source_path : String
  pub source_fingerprint : String
  pub spool_path : Option String
  pub original_filename : String
  pub content_sha256 : Option String
  pub mime_type : Option String
  pub width : Option ℕ
  pub height : Option ℕ
  pub context_json : String
  pub idempotency_key : Option String
  pub status : Status
  pub attempts : ℕ
  pub next_attempt_at : Option ℕ
  pub last_error : Option String
  pub error_code : Option String
  pub rejection_reason : Option String
  pub inspection_id : Option String
  pub dedup_of_id : Option ℕ
  pub retryable : Bool
  pub created_at : ℕ
  pub updated_at : ℕ
  pub uploaded_at : Option ℕ

-- `_row` on a row that is there: an empty text in a nullable column reads as `None`. (Ids start at
-- 1 and a stored time is no empty text, so that their tests only tell `NULL`.)
unfoldable pub item_of_row : Row → Item
item_of_row r = record {
  id = r.id;
  gateway_id = r.gateway_id;
  tenant_id = r.tenant_id;
  pack_key = r.pack_key;
  pack_version = r.pack_version;
  source_path = r.source_path;
  source_fingerprint = r.source_fingerprint;
  spool_path = or_none r.spool_path;
  original_filename = r.original_filename;
  content_sha256 = or_none r.content_sha256;
  mime_type = or_none r.mime_type;
  width = r.width;
  height = r.height;
  context_json = r.context_json;
  idempotency_key = or_none r.idempotency_key;
  status = r.status;
  attempts = r.attempts;
  next_attempt_at = r.next_attempt_at;
  last_error = or_none r.last_error;
  error_code = or_none r.error_code;
  rejection_reason = or_none r.rejection_reason;
  inspection_id = or_none r.inspection_id;
  dedup_of_id = r.dedup_of_id;
  retryable = r.retryable;
  created_at = r.created_at;
  updated_at = r.updated_at;
  uploaded_at = r.uploaded_at;
}
