-- ===== src/Edge/Inserts.antt =====
-- What `enqueue` and `record_rejection` of edge-gateway/src/edge_gateway/queue.py are called with,
-- and the rows that they insert.
use vision_qc.Prelude.{ℕ, String, Option, none, some, true, false}
use vision_qc.Edge.Rows.{queued, rejected, duplicate, Row}

-- The arguments of `enqueue`; `context_json` is `json.dumps(context, sort_keys=True)`.
pub record Capture : Type 0 where
  pub gateway_id : String
  pub tenant_id : String
  pub pack_key : String
  pub pack_version : String
  pub source_path : String
  pub source_fingerprint : String
  pub spool_path : String
  pub original_filename : String
  pub content_sha256 : String
  pub mime_type : String
  pub width : ℕ
  pub height : ℕ
  pub context_json : String
  pub idempotency_key : String

-- The arguments of `record_rejection`.
pub record Refusal : Type 0 where
  pub gateway_id : String
  pub tenant_id : String
  pub pack_key : String
  pub pack_version : String
  pub source_path : String
  pub source_fingerprint : String
  pub original_filename : String
  pub error_code : String
  pub rejection_reason : String
  pub context_json : String
  pub content_sha256 : Option String

-- The row of an accepted capture.
abbrev pub queued_row : ℕ → ℕ → Capture → Row
queued_row i now c = record {
  id = i;
  gateway_id = c.gateway_id;
  tenant_id = c.tenant_id;
  pack_key = c.pack_key;
  pack_version = c.pack_version;
  source_path = c.source_path;
  source_fingerprint = c.source_fingerprint;
  spool_path = some c.spool_path;
  original_filename = c.original_filename;
  content_sha256 = some c.content_sha256;
  mime_type = some c.mime_type;
  width = some c.width;
  height = some c.height;
  context_json = c.context_json;
  idempotency_key = some c.idempotency_key;
  status = queued;
  attempts = 0;
  last_attempt_at = none;
  next_attempt_at = some now;
  last_error = none;
  error_code = none;
  rejection_reason = none;
  inspection_id = none;
  dedup_of_id = none;
  retryable = true;
  created_at = now;
  updated_at = now;
  uploaded_at = none;
}

-- The row of a capture whose content is queued already, under the row `primary`.
abbrev pub duplicate_row : ℕ → ℕ → Capture → ℕ → Row
duplicate_row i now c primary =
    let r = queued_row i now c in
    record r {
      spool_path = none;
      status = duplicate;
      next_attempt_at = none;
      dedup_of_id = some primary;
      retryable = false;
    }

abbrev pub rejected_row : ℕ → ℕ → Refusal → Row
rejected_row i now c = record {
  id = i;
  gateway_id = c.gateway_id;
  tenant_id = c.tenant_id;
  pack_key = c.pack_key;
  pack_version = c.pack_version;
  source_path = c.source_path;
  source_fingerprint = c.source_fingerprint;
  spool_path = none;
  original_filename = c.original_filename;
  content_sha256 = c.content_sha256;
  mime_type = none;
  width = none;
  height = none;
  context_json = c.context_json;
  idempotency_key = none;
  status = rejected;
  attempts = 0;
  last_attempt_at = none;
  next_attempt_at = none;
  last_error = none;
  error_code = some c.error_code;
  rejection_reason = some c.rejection_reason;
  inspection_id = none;
  dedup_of_id = none;
  retryable = false;
  created_at = now;
  updated_at = now;
  uploaded_at = none;
}
