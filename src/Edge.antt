-- ===== src/Edge.antt =====
-- The edge gateway (edge-gateway/src/edge_gateway): its local queue, the upload client, the
-- directory watcher, the scan and the runtime that drives them.
pub mod Rows
pub mod Inserts
pub mod Queue
pub mod Uploads
pub mod Parsing
pub mod Watcher
pub mod Ingest
pub mod Runtime
