-- ===== src/Edge/Runtime/Drains.antt =====
-- With the backend up, the turns of the uploader come to an end of the items that are due.
use vision_qc.Prelude.{
  ℕ, suc, zero, String, none, Bool, true, List, ◌≡◌, truthy, All, count_if, update_where, ◌&&◌,
}
use vision_qc.Edge.Rows.{uploaded, status_eq, Row, Item}
use vision_qc.Edge.Queue.{Queue, claimed, finished, has_id, is_due}
use vision_qc.Edge.Queue.Invariant.{IsValid}
use vision_qc.Edge.Uploads.{result, upload}
use vision_qc.Edge.Ingest.{Gateway}
use vision_qc.Edge.Runtime.{Turn, upload_once}

abbrev pub is_uploaded : Row → Bool
is_uploaded r = status_eq r.status uploaded

-- The uploader's world at its best: spooled files can be read, and the backend takes every post.
pub record IsUp (t : Turn) : Type 0 where
  pub readable : (path : String) → t.unread path ≡ none
  pub inspection : Item → String
  pub replay : Item → Bool
  pub status : Item → String
  pub taken :
      (x : Item)
      → (truthy x.idempotency_key && truthy x.mime_type) ≡ true
      → upload t.link x ≡ result (inspection x) (replay x) (status x)

-- The row has what an upload needs: a spool file, an idempotency key and a media type.
abbrev pub sendable : Row → Bool
sendable r = truthy r.spool_path && (truthy r.idempotency_key && truthy r.mime_type)

-- Every row that may be taken up has what an upload needs.
abbrev pub AllSendable : ℕ → List Row → Type 0
AllSendable due rows = All (λ (r : Row). is_due due r ≡ true → sendable r ≡ true) rows

-- The rows after a row is claimed and then marked as uploaded.
abbrev sent_rows : Turn → String → Row → List Row → List Row
sent_rows t i r rows =
    update_where (has_id r.id) (finished t.marked i)
      (update_where (has_id r.id) (claimed t.claimed) rows)

module _ (t : Turn) (up : IsUp t) where
  -- What the turns keep, and count.
  record IsDraining (due done : ℕ) (g : Gateway) : Type 0 where
    valid : IsValid g.queue
    all_sendable : AllSendable t.due g.queue.rows
    due_count : count_if (is_due t.due) g.queue.rows ≡ due
    done_count : count_if is_uploaded g.queue.rows ≡ done

-- A number of turns of `upload_once`, one after another.
abbrev pub turns : Turn → ℕ → Gateway → Gateway
turns t zero g = g
turns t (suc n) g = turns t n (upload_once t g).0
