-- ===== src/Edge/Queue/Tests.antt =====
-- Runs of the queue, and the theorems about it on them.
use vision_qc.Prelude.{
  ◌+◌, ◌≤◌, String, none, some, true, false, [], ◌∷◌, ◌≡◌, ◌≢◌, refl, sym, ◌⊎◌, All, Member, length,
  map, update_where, str_eq, eq_iff, ◌∙◌,
}
use vision_qc.Edge.Rows.{queued, uploading, uploaded, rejected, duplicate, Row, Item, item_of_row}
use vision_qc.Edge.Inserts.{Capture, Refusal, queued_row}
use vision_qc.Edge.Queue.{
  Queue, empty, has_id, find_source, enqueue, record_rejection, recover_inflight, claim_due,
  claimed, finished, mark_uploaded,
}
use vision_qc.Edge.Queue.Steps.{Reach, here, next, arrive, refuse, Reach-IsValid}
use vision_qc.Edge.Queue.Claims.{IsDue, NotLater, claim_due_lem, recover_inflight_lem}
use vision_qc.Edge.Queue.Ingest.{IsPrimary, enqueue_again, enqueue_new}

abbrev shot : String → String → Capture
shot source key = record {
  gateway_id = "gw";
  tenant_id = "plant";
  pack_key = "pack";
  pack_version = "1";
  source_path = "/in/a.png";
  source_fingerprint = source;
  spool_path = "/spool/a";
  original_filename = "a.png";
  content_sha256 = "ab";
  mime_type = "image/png";
  width = 64;
  height = 64;
  context_json = "{}";
  idempotency_key = key;
}

abbrev blurred : Refusal
blurred = record {
  gateway_id = "gw";
  tenant_id = "plant";
  pack_key = "pack";
  pack_version = "1";
  source_path = "/in/b.png";
  source_fingerprint = "s9";
  original_filename = "b.png";
  error_code = "BLUR";
  rejection_reason = "too blurred";
  context_json = "{}";
  content_sha256 = none;
}

-- One capture, one of the same content from elsewhere, one other, and a refused one.
abbrev one_capture : Queue
one_capture = (enqueue 5 (shot "s1" "k1") empty).0

abbrev two_captures : Queue
two_captures = (enqueue 6 (shot "s2" "k2") one_capture).0

abbrev with_duplicate : Queue
with_duplicate = (enqueue 7 (shot "s3" "k1") two_captures).0

abbrev with_refusal : Queue
with_refusal = (record_rejection 8 blurred with_duplicate).0

abbrev claimed_queue : Queue
claimed_queue = (claim_due 9 9 with_refusal).0

abbrev uploaded_queue : Queue
uploaded_queue = (mark_uploaded 10 1 "insp" claimed_queue).0

statuses_test :
    map (λ r. r.status) uploaded_queue.rows ≡ uploaded ∷ queued ∷ duplicate ∷ rejected ∷ []
unfolding empty enqueue record_rejection claim_due mark_uploaded
statuses_test = refl

run_to_refusal : Reach empty with_refusal
run_to_refusal =
    next
      (next
        (next (next here (arrive 5 (shot "s1" "k1") empty)) (arrive 6 (shot "s2" "k2") one_capture))
        (arrive 7 (shot "s3" "k1") two_captures))
      (refuse 8 blurred with_duplicate)

abbrev first_row : Row
first_row = queued_row 1 5 (shot "s1" "k1")

abbrev done_row : Row
done_row = finished 10 "insp" (claimed 9 first_row)

abbrev restarted_queue : Queue
restarted_queue = (recover_inflight 20 uploaded_queue).0

claim_due_lem_example :
    ((claim_due 9 9 with_refusal ≡ (with_refusal, none)) × All (λ r. ¬ IsDue 9 r) with_refusal.rows)
    ⊎ ((r : Row) × Member r with_refusal.rows
        × IsDue 9 r
        × All (λ b. IsDue 9 b → NotLater r b) with_refusal.rows
        × (claim_due 9 9 with_refusal ≡ (
          record with_refusal { rows = update_where (has_id r.id) (claimed 9) with_refusal.rows },
          some (item_of_row (claimed 9 r)),
        )))
claim_due_lem_example = claim_due_lem 9 9 with_refusal (Reach-IsValid run_to_refusal)

abbrev first_item : Item
first_item = item_of_row (claimed 9 first_row)

abbrev second_item : Item
second_item = item_of_row (claimed 10 (queued_row 2 6 (shot "s2" "k2")))

recover_inflight_lem_example :
    All (λ r. r.status ≢ uploading) (recover_inflight 20 claimed_queue).0.rows
    × ((r : Row)
        → Member r claimed_queue.rows
        → r.status ≡ uploading
        → (s : Row) × Member s (recover_inflight 20 claimed_queue).0.rows
          × IsDue 20 s
          × (s.id ≡ r.id)
          × (s.spool_path ≡ r.spool_path)
          × (s.idempotency_key ≡ r.idempotency_key)
          × (s.attempts ≡ r.attempts))
recover_inflight_lem_example = recover_inflight_lem 20 claimed_queue

enqueue_again_example :
    let (q1, item) = enqueue 6 (shot "s2" "k2") one_capture in
    (find_source "s2" q1 ≡ some item) × (enqueue 9 (shot "s2" "k7") q1 ≡ (q1, item))
enqueue_again_example = enqueue_again 6 9 (shot "s2" "k2") (shot "s2" "k7") one_capture refl

texts_differ : (a b : String) → str_eq a b ≡ false → a ≢ b
texts_differ a b h e = cc (sym h ∙ (eq_iff a b).1 e)

other_source : All (λ r. r.source_fingerprint ≢ "s2") one_capture.rows
unfolding empty enqueue
other_source = (texts_differ "s1" "s2" refl, tt)

enqueue_new_example :
    let c = shot "s2" "k1" in
    let (q1, item) = enqueue 6 c one_capture in
    (length q1.rows ≡ length one_capture.rows + 1)
    × (item.id ≡ one_capture.next_id)
    × (((p : Row) × Member p one_capture.rows
          × IsPrimary c p
          × All (λ b. IsPrimary c b → p.id ≤ b.id) one_capture.rows
          × (item.status ≡ duplicate)
          × (item.retryable ≡ false)
          × (item.dedup_of_id ≡ some p.id))
        ⊎ (All (λ b. ¬ IsPrimary c b) one_capture.rows
            × (item.status ≡ queued)
            × (item.retryable ≡ true)
            × (item.next_attempt_at ≡ some 6)))
enqueue_new_example = enqueue_new 6 (shot "s2" "k1") one_capture other_source
