-- ===== src/Edge/Queue/Invariant.antt =====
-- The invariant of the queue table, and how an UPDATE and an INSERT keep it.
use vision_qc.Prelude.{
  suc, ◌<◌, String, some, true, false, List, [], ◌∷◌, ◌++◌, map, ◌≡◌, ◌≢◌, is_some, All, All-map,
  All-imp, All-snoc, All-of_Member, All-member, Member, Member-map, Member-snoc_old, Pairwise,
  Pairwise-map, Pairwise-snoc, arith,
}
use vision_qc.Edge.Rows.{queued, uploading, uploaded, rejected, duplicate, Row}
use vision_qc.Edge.Queue.{Queue}

-- What the columns of one row say together.
pub record IsSound (r : Row) : Type 0 where
  pub waiting_retries : r.status ≡ queued → r.retryable ≡ true
  pub inflight_tried : r.status ≡ uploading → (r.retryable ≡ true) × (0 < r.attempts)
  pub uploaded_named :
      r.status ≡ uploaded → (r.retryable ≡ false) × (is_some r.inspection_id ≡ true)
  pub rejected_final : r.status ≡ rejected → r.retryable ≡ false
  pub duplicate_final : r.status ≡ duplicate → r.retryable ≡ false

-- Two live rows for one tenant and idempotency key: two uploads of one capture.
abbrev pub IsRival : Row → Row → Type 0
IsRival a b =
    (k : String) × (a.status ≢ duplicate)
    × (b.status ≢ duplicate)
    × (a.tenant_id ≡ b.tenant_id)
    × (a.idempotency_key ≡ some k)
    × (b.idempotency_key ≡ some k)

-- A duplicate names a row of the table that is live and has its tenant and key.
abbrev pub IsLinked : List Row → Row → Type 0
IsLinked rows r =
    r.status ≡ duplicate
    → (p : Row) × Member p rows
      × (r.dedup_of_id ≡ some p.id)
      × (p.status ≢ duplicate)
      × (p.tenant_id ≡ r.tenant_id)
      × (p.idempotency_key ≡ r.idempotency_key)

pub record IsValid (q : Queue) : Type 0 where
  pub ids_below : All (λ r. r.id < q.next_id) q.rows
  pub ascending : Pairwise (λ a b. a.id < b.id) q.rows
  pub sources_differ : Pairwise (λ a b. a.source_fingerprint ≢ b.source_fingerprint) q.rows
  pub no_rivals : Pairwise (λ a b. ¬ IsRival a b) q.rows
  pub sound : All IsSound q.rows
  pub linked : All (IsLinked q.rows) q.rows

-- What an UPDATE may do to a row: it leaves the identity of the row alone.
pub record Keeps (r s : Row) : Type 0 where
  pub id : s.id ≡ r.id
  pub source : s.source_fingerprint ≡ r.source_fingerprint
  pub tenant : s.tenant_id ≡ r.tenant_id
  pub key : s.idempotency_key ≡ r.idempotency_key
  pub link : s.dedup_of_id ≡ r.dedup_of_id
  pub still_duplicate : r.status ≡ duplicate → s.status ≡ duplicate
  pub no_new_duplicate : s.status ≡ duplicate → r.status ≡ duplicate
  pub sound : IsSound r → IsSound s

module _ (g : Row → Row) where
  IsLinked-after :
      (rows : List Row) (r : Row)
      → ((a : Row) → Member a rows → Keeps a (g a))
      → Member r rows
      → IsLinked rows r
      → IsLinked (map g rows) (g r)
  IsLinked-after rows r keep m h d =
      let k = keep r m in
      let (p, mp, e, live, t, key) = h (k.no_new_duplicate d) in
      let kp = keep p mp in
      (
        g p,
        Member-map g p rows mp,
        ground (arith, k, kp, e),
        λ gd. live (kp.no_new_duplicate gd),
        ground (arith, k, kp, t),
        ground (arith, k, kp, key),
      )

  pub update-IsValid :
      (q : Queue)
      → ((r : Row) → Member r q.rows → Keeps r (g r))
      → IsValid q
      → IsValid (record q { rows = map g q.rows })
  update-IsValid q keep v =
      let kept : All (λ r. Keeps r (g r)) q.rows = All-of_Member _ q.rows keep in
      record {
        ids_below =
            All-map (λ r. Keeps r (g r) × (r.id < q.next_id)) _ g q.rows (λ r h. rw (h.0).id h.1)
              (All-of_Member _ q.rows λ r m. (keep r m, All-member _ r q.rows v.ids_below m));
        ascending =
            Pairwise-map _ _ g q.rows (λ a b ka kb h. ground (arith, ka, kb)) kept v.ascending;
        sources_differ =
            Pairwise-map _ _ g q.rows (λ a b ka kb h e. h (ground (arith, ka, kb, e))) kept
              v.sources_differ;
        no_rivals =
            Pairwise-map _ _ g q.rows
              (λ a b ka kb h rival. h (
                rival.0,
                λ d. rival.1 (ka.still_duplicate d),
                λ d. rival.2 (kb.still_duplicate d),
                ground (arith, ka, kb, rival.3),
                ground (arith, ka, rival.4),
                ground (arith, kb, rival.5),
              ))
              kept v.no_rivals;
        sound =
            All-map (λ r. Keeps r (g r) × IsSound r) _ g q.rows (λ r h. (h.0).sound h.1)
              (All-of_Member _ q.rows λ r m. (keep r m, All-member _ r q.rows v.sound m));
        linked =
            All-map (λ r. IsLinked (map g q.rows) (g r)) _ g q.rows (λ r h. h)
              (All-of_Member _ q.rows
                λ r m. IsLinked-after q.rows r keep m (All-member _ r q.rows v.linked m));
      }

IsLinked-more : (rows : List Row) (r new : Row) → IsLinked rows r → IsLinked (rows ++ new ∷ []) r
IsLinked-more rows r new h d =
    let (p, m, e, live, t, key) = h d in (p, Member-snoc_old p new rows m, e, live, t, key)

pub insert-IsValid :
    (q : Queue) (r : Row)
    → r.id ≡ q.next_id
    → All (λ a. a.source_fingerprint ≢ r.source_fingerprint) q.rows
    → All (λ a. ¬ IsRival a r) q.rows
    → IsSound r
    → IsLinked q.rows r
    → IsValid q
    → IsValid (record q { rows = q.rows ++ r ∷ []; next_id = suc q.next_id })
insert-IsValid q r e new alone ok link v = record {
  ids_below =
      All-snoc _ q.rows r (All-imp _ _ q.rows (λ a h. omega arith) v.ids_below) (omega arith);
  ascending =
      Pairwise-snoc _ q.rows r v.ascending (All-imp _ _ q.rows (λ a h. omega arith) v.ids_below);
  sources_differ = Pairwise-snoc _ q.rows r v.sources_differ new;
  no_rivals = Pairwise-snoc _ q.rows r v.no_rivals alone;
  sound = All-snoc _ q.rows r v.sound ok;
  linked =
      All-snoc _ q.rows r (All-imp _ _ q.rows (λ a h. IsLinked-more q.rows a r h) v.linked)
        (IsLinked-more q.rows r r link);
}
