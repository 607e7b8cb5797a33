-- ===== src/Edge/Queue/Reports.antt =====
-- What `list_items` and `summary` report of the table.
use vision_qc.Prelude.{
  ℕ, ◌≤◌, min, max, true, List, [], ◌∷◌, map, ◌≡◌, refl, ◌⊎◌, All, All-map, Member, Pairwise,
  length, length-map, length-take, length-sort_by, take, keep_if, sort_by, IsOrder,
  IsSorted-sort_by, Pairwise-take, All-take, All-sort_by, All-of_Member, All-keep_if, arith,
}
use vision_qc.Edge.Rows.{failed, rejected, Row, item_of_row}
use vision_qc.Edge.Queue.{
  Queue, before_id, before_recent, is_error, error_entry, list_items, summary,
}

newest_first : IsOrder (λ a b. before_id b a)
newest_first = record {
  irrefl = λ a. ground arith;
  asym = λ a b h. ground arith;
  trans = λ a b c h k. ground arith;
}

before_recent-IsOrder : IsOrder before_recent
before_recent-IsOrder = record {
  irrefl = λ a. ground arith;
  asym = λ a b h. ground arith;
  trans = λ a b c h k. ground arith;
}

pub Pairwise-map_of :
    {A B : Type 0} (R : A → A → Type 0) (S : B → B → Type 0) (g : A → B) (xs : List A)
    → ((a b : A) → R a b → S (g a) (g b))
    → Pairwise R xs
    → Pairwise S (map g xs)
Pairwise-map_of R S g [] f h = tt
Pairwise-map_of R S g (x ∷ xs) f h =
    (All-map (R x) (S (g x)) g xs (λ b. f x b) h.0, Pairwise-map_of R S g xs f h.1)

-- The list holds the newest rows first, between 1 and 500 of them as asked for, or all if there are
-- fewer, and each is read from a row of the table.
pub list_items_lem :
    (limit : ℕ) (q : Queue)
    → let items = list_items limit q in
      (length items ≡ min (max 1 (min limit 500)) (length q.rows))
      × Pairwise (λ a b. b.id ≤ a.id) items
      × All (λ a. (r : Row) × Member r q.rows × (a ≡ item_of_row r)) items
unfolding list_items item_of_row
list_items_lem limit q =
    let n = max 1 (min limit 500) in
    let sorted = sort_by (λ a b. before_id b a) q.rows in
    (
      omega (
        arith,
        length-map (take n sorted) item_of_row,
        length-take {0} n sorted,
        length-sort_by (λ a b. before_id b a) q.rows,
      ),
      Pairwise-map_of _ _ item_of_row (take n sorted) (λ a b h. ground arith)
          (Pairwise-take _ n sorted (IsSorted-sort_by _ newest_first q.rows)),
      All-map (λ r. Member r q.rows) _ item_of_row (take n sorted) (λ r m. (r, m, refl))
          (All-take _ n sorted (All-sort_by _ _ q.rows (All-of_Member _ q.rows (λ r m. m)))),
    )

-- The report of recent errors holds 50 entries at most, the latest change first, and each is of a
-- rejected or failed row of the table.
pub summary_errors :
    (recent : ℕ) (q : Queue)
    → let errors = (summary recent q).recent_errors in
      (length errors ≤ 50)
      × Pairwise (λ a b. b.updated_at ≤ a.updated_at) errors
      × All
          (λ e.
            (r : Row) × Member r q.rows
            × ((r.status ≡ rejected) ⊎ (r.status ≡ failed))
            × (e ≡ error_entry r))
          errors
unfolding summary
summary_errors recent q =
    let n = max 1 (min recent 50) in
    let kept = keep_if is_error q.rows in
    let sorted = sort_by before_recent kept in
    (
      omega (arith, length-map (take n sorted) error_entry, length-take {0} n sorted),
      Pairwise-map_of _ _ error_entry (take n sorted) (λ a b h. ground arith)
          (Pairwise-take _ n sorted (IsSorted-sort_by _ before_recent-IsOrder kept)),
      All-map (λ r. Member r q.rows × (is_error r ≡ true)) _ error_entry (take n sorted)
          (λ r h. (r, h.0, ground arith, refl))
          (All-take _ n sorted (All-sort_by _ _ kept (All-keep_if is_error q.rows))),
    )
