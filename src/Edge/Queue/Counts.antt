-- ===== src/Edge/Queue/Counts.antt =====
-- Counts over the rows of the queue, as an UPDATE of one row moves them.
use vision_qc.Prelude.{
  ℕ, ◌+◌, ◌<◌, Bool, true, false, List, [], ◌∷◌, ◌≡◌, refl, sym, ap, subst, inl, inr, Bool-cases,
  arith, All, All-member, All-imp, Member, Pairwise, count_if, update_where,
}
use vision_qc.Edge.Rows.{Row}
use vision_qc.Edge.Queue.{has_id}

abbrev pub as_number : Bool → ℕ
as_number true = 1
as_number false = 0

count-head :
    (p : Row → Bool) (x : Row) (xs : List Row)
    → count_if p (x ∷ xs) ≡ as_number (p x) + count_if p xs
count-head p x xs = elim (Bool-cases (p x)) [
  | inl e ↦ ground (arith, e)
  | inr e ↦ ground (arith, e)
]

update-others :
    (i : ℕ) (f : Row → Row) (rows : List Row)
    → All (λ a. has_id i a ≡ false) rows
    → update_where (has_id i) f rows ≡ rows
update-others i f [] h = refl
update-others i f (x ∷ xs) h = rw (h.0, update-others i f xs h.1) refl

-- An UPDATE of one row moves a count by what it does to that row.
pub count-update_where :
    (p : Row → Bool) (f : Row → Row) (r : Row) (rows : List Row)
    → Pairwise (λ a b. a.id < b.id) rows
    → Member r rows
    → count_if p (update_where (has_id r.id) f rows) + as_number (p r)
      ≡ count_if p rows + as_number (p (f r))
count-update_where p f r [] h m = absurd m
count-update_where p f r (x ∷ xs) h (inl e) =
    subst
      (λ (a : Row).
        count_if p (update_where (has_id a.id) f (x ∷ xs)) + as_number (p a)
        ≡ count_if p (x ∷ xs) + as_number (p (f a)))
      (sym e) at_head
  where
    hit : has_id x.id x ≡ true
    hit = ground arith

    at_head :
        count_if p (update_where (has_id x.id) f (x ∷ xs)) + as_number (p x)
        ≡ count_if p (x ∷ xs) + as_number (p (f x))
    at_head =
        let others = update-others x.id f xs (All-imp _ _ xs (λ (a : Row) l. ground arith) h.0) in
        let first : update_where (has_id x.id) f (x ∷ xs) ≡ f x ∷ xs =
          rw hit (ap (◌∷◌ (f x)) others) in
        omega (arith, ap (count_if p) first, count-head p (f x) xs, count-head p x xs)
count-update_where p f r (x ∷ xs) h (inr m) =
    let miss : has_id r.id x ≡ false = ground (arith, All-member _ r xs h.0 m) in
    let rest = count-update_where p f r xs h.1 m in
    rw miss
      (omega (arith, count-head p x (update_where (has_id r.id) f xs), count-head p x xs, rest))

pub count_none :
    (p : Row → Bool) (rows : List Row) → All (λ r. ¬ (p r ≡ true)) rows → count_if p rows ≡ 0
count_none p [] h = refl
count_none p (x ∷ xs) h = ground (arith, h.0, count_none p xs h.1)
