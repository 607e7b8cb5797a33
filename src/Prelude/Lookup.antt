-- ===== src/Prelude/Lookup.antt =====
-- Queries over a table held as a list of rows: the first match, the least match, and updates.
use mathlib.Core.Path.{◌≡◌, refl, subst}
use mathlib.Core.Logic.{inl, inr}
use mathlib.Core.Bool.{Bool, true, false}
use mathlib.Core.Option.{Option, none, some}
use mathlib.Core.List.{List, [], ◌∷◌, ◌++◌, map}
use native.Mathlib.Omega.{arith}
use vision_qc.Prelude.Tests.{if◌then◌else◌, Bool-cases, Option-cases}
use vision_qc.Prelude.Lists.{
  All, All-imp, Member, Member-map, keep_if, Pairwise, length, length-map,
}

module _ {A : Type 0} where
  -- `SELECT … WHERE p`, at most one row.
  abbrev pub find_first : (A → Bool) → List A → Option A
  find_first p [] = none
  find_first p (x ∷ xs) = let rest = find_first p xs in elim (p x) [ true ↦ some x | false ↦ rest ]

  -- The better of a row and the best so far, where `before` orders them.
  abbrev pub better : (A → A → Bool) → A → Option A → A
  better before x none = x
  better before x (some y) = if before y x then y else x

  -- `SELECT … WHERE p ORDER BY before LIMIT 1`.
  abbrev pub find_least : (A → A → Bool) → (A → Bool) → List A → Option A
  find_least before p [] = none
  find_least before p (x ∷ xs) =
      let rest = find_least before p xs in
      elim (p x) [ true ↦ some (better before x rest) | false ↦ rest ]

  -- `UPDATE … SET f WHERE p`.
  abbrev pub update_where : (A → Bool) → (A → A) → List A → List A
  update_where p f = map (λ r. if p r then f r else r)

  pub find_first-some :
      (p : A → Bool) (xs : List A) {a : A} → find_first p xs ≡ some a → Member a xs × (p a ≡ true)
  find_first-some p [] h = cc
  find_first-some p (x ∷ xs) {a} h = elim (Bool-cases (p x)) [
    | inl e ↦ ground (arith, e)
    | inr e ↦ ground (arith, find_first-some p xs {a = a})
  ]

  pub find_first-none :
      (p : A → Bool) (xs : List A) → find_first p xs ≡ none → All (λ a. p a ≡ false) xs
  find_first-none p [] h = tt
  find_first-none p (x ∷ xs) h = ground (arith, find_first-none p xs)

  pub find_least-some :
      (before : A → A → Bool) (p : A → Bool) (xs : List A) {a : A}
      → find_least before p xs ≡ some a
      → Member a xs × (p a ≡ true)
  find_least-some before p [] h = cc
  find_least-some before p (x ∷ xs) {a} h = elim (Bool-cases (p x)) [
    | inr e ↦ ground (arith, e, find_least-some before p xs {a = a})
    | inl e ↦ elim (Option-cases (find_least before p xs)) [
      | inl n ↦ ground (arith, e, n)
      | inr (y, n) ↦ ground (arith, e, n, find_least-some before p xs {a = y})
    ]
  ]

  pub find_least-none :
      (before : A → A → Bool) (p : A → Bool) (xs : List A)
      → find_least before p xs ≡ none
      → All (λ a. p a ≡ false) xs
  find_least-none before p [] h = tt
  find_least-none before p (x ∷ xs) h = ground (arith, find_least-none before p xs)

  -- A strict order of rows, as an `ORDER BY` clause gives one.
  pub record IsOrder (before : A → A → Bool) : Type 0 where
    pub irrefl : (a : A) → before a a ≡ false
    pub asym : (a b : A) → before a b ≡ true → before b a ≡ false
    pub trans : (a b c : A) → before b a ≡ false → before c b ≡ false → before c a ≡ false

  -- No matching row comes before the one that is found.
  pub find_least-least :
      (before : A → A → Bool) (p : A → Bool)
      → IsOrder before
      → (xs : List A) {a : A} → find_least before p xs ≡ some a
      → All (λ b. p b ≡ true → before b a ≡ false) xs
  find_least-least before p o [] h = tt
  find_least-least before p o (x ∷ xs) {a} h = elim (Bool-cases (p x)) [
    | inr e ↦
        let found : find_least before p xs ≡ some a = ground (arith, e, h) in
        (λ t. cc, find_least-least before p o xs found)
    | inl e ↦ elim (Option-cases (find_least before p xs)) [
      | inl n ↦
          let same : x ≡ a = ground (arith, e, n, h) in
          (
            λ _. subst (λ c. before x c ≡ false) same (o.irrefl x),
            All-imp _ _ xs (λ b q t. cc) (find_least-none before p xs n),
          )
      | inr (y, n) ↦
          let ih : All (λ b. p b ≡ true → before b y ≡ false) xs =
            find_least-least before p o xs n in
          elim (Bool-cases (before y x)) [
            | inl l ↦
                let same : y ≡ a = ground (arith, e, n, l, h) in
                subst (λ c. All (λ b. p b ≡ true → before b c ≡ false) (x ∷ xs)) same
                  (λ _. o.asym y x l, ih)
            | inr l ↦
                let same : x ≡ a = ground (arith, e, n, l, h) in
                subst (λ c. All (λ b. p b ≡ true → before b c ≡ false) (x ∷ xs)) same
                  (λ _. o.irrefl x, All-imp _ _ xs (λ b q t. o.trans x y b l (q t)) ih)
          ]
    ]
  ]

  pub length-update_where :
      (p : A → Bool) (f : A → A) (xs : List A) → length (update_where p f xs) ≡ length xs
  length-update_where p f xs = length-map xs _

  -- A row that the test does not take stays in the table as it is.
  pub Member-update_where_kept :
      (p : A → Bool) (f : A → A) (a : A) (xs : List A)
      → p a ≡ false
      → Member a xs
      → Member a (update_where p f xs)
  Member-update_where_kept p f a xs e m =
      let there = Member-map (λ r. if p r then f r else r) a xs m in rw e at there

  pub Member-update_where_hit :
      (p : A → Bool) (f : A → A) (a : A) (xs : List A)
      → p a ≡ true
      → Member a xs
      → Member (f a) (update_where p f xs)
  Member-update_where_hit p f a xs e m =
      let there = Member-map (λ r. if p r then f r else r) a xs m in rw e at there

  pub find_first-snoc :
      (p : A → Bool) (y : A) (xs : List A)
      → find_first p xs ≡ none
      → p y ≡ true
      → find_first p (xs ++ y ∷ []) ≡ some y
  find_first-snoc p y [] h e = ground (arith, e)
  find_first-snoc p y (x ∷ xs) h e = ground (arith, e, find_first-snoc p y xs)

  pub find_first-All :
      (p : A → Bool) (xs : List A) → All (λ a. p a ≡ false) xs → find_first p xs ≡ none
  find_first-All p [] h = refl
  find_first-All p (x ∷ xs) h = ground (arith, h.0, find_first-All p xs h.1)

  pub Member-keep_if :
      (p : A → Bool) (a : A) (xs : List A) → p a ≡ true → Member a xs → Member a (keep_if p xs)
  Member-keep_if p a [] h m = absurd m
  Member-keep_if p a (x ∷ xs) h (inl e) =
      let hit : p x ≡ true = subst (λ y. p y ≡ true) e h in rw (hit, keep_if) (inl e)
  Member-keep_if p a (x ∷ xs) h (inr m) = elim (Bool-cases (p x)) [
    | inl e ↦ rw (e, keep_if) (inr (Member-keep_if p a xs h m))
    | inr e ↦ rw (e, keep_if) (Member-keep_if p a xs h m)
  ]

  pub All-keep_if :
      (p : A → Bool) (xs : List A) → All (λ a. Member a xs × (p a ≡ true)) (keep_if p xs)
  All-keep_if p [] = tt
  All-keep_if p (x ∷ xs) =
      let rest =
        All-imp _ (λ a. Member a (x ∷ xs) × (p a ≡ true)) (keep_if p xs) (λ a h. (inr h.0, h.1))
          (All-keep_if p xs) in
      elim (Bool-cases (p x)) [
        | inl e ↦ rw (e, keep_if) ((inl refl, e), rest)
        | inr e ↦ rw (e, keep_if) rest
      ]

  All-of_keep : (P : A → Type 0) (p : A → Bool) (xs : List A) → All P xs → All P (keep_if p xs)
  All-of_keep P p [] h = tt
  All-of_keep P p (x ∷ xs) h = ground (arith, All-of_keep P p xs h.1)

  pub Pairwise-keep_if :
      (R : A → A → Type 0) (p : A → Bool) (xs : List A) → Pairwise R xs → Pairwise R (keep_if p xs)
  Pairwise-keep_if R p [] h = tt
  Pairwise-keep_if R p (x ∷ xs) h = elim (Bool-cases (p x)) [
    | inl e ↦ rw (e, keep_if) (All-of_keep (R x) p xs h.0, Pairwise-keep_if R p xs h.1)
    | inr e ↦ rw (e, keep_if) (Pairwise-keep_if R p xs h.1)
  ]

  pub keep_if-nil : (p : A → Bool) (xs : List A) → keep_if p xs ≡ [] → All (λ a. p a ≡ false) xs
  keep_if-nil p [] h = tt
  keep_if-nil p (x ∷ xs) h = ground (arith, keep_if-nil p xs)
