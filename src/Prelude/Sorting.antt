-- ===== src/Prelude/Sorting.antt =====
-- `ORDER BY … LIMIT n` and Python's stable `sorted`: insertion sort by a test `before`.
use Prim.Native.Nat.{ℕ, zero, suc}
use mathlib.Core.Path.{◌≡◌, refl, ap, ◌∙◌}
use mathlib.Core.Logic.{◌⊎◌, inl, inr}
use mathlib.Core.Bool.{Bool, true, false}
use mathlib.Core.List.{List, [], ◌∷◌}
use native.Mathlib.Omega.{arith}
use vision_qc.Prelude.Tests.{Bool-cases}
use vision_qc.Prelude.Lists.{All, All-imp, Member, Pairwise, length, take, count_if}
use vision_qc.Prelude.Lookup.{IsOrder}

module _ {A : Type 0} (before : A → A → Bool) where
  -- Before the first item that must come after it.
  abbrev pub insert_by : A → List A → List A
  insert_by x [] = x ∷ []
  insert_by x (y ∷ ys) =
      let rest = insert_by x ys in elim (before y x) [ true ↦ y ∷ rest | false ↦ x ∷ y ∷ ys ]

  abbrev pub sort_by : List A → List A
  sort_by [] = []
  sort_by (x ∷ xs) = insert_by x (sort_by xs)

  pub All-insert_by :
      (P : A → Type 0) (x : A) (ys : List A) → P x → All P ys → All P (insert_by x ys)
  All-insert_by P x [] p h = (p, tt)
  All-insert_by P x (y ∷ ys) p h = ground (arith, All-insert_by P x ys p h.1)

  pub All-sort_by : (P : A → Type 0) (xs : List A) → All P xs → All P (sort_by xs)
  All-sort_by P [] h = tt
  All-sort_by P (x ∷ xs) h = All-insert_by P x (sort_by xs) h.0 (All-sort_by P xs h.1)

  pub count_if-insert_by :
      (p : A → Bool) (x : A) (ys : List A) → count_if p (insert_by x ys) ≡ count_if p (x ∷ ys)
  count_if-insert_by p x [] = refl
  count_if-insert_by p x (y ∷ ys) = ground (arith, count_if-insert_by p x ys)

  -- Sorting keeps how many items pass any test: it neither loses nor invents an item.
  pub count_if-sort_by : (p : A → Bool) (xs : List A) → count_if p (sort_by xs) ≡ count_if p xs
  count_if-sort_by p [] = refl
  count_if-sort_by p (x ∷ xs) =
      count_if-insert_by p x (sort_by xs) ∙ ground (arith, count_if-sort_by p xs)

  length-insert_by : (x : A) (ys : List A) → length (insert_by x ys) ≡ suc (length ys)
  length-insert_by x [] = refl
  length-insert_by x (y ∷ ys) = ground (arith, length-insert_by x ys)

  pub length-sort_by : (xs : List A) → length (sort_by xs) ≡ length xs
  length-sort_by [] = refl
  length-sort_by (x ∷ xs) = length-insert_by x (sort_by xs) ∙ ap suc (length-sort_by xs)

  -- No item comes before one that stands ahead of it.
  abbrev pub IsSorted : List A → Type 0
  IsSorted = Pairwise (λ a b. before b a ≡ false)

  IsSorted-insert_by :
      IsOrder before → (x : A) (ys : List A) → IsSorted ys → IsSorted (insert_by x ys)
  IsSorted-insert_by o x [] h = (tt, tt)
  IsSorted-insert_by o x (y ∷ ys) h = elim (Bool-cases (before y x)) [
    | inl e ↦
        rw (e, insert_by)
          (
            All-insert_by (λ b. before b y ≡ false) x ys (o.asym y x e) h.0,
            IsSorted-insert_by o x ys h.1,
          )
    | inr e ↦ rw (e, insert_by) ((e, All-imp _ _ ys (λ b k. o.trans x y b e k) h.0), h)
  ]

  pub IsSorted-sort_by : IsOrder before → (xs : List A) → IsSorted (sort_by xs)
  IsSorted-sort_by o [] = tt
  IsSorted-sort_by o (x ∷ xs) = IsSorted-insert_by o x (sort_by xs) (IsSorted-sort_by o xs)

module _ {A : Type 0} (before : A → A → Bool) where
  Member-insert_by :
      (a x : A) (ys : List A) → (a ≡ x) ⊎ Member a ys → Member a (insert_by before x ys)
  Member-insert_by a x [] m = m
  Member-insert_by a x (y ∷ ys) m = elim (Bool-cases (before y x)) [
    | inr e ↦ rw (e, insert_by) m
    | inl e ↦
        rw (e, insert_by)
          (elim m [
            | inl ax ↦ inr (Member-insert_by a x ys (inl ax))
            | inr (inl ay) ↦ inl ay
            | inr (inr k) ↦ inr (Member-insert_by a x ys (inr k))
          ])
  ]

  pub Member-sort_by : (a : A) (xs : List A) → Member a xs → Member a (sort_by before xs)
  Member-sort_by a [] m = absurd m
  Member-sort_by a (x ∷ xs) (inl e) = Member-insert_by a x (sort_by before xs) (inl e)
  Member-sort_by a (x ∷ xs) (inr m) =
      Member-insert_by a x (sort_by before xs) (inr (Member-sort_by a xs m))

  module _ (R : A → A → Type 0) (swap : (a b : A) → R a b → R b a) where
    Pairwise-insert_by :
        (x : A) (ys : List A) → All (R x) ys → Pairwise R ys → Pairwise R (insert_by before x ys)
    Pairwise-insert_by x [] h p = (tt, tt)
    Pairwise-insert_by x (y ∷ ys) h p = elim (Bool-cases (before y x)) [
      | inr e ↦ rw (e, insert_by) (h, p)
      | inl e ↦
          rw (e, insert_by)
            (All-insert_by before (R y) x ys (swap x y h.0) p.0, Pairwise-insert_by x ys h.1 p.1)
    ]

    -- A symmetric relation between all items holds in any order.
    pub Pairwise-sort_by : (xs : List A) → Pairwise R xs → Pairwise R (sort_by before xs)
    Pairwise-sort_by [] p = tt
    Pairwise-sort_by (x ∷ xs) p =
        Pairwise-insert_by x (sort_by before xs) (All-sort_by before (R x) xs p.0)
          (Pairwise-sort_by xs p.1)

pub All-take {ℓ} :
    {A : Type ℓ} (P : A → Type 0) (n : ℕ) (xs : List A) → All P xs → All P (take n xs)
All-take P zero xs h = tt
All-take P (suc n) [] h = tt
All-take P (suc n) (x ∷ xs) h = (h.0, All-take P n xs h.1)

pub Pairwise-take :
    {A : Type 0} (R : A → A → Type 0) (n : ℕ) (xs : List A) → Pairwise R xs → Pairwise R (take n xs)
Pairwise-take R zero xs h = tt
Pairwise-take R (suc n) [] h = tt
Pairwise-take R (suc n) (x ∷ xs) h = (All-take (R x) n xs h.0, Pairwise-take R n xs h.1)
