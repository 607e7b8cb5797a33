-- ===== src/Backend/Release/Rows.antt =====
-- A table of rows with ascending ids, of which at most one in each group is active: what an insert, an
-- UPDATE of one row and the switch of the active row keep.
use vision_qc.Prelude.{
  ℕ, ◌<◌, ◌≤◌, Bool, true, false, List, [], ◌∷◌, ◌++◌, ◌==◌, if◌then◌else◌, ◌≡◌, refl, sym, ap, ◌∙◌,
  subst, ◌⊎◌, inl, inr, All, All-imp, All-map, All-member, Member, Pairwise, Pairwise-snoc,
  update_where, Bool-cases, arith,
}

-- Where a row of an updated table comes from.
pub Member-update_where :
    {A : Type 0} (p : A → Bool) (f : A → A) (s : A) (rows : List A)
    → Member s (update_where p f rows)
    → (r : A) × Member r rows × (((p r ≡ true) × (s ≡ f r)) ⊎ ((p r ≡ false) × (s ≡ r)))
Member-update_where p f s [] m = absurd m
Member-update_where p f s (x ∷ xs) (inl e) = elim (Bool-cases (p x)) [
  | inl h ↦ (x, inl refl, inl (h, rw h at e))
  | inr h ↦ (x, inl refl, inr (h, rw h at e))
]
Member-update_where p f s (x ∷ xs) (inr m) =
    let (r, k, c) = Member-update_where p f s xs m in (r, inr k, c)

module _ {A : Type 0} (id : A → ℕ) where
  abbrev pub Ascending : List A → Type 0
  Ascending rows = Pairwise (λ a b. id a < id b) rows

  abbrev pub Below : ℕ → List A → Type 0
  Below n rows = All (λ r. id r < n) rows

  abbrev pub at_id : ℕ → A → Bool
  at_id i r = id r == i

  pub unique :
      (rows : List A) (a b : A)
      → Ascending rows
      → Member a rows
      → Member b rows
      → id a ≡ id b
      → a ≡ b
  unique [] a b h ma mb e = absurd ma
  unique (x ∷ xs) a b h (inl ea) (inl eb) e = ea ∙ sym eb
  unique (x ∷ xs) a b h (inl ea) (inr mb) e =
      absurd (omega (arith, All-member _ b xs h.0 mb, ap id ea, e))
  unique (x ∷ xs) a b h (inr ma) (inl eb) e =
      absurd (omega (arith, All-member _ a xs h.0 ma, ap id eb, e))
  unique (x ∷ xs) a b h (inr ma) (inr mb) e = unique xs a b h.1 ma mb e

  -- An UPDATE that leaves the ids alone.
  module _ (p : A → Bool) (f : A → A) (keep : (a : A) → id (f a) ≡ id a) where
    id-update : (a : A) → id (if p a then f a else a) ≡ id a
    id-update a = elim (Bool-cases (p a)) [ inl e ↦ rw e (keep a) | inr e ↦ rw e refl ]

    pub Ascending-update_where :
        (rows : List A) → Ascending rows → Ascending (update_where p f rows)
    Ascending-update_where [] h = tt
    Ascending-update_where (x ∷ xs) h = (
      All-map _ _ _ xs (λ b l. omega (arith, id-update x, id-update b, l)) h.0,
      Ascending-update_where xs h.1,
    )

    pub Below-update_where :
        (n : ℕ) (rows : List A) → Below n rows → Below n (update_where p f rows)
    Below-update_where n rows h = All-map _ _ _ rows (λ b l. omega (arith, id-update b, l)) h

  pub Ascending-snoc :
      (rows : List A) (a : A) → Ascending rows → Below (id a) rows → Ascending (rows ++ a ∷ [])
  Ascending-snoc rows a h b = Pairwise-snoc _ rows a h b

  pub Below-imp : (n m : ℕ) (rows : List A) → n ≤ m → Below n rows → Below m rows
  Below-imp n m rows l h = All-imp _ _ rows (λ r k. omega (arith, l, k)) h

  -- Rows of one group are `Same`, and at most one of them is active.
  module _ (is_active : A → Bool) (Same : A → A → Type 0) where
    abbrev pub OneActive : List A → Type 0
    OneActive rows =
        (a b : A)
        → Member a rows
        → Member b rows
        → is_active a ≡ true
        → is_active b ≡ true
        → Same a b
        → a ≡ b

    -- An UPDATE of one row that does not activate it.
    pub OneActive-update_where :
        (i : ℕ) (f : A → A) (rows : List A)
        → ((a : A) → is_active (f a) ≡ false)
        → OneActive rows
        → OneActive (update_where (at_id i) f rows)
    OneActive-update_where i f rows off one a b ma mb aa ab s =
        let (r, mr, cr) = Member-update_where (at_id i) f a rows ma in
        let (t, mt, ct) = Member-update_where (at_id i) f b rows mb in
        elim cr [
          | inl (_, e) ↦ absurd (cc (sym aa ∙ ap is_active e ∙ off r))
          | inr (_, e) ↦ elim ct [
            | inl (_, e') ↦ absurd (cc (sym ab ∙ ap is_active e' ∙ off t))
            | inr (_, e') ↦
                let old_a : Member a rows = subst (λ x. Member x rows) (sym e) mr in
                let old_b : Member b rows = subst (λ x. Member x rows) (sym e') mt in
                one a b old_a old_b aa ab s
          ]
        ]

    pub OneActive-snoc :
        (rows : List A) (x : A) → is_active x ≡ false → OneActive rows → OneActive (rows ++ x ∷ [])
    OneActive-snoc rows x off one a b ma mb aa ab s =
        one a b (old a (rows) ma aa) (old b rows mb ab) aa ab s
      where
        old : (c : A) (ys : List A) → Member c (ys ++ x ∷ []) → is_active c ≡ true → Member c ys
        old c [] (inl e) h = cc (sym h ∙ ap is_active e ∙ off)
        old c [] (inr m) h = absurd m
        old c (y ∷ ys) (inl e) h = inl e
        old c (y ∷ ys) (inr m) h = inr (old c ys m h)
