-- ===== src/Backend/Release/Switching.antt =====
-- The switch of the active row of a group: what `activate_qualification`, `rollback_qualification` and
-- `activate_deployment` of backend/app/services.py do to their tables.
use vision_qc.Prelude.{
  ℕ, none, some, Bool, true, false, List, ◌==◌, if◌then◌else◌, ◌≡◌, ◌≢◌, refl, sym, ap, ◌∙◌, subst,
  ◌⊎◌, inl, inr, All-member, Member, find_first, find_first-some, find_first-none, update_where,
  ==→eq, Bool-cases, Option-cases, arith,
}
use vision_qc.Backend.Release.Rows.{
  Member-update_where, Ascending, at_id, unique, Ascending-update_where, OneActive,
}

-- `current.status = …` on the active row of the group, unless it is the row `i` itself.
abbrev pub retire_current : {A : Type 0} → (A → ℕ) → (A → Bool) → (A → A) → ℕ → List A → List A
retire_current id live retire i rows = elim (find_first live rows) [
  | none ↦ rows
  | some c ↦ if id c == i then rows else update_where (at_id id (id c)) retire rows
]

module _ {A : Type 0} (id : A → ℕ) (live : A → Bool) (retire : A → A) (i : ℕ) (rows : List A) where
  pub retire_none : find_first live rows ≡ none → retire_current id live retire i rows ≡ rows
  retire_none n = rw (n, retire_current) refl

  pub retire_self :
      {c : A}
      → find_first live rows ≡ some c
      → (id c == i) ≡ true
      → retire_current id live retire i rows ≡ rows
  retire_self n e = rw (n, e, retire_current) refl

  pub retire_other :
      {c : A}
      → find_first live rows ≡ some c
      → (id c == i) ≡ false
      → retire_current id live retire i rows ≡ update_where (at_id id (id c)) retire rows
  retire_other n e = rw (n, e, retire_current) refl

-- The switch of a group to the row `q`.
module _ {A K : Type 0} (id : A → ℕ) (is_active : A → Bool) (key : A → K) (live : A → Bool)
    (retire activate : A → A) (q : A)
    (live_iff : (a : A) → live a ≡ true → (key a ≡ key q) × (is_active a ≡ true))
    (live_if : (a : A) → key a ≡ key q → is_active a ≡ true → live a ≡ true)
    (retire_off : (a : A) → is_active (retire a) ≡ false)
    (retire_id : (a : A) → id (retire a) ≡ id a) (retire_key : (a : A) → key (retire a) ≡ key a)
    (activate_id : (a : A) → id (activate a) ≡ id a)
    (activate_key : (a : A) → key (activate a) ≡ key a) where
  abbrev Same : A → A → Type 0
  Same a b = key a ≡ key b

  -- What is left of a row when the current one is retired.
  retired_from :
      (rows : List A) (a : A)
      → Member a (retire_current id live retire (id q) rows)
      → (r : A) × Member r rows × (id a ≡ id r) × (key a ≡ key r) × (is_active a ≡ true → a ≡ r)
  retired_from rows a m = elim (Option-cases (find_first live rows)) [
    | inl n ↦
        (a, subst (Member a) (retire_none id live retire (id q) rows n) m, refl, refl, λ _. refl)
    | inr (c, n) ↦ elim (Bool-cases (id c == id q)) [
      | inl e ↦ (
        a,
        subst (Member a) (retire_self id live retire (id q) rows n e) m,
        refl,
        refl,
        λ _. refl,
      )
      | inr e ↦
          let (r, k, from) =
            Member-update_where (at_id id (id c)) retire a rows
              (subst (Member a) (retire_other id live retire (id q) rows n e) m) in
          elim from [
            | inl (_, same) ↦ (
              r,
              k,
              ap id same ∙ retire_id r,
              ap key same ∙ retire_key r,
              λ on. absurd (cc (sym on ∙ ap is_active same ∙ retire_off r)),
            )
            | inr (_, same) ↦ (r, k, ap id same, ap key same, λ _. same)
          ]
    ]
  ]

  -- No other row of the group is active any more.
  retired_alone :
      (rows : List A)
      → OneActive id is_active Same rows
      → (a : A) → Member a (retire_current id live retire (id q) rows)
      → is_active a ≡ true
      → key a ≡ key q
      → id a ≡ id q
  retired_alone rows one a m on same = elim (Option-cases (find_first live rows)) [
    | inl n ↦ absurd (
        cc (
          sym (live_if a same on)
          ∙ All-member _ a rows (find_first-none live rows n)
              (subst (Member a) (retire_none id live retire (id q) rows n) m)))
    | inr (c, n) ↦
        let (mc, lc) = find_first-some live rows n in
        let (kc, ac) = live_iff c lc in
        elim (Bool-cases (id c == id q)) [
          | inl e ↦
              let same_row : a ≡ c =
                one a c (subst (Member a) (retire_self id live retire (id q) rows n e) m) mc on ac
                  (same ∙ sym kc) in
              ap id same_row ∙ ==→eq (id c) (id q) e
          | inr e ↦
              let (r, k, from) =
                Member-update_where (at_id id (id c)) retire a rows
                  (subst (Member a) (retire_other id live retire (id q) rows n e) m) in
              elim from [
                | inl (_, gone) ↦ absurd (cc (sym on ∙ ap is_active gone ∙ retire_off r))
                | inr (miss, kept) ↦
                    let old : Member a rows = subst (λ x. Member x rows) (sym kept) k in
                    let same_row : a ≡ c = one a c old mc on ac (same ∙ sym kc) in
                    absurd (ground (arith, miss, ap id (sym kept ∙ same_row)))
              ]
        ]
  ]

  abbrev pub switched : List A → List A
  switched rows =
      update_where (at_id id (id q)) activate (retire_current id live retire (id q) rows)

  pub retired-Ascending :
      (rows : List A) → Ascending id rows → Ascending id (retire_current id live retire (id q) rows)
  retired-Ascending rows h = elim (Option-cases (find_first live rows)) [
    | inl n ↦ subst (Ascending id) (sym (retire_none id live retire (id q) rows n)) h
    | inr (c, n) ↦ elim (Bool-cases (id c == id q)) [
      | inl e ↦ subst (Ascending id) (sym (retire_self id live retire (id q) rows n e)) h
      | inr e ↦
          subst (Ascending id) (sym (retire_other id live retire (id q) rows n e))
            (Ascending-update_where id (at_id id (id c)) retire retire_id rows h)
    ]
  ]

  pub switched-Ascending : (rows : List A) → Ascending id rows → Ascending id (switched rows)
  switched-Ascending rows h =
      Ascending-update_where id (at_id id (id q)) activate activate_id _ (retired-Ascending rows h)

  -- Where a row of the switched table comes from: the row `q`, activated, or another row, which is
  -- active only if it was active as it is and is of another group.
  pub switched_from :
      (rows : List A)
      → Ascending id rows
      → OneActive id is_active Same rows
      → Member q rows
      → (a : A) → Member a (switched rows)
      → ((id a ≡ id q) × (key a ≡ key q))
        ⊎ ((id a ≢ id q) × (is_active a ≡ true → Member a rows × (key a ≢ key q)))
  switched_from rows asc one mq a m =
      let (r, k, from) = Member-update_where (at_id id (id q)) activate a _ m in
      let (o, ko, ido, keyo, kept) = retired_from rows r k in
      elim from [
        | inl (hit, same) ↦
            let idq : id r ≡ id q = ==→eq (id r) (id q) hit in
            let home : o ≡ q = unique id rows o q asc ko mq (sym ido ∙ idq) in
            inl
              (ap id same ∙ activate_id r ∙ idq, ap key same ∙ activate_key r ∙ keyo ∙ ap key home)
        | inr (miss, same) ↦ inr (
          λ e. ground (arith, miss, ap id same, e),
          λ on.
              let on_r : is_active r ≡ true = sym (ap is_active same) ∙ on in
              (
                subst (λ x. Member x rows) (sym (same ∙ kept on_r)) ko,
                λ e. ground (arith, miss, retired_alone rows one r k on_r (sym (ap key same) ∙ e)),
              ),
        )
      ]

  pub switched-OneActive :
      (rows : List A)
      → Ascending id rows
      → OneActive id is_active Same rows
      → Member q rows
      → OneActive id is_active Same (switched rows)
  switched-OneActive rows asc one mq a b ma mb aa ab s = elim (switched_from rows asc one mq a ma) [
    | inl (ia, ka) ↦ elim (switched_from rows asc one mq b mb) [
      | inl (ib, kb) ↦
          unique id (switched rows) a b (switched-Ascending rows asc) ma mb (ia ∙ sym ib)
      | inr (ib, old) ↦ absurd ((old ab).1 (sym s ∙ ka))
    ]
    | inr (ia, old) ↦ elim (switched_from rows asc one mq b mb) [
      | inl (ib, kb) ↦ absurd ((old aa).1 (s ∙ kb))
      | inr (ib, old') ↦ one a b (old aa).0 (old' ab).0 aa ab s
    ]
  ]
