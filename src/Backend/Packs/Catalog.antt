-- ===== src/Backend/Packs/Catalog.antt =====
-- The catalog of an accepted manifest is unambiguous.
use vision_qc.Prelude.{
  String, none, some, Bool, true, false, List, [], ◌∷◌, ◌++◌, ◌≡◌, refl, subst, ◌≢◌, inl, inr, All,
  Member, str_eq, eq_iff, any_of, find_first, Bool-cases, arith,
}
use vision_qc.Backend.Packs.{
  ProductDefinition, DeploymentManifest, ManifestError, first_failure, manifest_checks, has_repeat,
  values_of, all_values, validate_manifest, product_matches, resolve_product,
}

any_of-Member : (v : String) (vs : List String) → any_of (str_eq v) vs ≡ true → Member v vs
any_of-Member v [] h = cc
any_of-Member v (x ∷ xs) h = elim (Bool-cases (str_eq v x)) [
  | inl e ↦ inl ((eq_iff v x).0 e)
  | inr e ↦ inr (any_of-Member v xs (ground (arith, e, h)))
]

pub Member-any_of : (v : String) (vs : List String) → Member v vs → any_of (str_eq v) vs ≡ true
Member-any_of v [] m = absurd m
Member-any_of v (x ∷ xs) (inl e) = ground (arith, (eq_iff v x).1 e)
Member-any_of v (x ∷ xs) (inr m) = ground (arith, Member-any_of v xs m)

-- What stands in front of a list without repetitions does not stand in it.
pub repeat_head : (v : String) (vs : List String) → has_repeat (v ∷ vs) ≡ false → ¬ Member v vs
repeat_head v vs h m = ground (arith, h, Member-any_of v vs m)

pub repeat_tail :
    (v : String) (vs : List String) → has_repeat (v ∷ vs) ≡ false → has_repeat vs ≡ false
repeat_tail v vs h = ground (arith, h)

Member-append_right : (v : String) (xs ys : List String) → Member v ys → Member v (xs ++ ys)
Member-append_right v [] ys m = m
Member-append_right v (x ∷ xs) ys m = inr (Member-append_right v xs ys m)

repeat_apart :
    (v : String) (xs ys : List String)
    → has_repeat (xs ++ ys) ≡ false
    → Member v xs
    → Member v ys
    → ⊥
repeat_apart v [] ys h m n = m
repeat_apart v (x ∷ xs) ys h (inl e) n =
    repeat_head x (xs ++ ys) h (subst (λ w. Member w (xs ++ ys)) e (Member-append_right v xs ys n))
repeat_apart v (x ∷ xs) ys h (inr m) n = repeat_apart v xs ys (repeat_tail x (xs ++ ys) h) m n

repeat_rest : (xs ys : List String) → has_repeat (xs ++ ys) ≡ false → has_repeat ys ≡ false
repeat_rest [] ys h = h
repeat_rest (x ∷ xs) ys h = repeat_rest xs ys (repeat_tail x (xs ++ ys) h)

Member-all_values :
    (v : String) (p : ProductDefinition) (ps : List ProductDefinition)
    → Member p ps
    → Member v (values_of p)
    → Member v (all_values ps)
Member-all_values v p [] m n = absurd m
Member-all_values v p (x ∷ xs) (inl e) n =
    left (values_of x) (subst (λ q. Member v (values_of q)) e n)
  where
    left : (ws : List String) → Member v ws → Member v (ws ++ all_values xs)
    left [] k = absurd k
    left (w ∷ ws) (inl k) = inl k
    left (w ∷ ws) (inr k) = inr (left ws k)
Member-all_values v p (x ∷ xs) (inr m) n =
    Member-append_right v (values_of x) (all_values xs) (Member-all_values v p xs m n)

matches_own :
    (v : String) (p : ProductDefinition) → Member v (values_of p) → product_matches v p ≡ true
matches_own v p (inl e) = ground (arith, (eq_iff v p.code).1 e)
matches_own v p (inr m) = ground (arith, Member-any_of v p.aliases m)

matches_other :
    (v : String) (p : ProductDefinition)
    → p.code ≢ "*"
    → ¬ Member v (values_of p)
    → product_matches v p ≡ false
matches_other v p star out = elim (Bool-cases (product_matches v p)) [
  | inr e ↦ e
  | inl e ↦ elim (Bool-cases (str_eq p.code "*")) [
    | inl s ↦ absurd (star ((eq_iff p.code "*").0 s))
    | inr s ↦ elim (Bool-cases (str_eq v p.code)) [
      | inl c ↦ absurd (out (inl ((eq_iff v p.code).0 c)))
      | inr c ↦ absurd (out (inr (any_of-Member v p.aliases (ground (arith, e, s, c)))))
    ]
  ]
]

find_owner :
    (v : String) (p : ProductDefinition) (ps : List ProductDefinition)
    → has_repeat (all_values ps) ≡ false
    → All (λ q. q.code ≢ "*") ps
    → Member p ps
    → Member v (values_of p)
    → find_first (product_matches v) ps ≡ some p
find_owner v p [] h star m n = absurd m
find_owner v p (x ∷ xs) h star (inl e) n =
    let hit : product_matches v x ≡ true =
      matches_own v x (subst (λ q. Member v (values_of q)) e n) in
    ground (arith, hit, e)
find_owner v p (x ∷ xs) h star (inr m) n =
    let miss : product_matches v x ≡ false =
      matches_other v x star.0
        λ k. repeat_apart v (values_of x) (all_values xs) h k (Member-all_values v p xs m n) in
    ground (arith, miss, find_owner v p xs (repeat_rest (values_of x) (all_values xs) h) star.1 m n)

first_failure-none :
    (l : List (Bool × ManifestError)) → first_failure l ≡ none → All (λ c. c.0 ≡ false) l
first_failure-none [] h = tt
first_failure-none ((true, e) ∷ l) h = cc
first_failure-none ((false, e) ∷ l) h = (refl, first_failure-none l h)

pub accepted :
    (m : DeploymentManifest)
    → validate_manifest m ≡ none
    → All (λ c. c.0 ≡ false) (manifest_checks m)
unfolding validate_manifest
accepted m h = first_failure-none (manifest_checks m) h

-- In a manifest that the validators accept, and of whose products none is the wildcard `*`, a value
-- that is the code or an alias of a product resolves to that product, wherever it stands in the list.
pub resolve_product_lem :
    (m : DeploymentManifest)
    → validate_manifest m ≡ none
    → All (λ q. q.code ≢ "*") m.products
    → (v : String) (p : ProductDefinition) → Member p m.products
    → Member v (values_of p)
    → resolve_product m v ≡ some p
unfolding resolve_product
resolve_product_lem m h star v p k n = find_owner v p m.products (accepted m h).1.1.1.1.1.0 star k n
