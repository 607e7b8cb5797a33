-- ===== src/Backend/Release/Datasets/Runs.antt =====
-- The life of the registered datasets, over any calls.
use vision_qc.Prelude.{
  ℕ, String, Option, Bool, true, false, List, [], ◌∷◌, ◌++◌, ◌==◌, ◌≡◌, refl, sym, ap, ◌∙◌, subst,
  inl, inr, All, All-snoc, All-map, All-member, All-of_Member, Member, Pairwise, Pairwise-snoc,
  any_of, is_some, update_where, Bool-cases, Option-cases, find_first-some, Pairwise-map,
  if◌then◌else◌, Member-update_where_kept, Member-update_where_hit, Member-snoc_old, arith,
}
use vision_qc.Backend.Calls.{ok, pure, ◌>>=◌, ◌>>◌}
use vision_qc.Backend.Calls.Ensuring.{
  Ensures, ensures, Ensures-ok, Ensures-gets, Ensures-or_raise, Ensures-guard, Ensures-bind,
  Ensures-pure, Ensures-then,
}
use vision_qc.Backend.Calls.Ensuring.Reading.{
  reading, Still, Ensures-skip, Ensures-still, Still-or_raise, Still-guard,
}
use vision_qc.Backend.Workflow.Tables.{Principal}
use vision_qc.Backend.Release.Tables.{
  customer_pilot, demo_synthetic, source_eq, validated, revoked, dataset_status_eq, Dataset,
  Registry, audit,
}
use vision_qc.Backend.Release.Qualifications.{is_consented}
use vision_qc.Backend.Release.Deployments.{
  revoked_dataset, edit_dataset, revoke_dataset_registration,
}
use vision_qc.Backend.Release.Datasets.{
  DatasetRequest, Inspected, Depot, check_roots, is_own, new_dataset, clash, insert_dataset,
  store_dataset, register_dataset,
}
use vision_qc.Backend.Release.Refines.{negated}
use vision_qc.Backend.Release.Refines.Filings.{tenant-Still}

-- What one row says: no demonstration data; a pilot's dataset is validated with its customer's consent
-- for this tenant; a revoked one names who revoked it.
pub record IsSound (d : Dataset) : Type 0 where
  pub imported : source_eq d.source_type demo_synthetic ≡ false
  pub licensed :
      dataset_status_eq d.status validated ≡ true
      → source_eq d.source_type customer_pilot ≡ true
      → is_consented d.tenant_id d ≡ true
  pub signed : dataset_status_eq d.status revoked ≡ true → is_some d.revoked_by ≡ true

-- A row that is registered or revoked.
pub data Change (rows rows' : List Dataset) : Type 0 where
  same : rows' ≡ rows → Change rows rows'
  added :
      (d : Dataset)
      → IsSound d
      → any_of (clash d) rows ≡ false
      → rows' ≡ rows ++ d ∷ []
      → Change rows rows'
  struck :
      (d : Dataset) (actor : String)
      → Member d rows
      → dataset_status_eq d.status revoked ≡ false
      → rows' ≡ update_where (λ r. r.id == d.id) (revoked_dataset actor) rows
      → Change rows rows'

new_dataset-IsSound :
    (depot : Depot) (tenant : String) (r : DatasetRequest) (x : Inspected)
    → source_eq r.source_type demo_synthetic ≡ false
    → is_own tenant r.customer_provenance ≡ true
    → IsSound (new_dataset depot tenant r x)
new_dataset-IsSound depot tenant r x imported own = elim (Option-cases r.customer_provenance) [
  | inl e ↦ record {
    imported = imported;
    licensed = λ v k. ground (arith, v, k, e);
    signed = λ h. ground (arith, h);
  }
  | inr (c, e) ↦ record {
    imported = imported;
    licensed = λ v k. ground (arith, v, k, e, own);
    signed = λ h. ground (arith, h);
  }
]

roots-Still :
    (depot : Depot) (upload : Option String) (path : String) → Still (check_roots depot upload path)
unfolding check_roots
roots-Still depot upload path = search reading depth 20

insert-Change :
    {s : Registry} (d : Dataset) (tenant actor action kind correlation : String)
    → IsSound d
    → Ensures s
        (insert_dataset d >>= λ x. audit tenant actor action kind x.id correlation >> pure x)
        (λ _ s'. Change s.datasets s'.datasets)
unfolding insert_dataset audit
insert-Change {s} d tenant actor action kind correlation sound =
    Ensures-bind (elim (Bool-cases (any_of (clash d) s.datasets)) [
      | inl e ↦ ensures (rw e tt)
      | inr e ↦ ensures (rw e (Ensures-then (ensures (Ensures-pure d (added d sound e refl)))))
    ])

store_dataset-Change :
    (depot : Depot) (p : Principal) (r : DatasetRequest) (path correlation : String) (x : Inspected)
    (s : Registry)
    → IsSound (new_dataset depot p.tenant_id r x)
    → Ensures s (store_dataset depot p r path correlation x) (λ _ s'. Change s.datasets s'.datasets)
unfolding store_dataset
store_dataset-Change depot p r path correlation x s sound =
    Ensures-skip (Still-guard _ _)
      (Ensures-skip (Still-guard _ _) (insert-Change _ _ _ _ _ _ sound))

register_dataset-Change :
    (depot : Depot) (p : Principal) (r : DatasetRequest) (upload : Option String)
    (correlation : String) (s : Registry)
    → Ensures s
        (register_dataset depot p r upload correlation)
        (λ _ s'. Change s.datasets s'.datasets)
unfolding register_dataset
register_dataset-Change depot p r upload correlation s = Ensures-skip (tenant-Still p) (
    Ensures-then (
      Ensures-guard _ _ λ imported. Ensures-still (Still-or_raise _ _) λ path.
        Ensures-skip (roots-Still depot upload path) (
          Ensures-then (
            Ensures-guard _ _ λ own.
              Ensures-still (Still-or_raise (depot.inspect path r.source_type r.category) _) λ x.
                store_dataset-Change depot p r path correlation x s
                  (new_dataset-IsSound depot p.tenant_id r x (negated _ imported) own)))))

revoke-Change :
    (p : Principal) (i : ℕ) (correlation : String) (s : Registry)
    → Ensures s
        (revoke_dataset_registration p i correlation)
        (λ _ s'. Change s.datasets s'.datasets)
unfolding revoke_dataset_registration edit_dataset audit
revoke-Change p i correlation s = Ensures-bind (
    Ensures-gets _ (
      Ensures-bind (
        Ensures-or_raise _ _ λ d found. Ensures-then (
          Ensures-guard _ _ λ h. Ensures-then (
            ensures (
              Ensures-then (
                ensures (
                  Ensures-pure _ (
                    struck d p.actor_id (find_first-some _ s.datasets found).0
                      (negated (dataset_status_eq d.status revoked) h) refl)))))))))

-- The invariant of the table: every row is sound, and no two share an id, or tenant and fingerprint.
pub record IsLicensed (rows : List Dataset) : Type 0 where
  pub sound : All IsSound rows
  pub distinct : Pairwise (λ a b. clash b a ≡ false) rows

revoked-IsSound : (actor : String) (d : Dataset) → IsSound d → IsSound (revoked_dataset actor d)
revoked-IsSound actor d v = record {
  imported = v.imported;
  licensed = λ h. ground (arith, h);
  signed = λ _. refl;
}

strike-IsSound :
    (b : Bool) (actor : String) (d : Dataset)
    → IsSound d
    → IsSound (if b then revoked_dataset actor d else d)
strike-IsSound true actor d v = revoked-IsSound actor d v
strike-IsSound false actor d v = v

strike-clash :
    (b c : Bool) (actor : String) (x y : Dataset)
    → clash (if b then revoked_dataset actor x else x) (if c then revoked_dataset actor y else y)
      ≡ clash x y
strike-clash true true actor x y = refl
strike-clash true false actor x y = refl
strike-clash false true actor x y = refl
strike-clash false false actor x y = refl

any_of-All :
    (p : Dataset → Bool) (rows : List Dataset) → any_of p rows ≡ false → All (λ a. p a ≡ false) rows
any_of-All p [] h = tt
any_of-All p (x ∷ xs) h = elim (Bool-cases (p x)) [
  | inl e ↦ ground (arith, e, h)
  | inr e ↦ (e, any_of-All p xs (ground (arith, e, h)))
]

Change-IsLicensed :
    {rows rows' : List Dataset} → Change rows rows' → IsLicensed rows → IsLicensed rows'
Change-IsLicensed (same e) v = subst IsLicensed (sym e) v
Change-IsLicensed {rows} (added d sound free e) v = subst IsLicensed (sym e) (record {
  sound = All-snoc IsSound rows d v.sound sound;
  distinct = Pairwise-snoc _ rows d v.distinct (any_of-All (clash d) rows free);
})
Change-IsLicensed {rows} (struck d actor m h e) v = subst IsLicensed (sym e) (record {
  sound = All-map IsSound IsSound _ rows (λ r. strike-IsSound (r.id == d.id) actor r) v.sound;
  distinct =
      Pairwise-map (λ _. Unit) _ _ rows
        (λ a b _ _ k. strike-clash (b.id == d.id) (a.id == d.id) actor b a ∙ k)
        (All-of_Member (λ _. Unit) rows (λ _ _. tt)) v.distinct;
})

-- One call that answers; whatever else runs leaves the table of datasets as it is.
pub data Step (s s' : Registry) : Type 0 where
  register :
      (depot : Depot) (p : Principal) (r : DatasetRequest) (upload : Option String) (c : String)
      {d : Dataset}
      → register_dataset depot p r upload c s ≡ ok (d, s')
      → Step s s'
  revoke :
      (p : Principal) (i : ℕ) (c : String) {d : Dataset}
      → revoke_dataset_registration p i c s ≡ ok (d, s')
      → Step s s'
  elsewhere : s'.datasets ≡ s.datasets → Step s s'

Step-Change : {s s' : Registry} → Step s s' → Change s.datasets s'.datasets
Step-Change {s} (register depot p r upload c e) =
    Ensures-ok (register_dataset-Change depot p r upload c s) e
Step-Change {s} (revoke p i c e) = Ensures-ok (revoke-Change p i c s) e
Step-Change (elsewhere e) = same e

pub data Reach (s : Registry) : Registry → Type 0 where
  here : Reach s s
  next : {t u : Registry} → Reach s t → Step t u → Reach s u

-- Whatever datasets are registered and revoked, in any order and by anyone: the table keeps its
-- invariant. No demonstration data are imported, a validated dataset of a customer's pilot has the
-- consent of this tenant, a revoked one names who revoked it, and no two datasets share an id, or a
-- tenant and a fingerprint.
pub Reach-IsLicensed : {s t : Registry} → IsLicensed s.datasets → Reach s t → IsLicensed t.datasets
Reach-IsLicensed v here = v
Reach-IsLicensed v (next r step) = Change-IsLicensed (Step-Change step) (Reach-IsLicensed v r)

-- What becomes of a row: it stays as it is, or it is revoked once.
pub data Follows (d : Dataset) (d' : Dataset) : Type 0 where
  kept : d' ≡ d → Follows d d'
  stopped :
      (actor : String)
      → dataset_status_eq d.status revoked ≡ false
      → d' ≡ revoked_dataset actor d
      → Follows d d'

Follows-trans : {a b c : Dataset} → Follows a b → Follows b c → Follows a c
Follows-trans {c = c} (kept e) f = subst (λ x. Follows x c) e f
Follows-trans {a} {b} (stopped actor h e) (kept k) = stopped actor h (k ∙ e)
Follows-trans {a} {b} (stopped actor h e) (stopped other k l) =
    cc (sym k ∙ ap (λ (x : Dataset). dataset_status_eq x.status revoked) e)

pub same_row :
    (rows : List Dataset)
    → Pairwise (λ a b. clash b a ≡ false) rows
    → (a b : Dataset) → Member a rows
    → Member b rows
    → (a.id == b.id) ≡ true
    → a ≡ b
same_row [] h a b ma mb e = absurd ma
same_row (x ∷ xs) h a b (inl ea) (inl eb) e = ea ∙ sym eb
same_row (x ∷ xs) h a b (inl ea) (inr mb) e =
    let apart = All-member _ b xs h.0 mb in ground (arith, ea, apart, e)
same_row (x ∷ xs) h a b (inr ma) (inl eb) e =
    let apart = All-member _ a xs h.0 ma in ground (arith, eb, apart, e)
same_row (x ∷ xs) h a b (inr ma) (inr mb) e = same_row xs h.1 a b ma mb e

Change-Follows :
    {rows rows' : List Dataset}
    → Change rows rows'
    → IsLicensed rows
    → (d : Dataset) → Member d rows
    → (d' : Dataset) × Member d' rows' × Follows d d'
Change-Follows (same e) v d m = (d, subst (Member d) (sym e) m, kept refl)
Change-Follows {rows} (added x sound free e) v d m =
    (d, subst (Member d) (sym e) (Member-snoc_old d x rows m), kept refl)
Change-Follows {rows} (struck c actor m' h e) v d m = elim (Bool-cases (d.id == c.id)) [
  | inr n ↦ (
    d,
    subst (Member d) (sym e)
        (Member-update_where_kept (λ r. r.id == c.id) (revoked_dataset actor) d rows n m),
    kept refl,
  )
  | inl y ↦
      let one = same_row rows v.distinct d c m m' y in
      (
        revoked_dataset actor d,
        subst (Member (revoked_dataset actor d)) (sym e)
            (Member-update_where_hit (λ r. r.id == c.id) (revoked_dataset actor) d rows y m),
        stopped actor
            (subst (λ (x : Dataset). dataset_status_eq x.status revoked ≡ false) (sym one) h) refl,
      )
]

pub Reach-Follows :
    {s t : Registry}
    → IsLicensed s.datasets
    → Reach s t
    → (d : Dataset) → Member d s.datasets
    → (d' : Dataset) × Member d' t.datasets × Follows d d'
Reach-Follows v here d m = (d, m, kept refl)
Reach-Follows v (next r step) d m =
    let (a, ma, fa) = Reach-Follows v r d m in
    let (b, mb, fb) = Change-Follows (Step-Change step) (Reach-IsLicensed v r) a ma in
    (b, mb, Follows-trans fa fb)
