-- ===== src/Backend/Workflow/Leading.antt =====
-- From what to what an action leads: a predicate of the tables before it and one of its answer and the
-- tables after it.
use vision_qc.Prelude.{◌≡◌, subst}
use vision_qc.Backend.Workflow.Tables.{Db}
use vision_qc.Backend.Calls.{Result, ok, err, pure, ◌>>=◌, ◌>>◌}
use vision_qc.Backend.Workflow.Session.{Action}
use vision_qc.Backend.Workflow.Keeping.{Keeps, keeps, Holds}

abbrev pub Ends : {A : Type 0} → (A → Db → Type 0) → Result (A × Db) → Type 0
Ends Q (ok (a, db)) = Q a db
Ends Q (err _) = Unit {0}

-- An action that leads from the one predicate to the other where it answers.
pub data Leads {A : Type 0} (P : Db → Type 0) (m : Action A) (Q : A → Db → Type 0) : Type 0 where
  leads : ((db : Db) → P db → Ends Q (m db)) → Leads P m Q

pub Ends-Holds : {A : Type 0} (P : Db → Type 0) (r : Result (A × Db)) → Holds P r → Ends (λ _. P) r
Ends-Holds P (ok _) h = h
Ends-Holds P (err _) h = tt

pub Leads-Keeps : {A : Type 0} {P : Db → Type 0} {m : Action A} → Keeps P m → Leads P m (λ _. P)
Leads-Keeps {P = P} {m} (keeps k) = leads λ db t. Ends-Holds P (m db) (k db t)

pub Ends-bind :
    {A B : Type 0} {P : A → Db → Type 0} {Q : B → Db → Type 0} (r : Result (A × Db))
    (f : A → Action B)
    → Ends P r
    → ((a : A) → Leads (P a) (f a) Q)
    → Ends Q (elim r as (λ _. Result (B × Db)) [ ok (a, db) ↦ f a db | err e ↦ err e ])
Ends-bind {B = B} {P = P} {Q = Q} (ok (a, db)) f h k = run (k a) h
  where
    run : {m : Action B} → Leads (P a) m Q → P a db → Ends Q (m db)
    run (leads l) h = l db h
Ends-bind (err e) f h k = tt

pub Leads-bind :
    {A B : Type 0} {P : Db → Type 0} {R : A → Db → Type 0} {Q : B → Db → Type 0} {m : Action A}
    {f : A → Action B}
    → Leads P m R
    → ((a : A) → Leads (R a) (f a) Q)
    → Leads P (m >>= f) Q
unfolding ◌>>=◌
Leads-bind {m = m} {f} (leads k) l = leads λ db t. Ends-bind (m db) f (k db t) l

pub Leads-then :
    {A B : Type 0} {P R : Db → Type 0} {Q : B → Db → Type 0} {m : Action A} {n : Action B}
    → Leads P m (λ _. R)
    → Leads R n Q
    → Leads P (m >> n) Q
unfolding ◌>>◌
Leads-then k l = Leads-bind k (λ _. l)

pub Leads-ok :
    {A : Type 0} {P : Db → Type 0} {Q : A → Db → Type 0} {m : Action A} {db db' : Db} {a : A}
    → Leads P m Q
    → P db
    → m db ≡ ok (a, db')
    → Q a db'
Leads-ok {Q = Q} {db = db} (leads l) t e = subst (Ends Q) e (l db t)

pub pure-Leads : {A : Type 0} (P : A → Db → Type 0) (a : A) → Leads (P a) (pure a) P
unfolding pure
pure-Leads P a = leads λ db t. t
