-- ===== src/Backend/Workflow/Filing.antt =====
-- The idempotency key of an inspection: a retry of `create_inspection`, however late, finds the row that
-- the first call filed.
use vision_qc.Prelude.{ℕ, String, none, some, ◌≡◌, find_first, any_of}
use vision_qc.Backend.Workflow.Tables.{edge_gateway, role_eq, Principal, Inspection, Db}
use vision_qc.Backend.Calls.{ok, pure, lift, branch}
use vision_qc.Backend.Workflow.Environment.{Env}
use vision_qc.Backend.Workflow.Intake.{Site, Submission, is_request}

-- The first row under the key has the id and the fingerprint.
abbrev Filed : String → String → String → ℕ → Db → Type 0
Filed tenant key fingerprint i db =
    (x : Inspection) × (find_first (is_request tenant key) db.inspections ≡ some x)
    × (x.id ≡ i)
    × (x.request_fingerprint ≡ fingerprint)

-- No row has the key.
abbrev IsUnused : String → String → Db → Type 0
IsUnused tenant key db = find_first (is_request tenant key) db.inspections ≡ none

module _ (env : Env) (site : Site) (p : Principal) (s : Submission) (key : String) where
  abbrev Passes : Type 0
  Passes =
      (db : Db)
      → branch (any_of (role_eq edge_gateway) p.roles) (lift (site.gateway_bound p)) (pure tt) db
        ≡ ok (tt, db)
