-- ===== src/Backend/Release/Datasets/Tests.antt =====
-- A dataset's life: registered without consent, and revoked.
use vision_qc.Prelude.{none, some, true, false, [], ◌∷◌, ◌≡◌, refl}
use vision_qc.Backend.Calls.{ok, err, conflict, pure, gets, or_raise, branch, guard, ◌>>=◌, ◌>>◌}
use vision_qc.Backend.Workflow.Tables.{Principal}
use vision_qc.Backend.Release.Tables.{customer_pilot, Dataset, Registry, Deed, Tenant, audit}
use vision_qc.Backend.Release.Qualifications.{require_tenant}
use vision_qc.Backend.Release.Deployments.{
  revoked_dataset, edit_dataset, revoke_dataset_registration,
}
use vision_qc.Backend.Release.Datasets.{
  DatasetRequest, Inspected, Depot, check_roots, new_dataset, insert_dataset, store_dataset,
  register_dataset,
}
use vision_qc.Backend.Release.Datasets.Runs.{
  register, revoke, here, next, IsLicensed, Reach-IsLicensed,
}

abbrev acme : Tenant
acme = record { id = "acme"; name = "Acme"; is_active = true }

abbrev ann : Principal
ann = record { actor_id = "ann"; tenant_id = "acme"; roles = [] }

abbrev seen : Inspected
seen = record { source_sha256 = some "s1"; manifest_sha256 = "m1"; dataset_fingerprint = "f1" }

abbrev depot : Depot
depot = record {
  production = true;
  has_roots = true;
  is_inside = λ path. true;
  inspect = λ path kind category. some seen;
  is_stored = λ path kind category x. true;
  registration_id = λ tenant digest. 7;
}

abbrev request : DatasetRequest
request = record {
  source_type = customer_pilot;
  category = "valve";
  source_path = some "/data/acme";
  expected_sha256 = none;
  license_acknowledged = false;
  customer_provenance = none;
  metadata_provenance = none;
}

abbrev empty : Registry
empty = record {
  tenants = acme ∷ [];
  datasets = [];
  qualifications = [];
  packs = [];
  audit = [];
  next_id = 1;
}

-- The tables after a call.
abbrev after : Deed Dataset → Registry → Registry
after m s = elim (m s) [ ok (_, s') ↦ s' | err _ ↦ s ]

abbrev filed : Registry
filed = after (register_dataset depot ann request none "c") empty

abbrev row : Dataset
row = new_dataset depot "acme" request seen

abbrev closed : Registry
closed = after (revoke_dataset_registration ann 7 "c") filed

filed_answer : register_dataset depot ann request none "c" empty ≡ ok (row, filed)
unfolding register_dataset store_dataset insert_dataset require_tenant check_roots audit ◌>>=◌ ◌>>◌
    gets or_raise guard branch pure
filed_answer = refl

closed_answer : revoke_dataset_registration ann 7 "c" filed ≡ ok (revoked_dataset "ann" row, closed)
unfolding register_dataset store_dataset insert_dataset require_tenant check_roots audit ◌>>=◌ ◌>>◌
    gets or_raise guard branch pure revoke_dataset_registration edit_dataset
closed_answer = refl

-- The consent comes later: the same bytes cannot be registered again.
filed_again :
    register_dataset depot ann
      (record request { customer_provenance = some (record { tenant = "acme"; consent = true }) })
      none
      "c"
      filed
    ≡ err (conflict "dataset fingerprint is already registered for this tenant")
unfolding register_dataset store_dataset insert_dataset require_tenant check_roots audit ◌>>=◌ ◌>>◌
    gets or_raise guard branch pure
filed_again = refl

nothing-IsLicensed : IsLicensed empty.datasets
nothing-IsLicensed = record { sound = tt; distinct = tt }

Reach-IsLicensed_example : IsLicensed closed.datasets
Reach-IsLicensed_example = Reach-IsLicensed nothing-IsLicensed (
    next (next here (register depot ann request none "c" filed_answer))
      (revoke ann 7 "c" closed_answer))
