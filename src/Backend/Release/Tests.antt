-- ===== src/Backend/Release/Tests.antt =====
-- A model's way to the line: a pack, its evidence, three people, and the theorems on the run.
use vision_qc.Prelude.{
  String, none, some, ◌≢◌, inl, inr, arith, true, false, ◌&&◌, [], ◌∷◌, map, ◌≡◌, refl, All, str_eq,
}
use vision_qc.Backend.Calls.{
  ok, err, forbidden, pure, gets, or_raise, branch, on_option, guard, ◌>>=◌, ◌>>◌,
}
use vision_qc.Backend.Policy.{resolve, validate_config, check_overrides, rule_ok}
use vision_qc.Backend.Packs.{DeploymentManifest, validate_manifest}
use vision_qc.Backend.Packs.Tests.{sample, valve}
use vision_qc.Backend.Workflow.Tables.{Principal}
use vision_qc.Backend.Release.Tables.{
  customer_pilot, validated, revoked, Dataset, Gates, ModelQualification, DeploymentPack, Tenant,
  Registry, Deed, edit_qualification, edit_pack, audit, is_active_pack,
}
use vision_qc.Backend.Release.Evidence.{
  absent, value, FileEntry, document, Package, Evidence, required_evidence_files,
  required_provenance, parsed, verify_evidence_package, verified_evidence,
}
use vision_qc.Backend.Release.Qualifications.{
  Desk, require_tenant, active_deployment, deployment_manifest, QualificationRequest, bound_dataset,
  new_qualification, insert_qualification, create_qualification, find_qualification,
  require_activation_dataset,
}
use vision_qc.Backend.Release.Decisions.{
  with_evaluation, with_approval, with_activation, evaluate_qualification, approve_qualification,
  swap_active, activate_qualification,
}
use vision_qc.Backend.Release.Deployments.{
  with_manifest, requested_manifest, insert_pack, new_pack, create_deployment, get_deployment,
  Plant, activated_pack, swap_pack, activate_deployment,
}
use vision_qc.Backend.Release.Lifecycle.{IsReleased, is_live}
use vision_qc.Backend.Release.Runs.{
  create, evaluate, approve, activate, create_pack, activate_pack, elsewhere, Reach, here, next,
  fresh, Reach-IsReleased,
}
use vision_qc.Backend.Release.Datasets.Runs.{
  IsLicensed, here as nothing, next as then_on, elsewhere as aside,
}
use vision_qc.Backend.Release.Datasets.Revoked.{revoked_never_active}
use vision_qc.Backend.Release.Runs.Stalls.{IsIdle, no_first_pack}

abbrev manifest : DeploymentManifest
manifest = record sample { products = valve ∷ [] }

abbrev acme : Tenant
acme = record { id = "acme"; name = "Acme"; is_active = true }

abbrev who : String → Principal
who name = record { actor_id = name; tenant_id = "acme"; roles = [] }

abbrev images : Dataset
images = record {
  id = 90;
  tenant_id = "acme";
  source_type = customer_pilot;
  status = validated;
  dataset_fingerprint = "f1";
  provenance_tenant = some "acme";
  consent = true;
  revoked_by = none;
}

-- A dataset whose customer has withdrawn.
abbrev gone : Dataset
gone = record images {
  id = 91;
  status = revoked;
  dataset_fingerprint = "f0";
  revoked_by = some "ann";
}

abbrev gates : Gates
gates = record { decision = some "GO"; checks = some "PASS" ∷ some "PASS" ∷ [] }

abbrev entry : String → FileEntry
entry name = record { name = name; sha256 = "d"; size_bytes = 1 }

abbrev evidence_package : Package
evidence_package = record {
  is_dir = true;
  files = map entry required_evidence_files;
  inventory = document (record {
    schema_version = some "visionqc.evidence-manifest.v1";
    files = some (
        map (λ name. record { relative = name; sha256 = some "d"; size_bytes = some 1 })
          ("qualification-summary.json" ∷ "model-card.md" ∷ "evaluation-report.md" ∷ "metrics.json"
            ∷ "confidence-intervals.json" ∷ "split-manifest.json" ∷ "provenance.json"
            ∷ "release-decision.json" ∷ "error-cases.json" ∷ "source-evidence.json" ∷ []));
  });
  provenance = document (record {
    model_package_sha256 = some "abc";
    source_type = value "CUSTOMER_PILOT";
    data_status = absent;
    dataset_fingerprint = some "f1";
    customer_provenance = some (record { keys = required_provenance; consent = true });
  });
  release = document (record {
    evidence_package_sha256 = some "core";
    decision = some "GO";
    model_package_sha256 = some "abc";
    source_type = absent;
    dataset_fingerprint = some "f1";
    gate_decision = absent;
    approval_status = some "PENDING_APPROVAL";
    gates = none;
  });
  metrics = document (record { gates = some gates; report_status = none });
  summary = document (record { qualification_status = some "GO"; source_type = absent });
}

abbrev desk : Desk
desk = record {
  digest = λ files. "core";
  package_at = λ path. evidence_package;
  updates_before = λ a b. true;
}

abbrev found : Evidence
found = record {
  evidence_package_sha256 = "core";
  decision = some "GO";
  gate_decision = some "GO";
  source_type = customer_pilot;
  dataset_fingerprint = some "f1";
  approval_status = some "PENDING_APPROVAL";
  gates = gates;
}

abbrev request : QualificationRequest
request = record {
  product_code = "VALVE-9";
  model_id = "padim";
  model_version = "1";
  package_sha256 = "abc";
  evidence_path = "/evidence/1";
  evidence_sha256 = "core";
  deployment_pack_key = "acme/valves";
  dataset_registration_id = some 90;
  dataset_source_type = none;
  dataset_fingerprint = none;
}

-- The tables after a call.
abbrev after : {A : Type 0} → Deed A → Registry → Registry
after m s = elim (m s) [ ok (_, s') ↦ s' | err _ ↦ s ]

abbrev settled : Registry
settled = record (fresh (acme ∷ [])) { datasets = images ∷ gone ∷ [] }

abbrev packed : Registry
packed = after (create_deployment (who "fde") (with_manifest manifest) "c") settled

abbrev running : Plant
running = record { production = false; healthy = true }

abbrev deployed : Registry
deployed = after (activate_deployment running (who "fde") 1 "c") packed

abbrev registered : Registry
registered = after (create_qualification (who "ann") request "c") deployed

abbrev judged : Registry
judged = after (evaluate_qualification desk (who "ann") 2 "c") registered

abbrev agreed : Registry
agreed = after (approve_qualification desk (who "ben") 2 "c") judged

abbrev ended : Registry
ended = after (activate_qualification desk (who "cyd") 2 "c") agreed

abbrev first_pack : DeploymentPack
first_pack = new_pack 1 "acme" manifest

abbrev drafted : ModelQualification
drafted = new_qualification 2 "acme" request (some images)

abbrev weighed : ModelQualification
weighed = with_evaluation "ann" found drafted

pack_answer :
    create_deployment (who "fde") (with_manifest manifest) "c" settled ≡ ok (first_pack, packed)
unfolding create_deployment require_tenant requested_manifest insert_pack audit ◌>>=◌ ◌>>◌ gets
    or_raise guard pure
pack_answer = refl

deployed_answer :
    activate_deployment running (who "fde") 1 "c" packed
    ≡ ok (activated_pack "fde" first_pack, deployed)
unfolding create_deployment require_tenant requested_manifest insert_pack audit ◌>>=◌ ◌>>◌ gets
    or_raise guard pure on_option branch activate_deployment get_deployment deployment_manifest
    swap_pack edit_pack validate_manifest validate_config check_overrides rule_ok resolve
deployed_answer = refl

registered_answer : create_qualification (who "ann") request "c" deployed ≡ ok (drafted, registered)
unfolding create_deployment require_tenant requested_manifest insert_pack audit ◌>>=◌ ◌>>◌ gets
    or_raise guard pure on_option branch activate_deployment get_deployment deployment_manifest
    swap_pack edit_pack validate_manifest validate_config check_overrides rule_ok resolve
    create_qualification bound_dataset insert_qualification
registered_answer = refl

judged_answer : evaluate_qualification desk (who "ann") 2 "c" registered ≡ ok (weighed, judged)
unfolding create_deployment require_tenant requested_manifest insert_pack audit ◌>>=◌ ◌>>◌ gets
    or_raise guard pure on_option branch activate_deployment get_deployment deployment_manifest
    swap_pack edit_pack validate_manifest validate_config check_overrides rule_ok resolve
    create_qualification bound_dataset insert_qualification evaluate_qualification
    find_qualification verified_evidence verify_evidence_package parsed edit_qualification
judged_answer = refl

agreed_answer :
    approve_qualification desk (who "ben") 2 "c" judged ≡ ok (with_approval "ben" weighed, agreed)
unfolding create_deployment require_tenant requested_manifest insert_pack audit ◌>>=◌ ◌>>◌ gets
    or_raise guard pure on_option branch activate_deployment get_deployment deployment_manifest
    swap_pack edit_pack validate_manifest validate_config check_overrides rule_ok resolve
    create_qualification bound_dataset insert_qualification evaluate_qualification
    find_qualification verified_evidence verify_evidence_package parsed edit_qualification
    approve_qualification
agreed_answer = refl

ended_answer :
    activate_qualification desk (who "cyd") 2 "c" agreed
    ≡ ok (with_activation "cyd" (with_approval "ben" weighed), ended)
unfolding create_deployment require_tenant requested_manifest insert_pack audit ◌>>=◌ ◌>>◌ gets
    or_raise guard pure on_option branch activate_deployment get_deployment deployment_manifest
    swap_pack edit_pack validate_manifest validate_config check_overrides rule_ok resolve
    create_qualification bound_dataset insert_qualification evaluate_qualification
    find_qualification verified_evidence verify_evidence_package parsed edit_qualification
    approve_qualification activate_qualification active_deployment require_activation_dataset
    swap_active
ended_answer = refl

run : Reach false (fresh (acme ∷ [])) ended
run =
    next
      (next
        (next
          (next
            (next
              (next (next here (elsewhere (acme ∷ []) (images ∷ gone ∷ []) refl))
                (create_pack (who "fde") (with_manifest manifest) "c" pack_answer))
              (activate_pack true (who "fde") 1 "c" deployed_answer))
            (create (who "ann") request "c" registered_answer))
          (evaluate desk (who "ann") 2 "c" judged_answer))
        (approve desk (who "ben") 2 "c" agreed_answer))
      (activate desk (who "cyd") 2 "c" ended_answer)

Reach-IsReleased_example : IsReleased ended
Reach-IsReleased_example = Reach-IsReleased run

-- The evaluator is turned away.
own_approval :
    approve_qualification desk (who "ann") 2 "c" judged
    ≡ err (forbidden "the evaluator cannot approve the same qualification")
unfolding create_deployment require_tenant requested_manifest insert_pack audit ◌>>=◌ ◌>>◌ gets
    or_raise guard pure on_option branch activate_deployment get_deployment deployment_manifest
    swap_pack edit_pack validate_manifest validate_config check_overrides rule_ok resolve
    create_qualification bound_dataset insert_qualification evaluate_qualification
    find_qualification verified_evidence verify_evidence_package parsed edit_qualification
    approve_qualification
own_approval = refl

abbrev plant : Plant
plant = record { production = true; healthy = true }

abbrev live_pack : DeploymentPack
live_pack = activated_pack "fde" (activated_pack "fde" first_pack)

start-IsReleased : IsReleased settled
start-IsReleased =
    Reach-IsReleased {production = true} {ts = acme ∷ []}
      (next here (elsewhere (acme ∷ []) (images ∷ gone ∷ []) refl))

start-IsIdle : IsIdle "acme" settled
start-IsIdle = record { packs = tt; qualifications = tt }

no_first_pack_example :
    All (λ x. is_active_pack "acme" x ≡ false) packed.packs
    × All (λ q. (str_eq q.tenant_id "acme" && is_live q) ≡ false) packed.qualifications
no_first_pack_example =
    no_first_pack start-IsReleased start-IsIdle
      (next here (create_pack (who "fde") (with_manifest manifest) "c" pack_answer))

start-IsLicensed : IsLicensed settled.datasets
start-IsLicensed = record {
  sound = (
    record { imported = refl; licensed = λ _ _. refl; signed = λ h. ground (arith, h) },
    (record { imported = refl; licensed = λ h. ground (arith, h); signed = λ _. refl }, tt),
  );
  distinct = ((refl, tt), (tt, tt));
}

datasets_stay : agreed.datasets ≡ settled.datasets
unfolding create_deployment require_tenant requested_manifest insert_pack audit ◌>>=◌ ◌>>◌ gets
    or_raise guard pure on_option branch activate_deployment get_deployment deployment_manifest
    swap_pack edit_pack validate_manifest validate_config check_overrides rule_ok resolve
    create_qualification bound_dataset insert_qualification evaluate_qualification
    find_qualification verified_evidence verify_evidence_package parsed edit_qualification
    approve_qualification
datasets_stay = refl

revoked_never_active_example : drafted.dataset_registration_id ≢ some gone.id
revoked_never_active_example =
    revoked_never_active {s = settled} gone start-IsLicensed (inr (inl refl)) refl
      (then_on nothing (aside datasets_stay)) desk (who "cyd") 2 "c"
      (with_activation "cyd" (with_approval "ben" weighed)) (inl ended_answer)
