-- ===== src/Backend/Release/Runs/Vouching.antt =====
-- What stands behind a pack that production activates.
use vision_qc.Prelude.{some, true, ◌≡◌, Member}
use vision_qc.Backend.Calls.{ok}
use vision_qc.Backend.Packs.{ProductDefinition, DeploymentManifest}
use vision_qc.Backend.Workflow.Tables.{Principal}
use vision_qc.Backend.Release.Tables.{active, ModelQualification, DeploymentPack, Registry}
use vision_qc.Backend.Release.Qualifications.{deployment_manifest}
use vision_qc.Backend.Release.Deployments.{all_qualified}
use vision_qc.Backend.Release.Lifecycle.{Vouched}

-- An active qualification of exactly the manifest's model for the product, with the people behind it.
abbrev pub Backed : Registry → DeploymentManifest → ProductDefinition → Type 0
Backed s m product =
    (q : ModelQualification) × Member q s.qualifications
    × (q.product_code ≡ product.code)
    × (m.model.package_sha256 ≡ some q.package_sha256)
    × (q.qualification_status ≡ "GO")
    × Vouched active q

-- What an activation in production has checked, of the pack's manifest as it was read.
abbrev Checked : Principal → Registry → Type 0
Checked p s =
    (x : DeploymentPack) × Member x s.packs
    × ((m : DeploymentManifest) × (deployment_manifest x s ≡ ok (m, s))
        × (all_qualified p.tenant_id m s ≡ true))
