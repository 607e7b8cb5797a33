-- ===== src/Backend/Packs/Tests.antt =====
-- A manifest with two products, and the theorems on it.
use vision_qc.Prelude.{none, some, [], ◌∷◌, ◌≡◌, ◌≢◌, refl, All, inl, inr}
use vision_qc.Backend.Policy.{PolicyConfig, validate_config, check_overrides, rule_ok}
use vision_qc.Backend.Packs.{
  ProductDefinition, StationDefinition, DeploymentManifest, validate_manifest, resolve_product,
}
use vision_qc.Backend.Packs.Catalog.{resolve_product_lem}

abbrev pub valve : ProductDefinition
valve = record {
  code = "VALVE-9";
  display_name = "Valve";
  revision = "R2";
  aliases = "V9" ∷ "VALVE9" ∷ [];
}

abbrev gasket : ProductDefinition
gasket = record { code = "GASKET"; display_name = "Gasket"; revision = "R1"; aliases = "G" ∷ [] }

abbrev pub line : StationDefinition
line = record {
  code = "LINE-1";
  display_name = "Line 1";
  description = "End of line";
  camera_profile = "mono-5mp";
}

abbrev pub policy : PolicyConfig
policy = record {
  version = "7";
  default = record {
    product_code = none;
    station_code = none;
    review_threshold = 4598175219545276416;
    hold_threshold = 4602678819172646912;
  };
  overrides = [];
}

abbrev pub sample : DeploymentManifest
sample = record {
  pack_key = "acme/valves";
  version = "3";
  tenant = record { id = "acme"; name = "Acme" };
  products = gasket ∷ valve ∷ [];
  stations = line ∷ [];
  field_mapping = record {
    product_code_key = "part";
    product_revision_key = "rev";
    batch_no_key = "lot";
    station_code_key = "cell";
    captured_at_key = "taken";
    source_key = "camera";
  };
  labelled = "batch_no" ∷ [];
  model = record {
    id = "padim";
    version = "1";
    feature_bank_version = "fb-1";
    adapter = "onnx";
    runtime = "onnxruntime";
    device = "cpu";
    package_uri = "file:///model";
    package_sha256 = some "abc";
  };
  policy = policy;
  edge_gateway = some (record { gateway_id = "gw-1"; target_tenant_id = "acme" });
}

pub sample_accepted : validate_manifest sample ≡ none
unfolding validate_manifest validate_config check_overrides rule_ok
sample_accepted = refl

-- A manifest whose alias is another product's code is refused.
ambiguous_refused :
    validate_manifest
      (record sample { products = valve ∷ record gasket { aliases = "V9" ∷ [] } ∷ [] })
    ≢ none
unfolding validate_manifest validate_config check_overrides rule_ok
ambiguous_refused h = cc

no_wildcard : All (λ q. q.code ≢ "*") sample.products
no_wildcard = (λ e. cc, (λ e. cc, tt))

resolve_product_lem_example : resolve_product sample "V9" ≡ some valve
resolve_product_lem_example =
    resolve_product_lem sample sample_accepted no_wildcard "V9" valve (inr (inl refl))
      (inr (inl refl))
