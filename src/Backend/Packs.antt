-- ===== src/Backend/Packs.antt =====
-- backend/app/deployment.py: the Deployment Pack manifest, its validators and its catalog, and the
-- wrapping of records from before the manifest. Texts that only people read (labels, limitations,
-- metadata) and the connectors' bindings are not kept.
pub mod Catalog
pub mod Fields
pub mod Tests
use vision_qc.Prelude.{
  ℕ, String, Option, none, some, Bool, true, false, not, ◌&&◌, ◌||◌, List, [], ◌∷◌, ◌++◌, map, leb,
  if◌then◌else◌, str_eq, characters, any_of, all_of, find_first, length,
}
use Prim.Native.String.{◌++◌ as str_append}
use vision_qc.Backend.Policy.{PolicyConfig, validate_config}

-- `Field(min_length=low, max_length=high)`
abbrev pub sized : ℕ → ℕ → String → Bool
sized low high t = leb low (characters t) && leb (characters t) high

-- `len(values) != len(set(values))`
abbrev pub has_repeat : List String → Bool
has_repeat [] = false
has_repeat (v ∷ vs) = let rest = has_repeat vs in if any_of (str_eq v) vs then true else rest

-- `CANONICAL_FIELDS`
pub data Field : Type 0 where
  product_code product_revision batch_no station_code captured_at source : Field

abbrev pub canonical_fields : List Field
canonical_fields =
    product_code ∷ product_revision ∷ batch_no ∷ station_code ∷ captured_at ∷ source ∷ []

abbrev pub field_name : Field → String
field_name product_code = "product_code"
field_name product_revision = "product_revision"
field_name batch_no = "batch_no"
field_name station_code = "station_code"
field_name captured_at = "captured_at"
field_name source = "source"

pub record FieldMapping : Type 0 where
  pub product_code_key : String
  pub product_revision_key : String
  pub batch_no_key : String
  pub station_code_key : String
  pub captured_at_key : String
  pub source_key : String

abbrev pub key_for : FieldMapping → Field → String
key_for m product_code = m.product_code_key
key_for m product_revision = m.product_revision_key
key_for m batch_no = m.batch_no_key
key_for m station_code = m.station_code_key
key_for m captured_at = m.captured_at_key
key_for m source = m.source_key

pub record ProductDefinition : Type 0 where
  pub code : String
  pub display_name : String
  pub revision : String
  pub aliases : List String

pub record StationDefinition : Type 0 where
  pub code : String
  pub display_name : String
  pub description : String
  pub camera_profile : String

pub record ModelDefinition : Type 0 where
  pub id : String
  pub version : String
  pub feature_bank_version : String
  pub adapter : String
  pub runtime : String
  pub device : String
  pub package_uri : String
  pub package_sha256 : Option String

pub record TenantDefinition : Type 0 where
  pub id : String
  pub name : String

-- `EdgeGatewayDefinition`, by its binding.
pub record EdgeGatewayDefinition : Type 0 where
  pub gateway_id : String
  pub target_tenant_id : String

pub record DeploymentManifest : Type 0 where
  pub pack_key : String
  pub version : String
  pub tenant : TenantDefinition
  pub products : List ProductDefinition
  pub stations : List StationDefinition
  pub field_mapping : FieldMapping
  -- the keys of `field_labels`
  pub labelled : List String
  pub model : ModelDefinition
  pub policy : PolicyConfig
  pub edge_gateway : Option EdgeGatewayDefinition

pub data ManifestError : Type 0 where
  bad_length bad_policy repeated_alias repeated_key repeated_product repeated_value repeated_station
        foreign_gateway unknown_label :
      ManifestError

-- `code`, then `aliases`
abbrev pub values_of : ProductDefinition → List String
values_of p = p.code ∷ p.aliases

abbrev pub all_values : List ProductDefinition → List String
all_values [] = []
all_values (p ∷ ps) = values_of p ++ all_values ps

-- The bounds of the definitions' fields.
abbrev pub product_sized : ProductDefinition → Bool
product_sized p =
    leb (length p.aliases) 20
    && sized 1 128 p.code
    && sized 1 200 p.display_name
    && sized 1 64 p.revision

abbrev pub station_sized : StationDefinition → Bool
station_sized s =
    sized 1 128 s.code
    && sized 1 200 s.display_name
    && sized 1 500 s.description
    && sized 1 128 s.camera_profile

abbrev pub manifest_sized : DeploymentManifest → Bool
manifest_sized m =
    sized 1 128 m.pack_key
    && sized 1 64 m.version
    && sized 1 64 m.tenant.id
    && sized 1 200 m.tenant.name
    && leb 1 (length m.products)
    && leb (length m.products) 50
    && leb 1 (length m.stations)
    && leb (length m.stations) 50
    && all_of product_sized m.products
    && all_of station_sized m.stations
    && all_of (λ f. sized 1 64 (key_for m.field_mapping f)) canonical_fields

abbrev pub is_canonical : String → Bool
is_canonical t = any_of (λ f. str_eq (field_name f) t) canonical_fields

abbrev pub gateway_foreign : Option EdgeGatewayDefinition → String → Bool
gateway_foreign none tenant = false
gateway_foreign (some g) tenant = not (str_eq g.target_tenant_id tenant)

abbrev pub is_rejected {ℓ} : {A : Type ℓ} → Option A → Bool
is_rejected none = false
is_rejected (some _) = true

-- The first check that fails, in order.
abbrev pub first_failure : List (Bool × ManifestError) → Option ManifestError
first_failure [] = none
first_failure ((failed, e) ∷ rest) =
    let later = first_failure rest in if failed then some e else later

abbrev pub manifest_checks : DeploymentManifest → List (Bool × ManifestError)
manifest_checks m =
    (not (manifest_sized m), bad_length)
    ∷ (is_rejected (validate_config m.policy), bad_policy)
    ∷ (any_of (λ p. has_repeat (values_of p)) m.products, repeated_alias)
    ∷ (has_repeat (map (key_for m.field_mapping) canonical_fields), repeated_key)
    ∷ (has_repeat (map (λ p. p.code) m.products), repeated_product)
    ∷ (has_repeat (all_values m.products), repeated_value)
    ∷ (has_repeat (map (λ s. s.code) m.stations), repeated_station)
    ∷ (gateway_foreign m.edge_gateway m.tenant.id, foreign_gateway)
    ∷ (not (all_of is_canonical m.labelled), unknown_label)
    ∷ []

-- The validators of a manifest and of its parts; `none` is that it is accepted.
unfoldable pub validate_manifest : DeploymentManifest → Option ManifestError
validate_manifest m = first_failure (manifest_checks m)

-- `ProductDefinition.matches`
abbrev pub product_matches : String → ProductDefinition → Bool
product_matches value p =
    str_eq p.code "*" || str_eq value p.code || any_of (str_eq value) p.aliases

abbrev pub station_matches : String → StationDefinition → Bool
station_matches value s = str_eq s.code value || str_eq s.code "*"

unfoldable pub resolve_product : DeploymentManifest → String → Option ProductDefinition
resolve_product m value = find_first (product_matches value) m.products

unfoldable pub resolve_station : DeploymentManifest → String → Option StationDefinition
resolve_station m value = find_first (station_matches value) m.stations

-- The keys of a model snapshot that `legacy_manifest` reads.
pub record LegacyModel : Type 0 where
  pub model_id : Option String
  pub model_version : Option String
  pub feature_bank_version : Option String
  pub adapter : Option String
  pub runtime : Option String
  pub runtime_device : Option String
  pub package_uri : Option String
  pub package_sha256 : Option String

-- `d.get(key, default)`
abbrev pub get_or : Option String → String → String
get_or none t = t
get_or (some s) t = s

-- `legacy_manifest`, before its validation.
unfoldable pub legacy_manifest :
    String → String → String → LegacyModel → PolicyConfig → DeploymentManifest
legacy_manifest tenant_id tenant_name version m policy = record {
  pack_key = str_append tenant_id "/legacy";
  version = version;
  tenant = record { id = tenant_id; name = tenant_name };
  products =
      record {
        code = "*";
        display_name = "Configured product";
        revision = "UNSPECIFIED";
        aliases = [];
      }
      ∷ [];
  stations =
      record {
        code = "*";
        display_name = "Configured station";
        description = "Legacy deployment station";
        camera_profile = "legacy";
      }
      ∷ [];
  field_mapping = record {
    product_code_key = "product_code";
    product_revision_key = "product_revision";
    batch_no_key = "batch_no";
    station_code_key = "station_code";
    captured_at_key = "captured_at";
    source_key = "source";
  };
  labelled = map field_name canonical_fields;
  model = record {
    id = get_or m.model_id "legacy-model";
    version = get_or m.model_version "legacy";
    feature_bank_version = get_or m.feature_bank_version "legacy-feature-bank";
    adapter = get_or m.adapter "stub";
    runtime = get_or m.runtime "visionqc";
    device = get_or m.runtime_device "cpu";
    package_uri = get_or m.package_uri "not-configured";
    package_sha256 = m.package_sha256;
  };
  policy = policy;
  edge_gateway = none;
}
