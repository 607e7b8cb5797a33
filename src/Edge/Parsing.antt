-- ===== src/Edge/Parsing.antt =====
-- `_parse_file` of edge-gateway/src/edge_gateway/runtime.py: the business context that the path and
-- the name of a file give under the Deployment Pack, and the key that makes its upload idempotent.
-- Regular expressions, `normalize_captured_at` and SHA-256 are given.
use Prim.Native.String.{◌++◌ as str_append}
use vision_qc.Prelude.{
  String, Option, none, some, Bool, ◌||◌, not, List, [], ◌∷◌, if◌then◌else◌, truthy, is_some,
  str_eq, any_of, find_first,
}
use vision_qc.Backend.Packs.Fields.{get}
use vision_qc.Edge.Uploads.{put, or_text}

-- What a step of the ingestion comes to: a value, a `QualityReject`, an `OSError` or `RuntimeError`,
-- or any other exception.
pub data Verdict (A : Type 0) : Type 0 where
  pass : A → Verdict A
  reject : (code reason : String) → Verdict A
  broke : String → Verdict A
  raised : Verdict A

pub record GatewayProduct : Type 0 where
  pub code : String
  pub revision : String
  pub aliases : List String

pub record Watch : Type 0 where
  pub capture_map : List (String × String)
  pub defaults : List (String × String)
  pub source : String

pub record GatewayPack : Type 0 where
  pub gateway_id : String
  pub tenant_id : String
  pub pack_key : String
  pub version : String
  pub products : List GatewayProduct
  -- the codes of the stations
  pub stations : List String
  pub watch : Watch

abbrev pub gateway_product_matches : String → GatewayProduct → Bool
gateway_product_matches value p =
    str_eq p.code "*" || str_eq value p.code || any_of (str_eq value) p.aliases

abbrev pub gateway_station_matches : String → String → Bool
gateway_station_matches value code = str_eq code value || str_eq code "*"

-- The loop over `capture_map`.
abbrev pub capture :
    List (String × String)
    → List (String × String)
    → List (String × String)
    → List (String × String)
capture groups [] values = values
capture groups ((canonical, group) ∷ rest) values =
    let found = get group groups in
    capture groups rest (if truthy found then put canonical (or_text found "") values else values)

abbrev pub lacks : List (String × String) → String → Bool
lacks values name = not (truthy (get name values))

-- `values.setdefault`
abbrev pub set_default : String → String → List (String × String) → List (String × String)
set_default k v d = if is_some (get k d) then d else put k v d

abbrev pub completed :
    Watch → GatewayProduct → String → String → List (String × String) → List (String × String)
completed w product station time values =
    let d = set_default "product_revision" product.revision (
      put "captured_at" time
        (put "station_code" station (put "product_code" product.code values))) in
    put "source" (or_text (get "source" d) w.source) d

-- `_parse_file`; `groups` are the groups that both patterns capture, unless one does not match, and
-- `normalize` fails with a `ValueError`.
unfoldable pub parse_file :
    GatewayPack
    → (String → Option String)
    → Option (List (String × String))
    → Verdict (List (String × String))
parse_file pack normalize none =
    reject "FILENAME_OR_PATH_UNRECOGNIZED" "文件路径或命名不符合当前 Deployment Pack 的工位规则。"
parse_file pack normalize (some groups) =
    let values = capture groups pack.watch.capture_map pack.watch.defaults in
    let product = or_text (get "product_code" values) "" in
    let station = or_text (get "station_code" values) "" in
    if any_of (lacks values) ("product_code" ∷ "batch_no" ∷ "station_code" ∷ "captured_at" ∷ [])
    then reject "CONTEXT_INCOMPLETE" "无法从目录/文件名补全必填业务上下文，未上传。"
    else elim (find_first (gateway_product_matches product) pack.products) [
      | none ↦ reject "PRODUCT_NOT_IN_PACK" "文件中的产品不是当前 Deployment Pack 允许的产品。"
      | some p ↦ elim (find_first (gateway_station_matches station) pack.stations) [
        | none ↦ reject "STATION_NOT_IN_PACK" "文件路径中的工位不是当前 Deployment Pack 允许的工位。"
        | some s ↦ elim (normalize (or_text (get "captured_at" values) "")) [
          | none ↦ raised
          | some time ↦ pass (completed pack.watch p s time values)
        ]
      ]
    ]

-- What `deterministic_idempotency_key` hashes.
pub record Material : Type 0 where
  pub tenant_id : String
  pub pack_key : String
  pub pack_version : String
  pub content_sha256 : String
  pub context : List (String × String)

abbrev pub deterministic_idempotency_key : (Material → String) → Material → String
deterministic_idempotency_key sha256 material = str_append "edge_" (sha256 material)
