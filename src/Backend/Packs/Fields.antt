-- ===== src/Backend/Packs/Fields.antt =====
-- `context_from_fields` of backend/app/services.py, on the manifest of the active deployment: what a
-- client submits, under the keys of the manifest's mapping, read as the canonical fields.
use Prim.Native.Char.{code}
use Prim.Native.String.{String as Text}
use vision_qc.Prelude.{
  ℕ, String, Option, none, some, Bool, true, ◌&&◌, ◌||◌, List, [], ◌∷◌, leb, ◌==◌, if◌then◌else◌,
  str_eq, is_some, any_of,
}
use vision_qc.Backend.Calls.{
  Call, ServiceError, invalid_input, crash, pure, or_raise, guard, ◌>>=◌, ◌>>◌,
}
use vision_qc.Backend.Packs.{
  Field, product_code, product_revision, batch_no, station_code, captured_at, source, key_for,
  DeploymentManifest, resolve_product, resolve_station, sized,
}

-- `str.isspace` of one code point.
abbrev pub is_space : ℕ → Bool
is_space c =
    (leb 9 c && leb c 13)
    || (leb 28 c && leb c 32)
    || (leb 8192 c && leb c 8202)
    || any_of (λ d. c == d) (133 ∷ 160 ∷ 5760 ∷ 8232 ∷ 8233 ∷ 8239 ∷ 8287 ∷ 12288 ∷ [])

unfoldable pub strip_left : String → String
strip_left Text.[] = ""
strip_left (Text.◌∷◌ c s) =
    let rest = strip_left s in if is_space (code c) then rest else Text.◌∷◌ c s

unfoldable pub strip_right : String → String
strip_right Text.[] = ""
strip_right (Text.◌∷◌ c s) =
    let rest = strip_right s in if str_eq rest "" && is_space (code c) then "" else Text.◌∷◌ c rest

-- `str.strip`
unfoldable pub strip : String → String
strip s = strip_right (strip_left s)

-- A value of a submitted form: a text, or a file.
pub data FormValue : Type 0 where
  text : String → FormValue
  upload : FormValue

-- `dict.get`, on the items of the dictionary.
abbrev pub get : {V : Type 0} → String → List (String × V) → Option V
get k [] = none
get k ((j, v) ∷ d) = let rest = get k d in if str_eq j k then some v else rest

-- A text that is not blank, without its surrounding space.
unfoldable pub trimmed : Option FormValue → Option String
trimmed none = none
trimmed (some upload) = none
trimmed (some (text t)) = if str_eq (strip t) "" then none else some (strip t)

unfoldable pub read_field : DeploymentManifest → List (String × FormValue) → Field → Option String
unfolding trimmed
read_field m fields f = trimmed (get (key_for m.field_mapping f) fields)

-- `InspectionContext` of backend/app/schemas.py; the time is the instant that the text names.
pub record InspectionContext : Type 0 where
  pub product_code : String
  pub product_revision : Option String
  pub batch_no : String
  pub station_code : String
  pub captured_at : ℕ
  pub source : String

abbrev pub revision_sized : Option String → Bool
revision_sized none = true
revision_sized (some r) = sized 0 64 r

-- The bounds of the context's fields.
abbrev pub context_sized : InspectionContext → Bool
context_sized x =
    sized 1 128 x.product_code
    && revision_sized x.product_revision
    && sized 1 128 x.batch_no
    && sized 1 128 x.station_code
    && sized 1 64 x.source

abbrev pub or_default : Option String → String → String
or_default none t = t
or_default (some s) t = s

abbrev pub missing : ServiceError
missing = invalid_input "required deployment field is missing"

-- `context_from_fields` once the manifest is read; `parse_time` reads a text as an instant, as
-- pydantic does. What `InspectionContext` refuses is a `ValidationError`, which nothing handles.
unfoldable pub context_from_fields :
    {S : Type 0}
    → (String → Option ℕ)
    → DeploymentManifest
    → List (String × FormValue)
    → Call S InspectionContext
unfolding read_field
context_from_fields parse_time m fields = do
  product ← or_raise (read_field m fields product_code) missing
  batch ← or_raise (read_field m fields batch_no) missing
  station ← or_raise (read_field m fields station_code) missing
  time ← or_raise (read_field m fields captured_at) missing
  instant ← or_raise (parse_time time) crash
  let x : InspectionContext = record {
    product_code = product;
    product_revision = read_field m fields product_revision;
    batch_no = batch;
    station_code = station;
    captured_at = instant;
    source = or_default (read_field m fields source) "api";
  }
  guard (context_sized x) crash
  guard (is_some (resolve_product m product))
      (invalid_input "product is not enabled by the active deployment pack")
  guard (is_some (resolve_station m station))
      (invalid_input "station is not enabled by the active deployment pack")
  pure x
