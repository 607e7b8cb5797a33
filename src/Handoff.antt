-- ===== src/Handoff.antt =====
-- Between the gateway and the backend: the form that `upload` of
-- edge-gateway/src/edge_gateway/uploader.py posts, as `context_from_fields` of
-- backend/app/services.py reads it. Both sides hold the mapping of the same Deployment Pack.
mod Tests
use vision_qc.Prelude.{
  ℕ, String, Option, none, some, Bool, false, List, [], ◌∷◌, ◌≡◌, ◌⊎◌, if◌then◌else◌, str_eq,
}
use vision_qc.Backend.Calls.{Result}
use vision_qc.Backend.Packs.{
  product_code, product_revision, batch_no, station_code, captured_at, source,
}
use vision_qc.Backend.Packs.Catalog.{Member-any_of}
use vision_qc.Backend.Packs.Fields.{FormValue, text, get, strip, InspectionContext}

-- The fields of a posted form, as the request has them.
abbrev pub posted : List (String × String) → List (String × FormValue)
posted [] = []
posted ((k, v) ∷ d) = (k, text v) ∷ posted d

-- The names of a dictionary's items, each of them once.
abbrev pub IsDict : List (String × String) → Type 0
IsDict [] = Unit
IsDict ((k, v) ∷ d) = (get k d ≡ none) × IsDict d

-- A value that reading leaves as it is: it is not blank and has no space around it.
abbrev pub IsTrim : String → Type 0
IsTrim t = (strip t ≡ t) × (str_eq t "" ≡ false)

abbrev IsTrimOption : Option String → Type 0
IsTrimOption none = Unit
IsTrimOption (some t) = IsTrim t

-- `o`, wrapped as a value of a form.
abbrev as_value : Option String → Option FormValue
as_value none = none
as_value (some t) = some (text t)

-- The later of two optional values.
abbrev over : Option String → Option String → Option String
over none o = o
over (some t) o = some t

-- The canonical values that the gateway's context has, as one `InspectionContext`.
pub record IsContext (parse_time : String → Option ℕ) (context : List (String × String))
    (x : InspectionContext) : Type 0 where
  pub time : String
  pub product : get "product_code" context ≡ some x.product_code
  pub revision : get "product_revision" context ≡ x.product_revision
  pub batch : get "batch_no" context ≡ some x.batch_no
  pub station : get "station_code" context ≡ some x.station_code
  pub captured : get "captured_at" context ≡ some time
  pub instant : parse_time time ≡ some x.captured_at
  pub source : get "source" context ≡ some x.source
  pub trim :
      IsTrim x.product_code
      × IsTrimOption x.product_revision
      × IsTrim x.batch_no
      × IsTrim x.station_code
      × IsTrim time
      × IsTrim x.source
