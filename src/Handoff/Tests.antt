-- ===== src/Handoff/Tests.antt =====
-- A capture of the gateway, posted and read.
use vision_qc.Prelude.{
  ℕ, String, Option, none, some, List, [], ◌∷◌, ◌≡◌, refl, str_eq, if◌then◌else◌,
}
use vision_qc.Backend.Calls.{err, invalid_input, or_raise, ◌>>=◌}
use vision_qc.Backend.Packs.Fields.{
  text, strip, strip_left, strip_right, trimmed, read_field, InspectionContext, context_from_fields,
}
use vision_qc.Backend.Packs.Tests.{sample}

abbrev parse_time : String → Option ℕ
parse_time t = if str_eq t "2026-01-02T03:04:05+00:00" then some 1767323045 else none

abbrev captured : List (String × String)
captured =
    ("station_code", "LINE-1")
    ∷ ("product_code", "V9")
    ∷ ("operator", "ann")
    ∷ ("batch_no", "B-7")
    ∷ ("captured_at", "2026-01-02T03:04:05+00:00")
    ∷ ("product_revision", "R2")
    ∷ ("source", "cam-2")
    ∷ []

abbrev context : InspectionContext
context = record {
  product_code = "V9";
  product_revision = some "R2";
  batch_no = "B-7";
  station_code = "LINE-1";
  captured_at = 1767323045;
  source = "cam-2";
}

-- A blank field is missing.
blank_batch :
    context_from_fields {S = ℕ} parse_time sample (("part", text "V9") ∷ ("lot", text "  ") ∷ []) 5
    ≡ err (invalid_input "required deployment field is missing")
unfolding context_from_fields read_field trimmed strip strip_left strip_right or_raise ◌>>=◌
blank_batch = refl
