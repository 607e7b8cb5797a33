-- ===== src/Edge/Uploads.antt =====
-- edge-gateway/src/edge_gateway/uploader.py: what a queue item is posted as, and what is made of the
-- response. The network, the credentials and the decoded context of an item are given.
use Prim.Native.String.{◌++◌ as str_append}
use vision_qc.Prelude.{
  ℕ, String, Option, none, some, Bool, true, false, not, ◌&&◌, ◌||◌, List, [], ◌∷◌, leb, ◌==◌,
  if◌then◌else◌, truthy, clip, str_eq, find_first,
}
use vision_qc.Backend.Packs.{Field, FieldMapping, key_for, field_name, canonical_fields}
use vision_qc.Edge.Rows.{Item}

-- The members of a JSON object that are read, as `str` shows them; `none` is an absent one.
pub record Payload : Type 0 where
  pub message : Option String
  pub detail : Option String
  pub inspection_id : Option String
  pub status : Option String
  pub idempotent_replay : Bool

pub data Body : Type 0 where
  not_json not_object : Body
  object : Payload → Body

-- What `client.post` comes to: an exception, by the name of its class, or a response.
pub data Posted : Type 0 where
  unreachable client_failed : String → Posted
  responded : ℕ → Body → Posted

-- `UploadResult`, `UploadError`, or any other exception.
pub data Uploaded : Type 0 where
  result : (inspection_id : String) (idempotent_replay : Bool) (status : String) → Uploaded
  upload_error : (code message : String) (retryable : Bool) → Uploaded
  escaped : Uploaded

-- `d[k] = v`
abbrev pub put : String → String → List (String × String) → List (String × String)
put k v [] = (k, v) ∷ []
put k v ((j, w) ∷ d) = let rest = put k v d in if str_eq j k then (j, v) ∷ d else (j, w) ∷ rest

-- The canonical field that a name names.
abbrev pub field_of : String → Option Field
field_of t = find_first (λ f. str_eq (field_name f) t) canonical_fields

abbrev pub put_field :
    FieldMapping → Option Field → String → List (String × String) → List (String × String)
put_field m none v d = d
put_field m (some f) v d = put (key_for m f) v d

-- The form, built entry by entry on the entries so far.
abbrev pub form_from :
    FieldMapping → List (String × String) → List (String × String) → List (String × String)
form_from m [] d = d
form_from m ((name, v) ∷ context) d = form_from m context (put_field m (field_of name) v d)

unfoldable pub upload_form : FieldMapping → List (String × String) → List (String × String)
upload_form m context = form_from m context []

abbrev pub is_accepted : ℕ → Bool
is_accepted status = status == 200 || status == 201 || status == 202

abbrev pub or_text : Option String → String → String
or_text none t = t
or_text (some s) t = if truthy (some s) then s else t

abbrev pub given : Option String → String → String
given none t = t
given (some s) t = s

abbrev pub refused : ℕ → String → Uploaded
refused status message =
    let again = status == 429 || leb 500 status in
    upload_error (if again then "UPLOAD_RETRYABLE" else "UPLOAD_REJECTED") message again

abbrev pub refused_message : String
refused_message = "后端拒绝了网关上传。"

-- The response to a post. `payload.get` on what is no object is an `AttributeError`.
unfoldable pub read_response : ℕ → Body → Uploaded
read_response status not_json =
    if is_accepted status
    then upload_error "UPLOAD_RESPONSE_INVALID" "后端返回缺少 inspection_id，图片保留在本地队列。" true
    else refused status refused_message
read_response status not_object =
    if is_accepted status
    then upload_error "UPLOAD_RESPONSE_INVALID" "后端返回缺少 inspection_id，图片保留在本地队列。" true
    else escaped
read_response status (object p) =
    if is_accepted status
    then elim p.inspection_id [
      | none ↦ upload_error "UPLOAD_RESPONSE_INVALID" "后端返回缺少 inspection_id，图片保留在本地队列。" true
      | some i ↦ result i p.idempotent_replay (given p.status "RECEIVED")
    ]
    else refused status (clip 300 (or_text p.message (or_text p.detail refused_message)))

unfoldable pub read_posted : Posted → Uploaded
unfolding read_response
read_posted (unreachable name) =
    upload_error "UPLOAD_TRANSPORT_ERROR" (str_append "后端暂不可达，图片保留在本地队列：" (str_append name "。"))
      true
read_posted (client_failed name) =
    upload_error "UPLOAD_HTTP_CLIENT_ERROR" (str_append "上传请求失败，图片保留在本地队列：" (str_append name "。"))
      true
read_posted (responded status body) = read_response status body

pub record Link : Type 0 where
  -- whether `GatewayTokenProvider.token` has a token to give
  pub has_token : Bool
  pub mapping : FieldMapping
  -- `json.loads` of the item's context
  pub context : Item → List (String × String)
  -- `client.post` of the item with the form
  pub post : Item → List (String × String) → Posted

-- `BackendUploader.upload`
unfoldable pub upload : Link → Item → Uploaded
unfolding read_posted upload_form
upload link item =
    if not (truthy item.idempotency_key && truthy item.mime_type)
    then upload_error "QUEUE_ITEM_INVALID" "队列项缺少幂等键或媒体类型，已保留待人工处理。" false
    else if not link.has_token
    then upload_error "AUTH_CONFIGURATION_ERROR" "生产网关未配置由 IdP/Secret Provider 注入的 token。" false
    else read_posted (link.post item (upload_form link.mapping (link.context item)))
