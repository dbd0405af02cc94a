-- ===== src/Proxy/Http.antt =====
-- src/proxy.rs: requests, responses and the header filters. A header's name and value are texts.
use llm_ctl.Base.{
  ℕ, ◌*◌, Option, none, some, Bool, true, false, List, [], ◌∷◌, ◌++◌, map, any, if◌then◌else◌,
}
use llm_ctl.Base.Text.{Text, lit, text_eq, to_ascii_lowercase}

pub data Method : Type 0 where
  get head post other : Method

abbrev pub is_post : Method → Bool
is_post post = true
is_post _ = false

pub record Request : Type 0 where
  pub method : Method
  pub path : Text
  pub query : Option Text
  pub headers : List (Text × Text)
  pub to_bytes : ℕ → Option (List ℕ)  -- `axum::body::to_bytes` of the body, at a limit

pub data Body : Type 0 where
  error_message : Text → Body
  service_status : Text → Body
  bytes : List ℕ → Body
  stream : Body

pub record Response : Type 0 where
  pub status : ℕ
  pub headers : List (Text × Text)
  pub body : Body

-- The worker's answer to a request that is sent on.
pub record Answer : Type 0 where
  pub status : ℕ
  pub headers : List (Text × Text)
  pub bytes : Option (List ℕ)  -- the whole body, or a failure while it is read

pub data Upstream : Type 0 where
  unreachable : Text → Upstream
  answers : Answer → Upstream

abbrev pub max_body : ℕ
max_body = 10 * 1024 * 1024

abbrev pub max_sse_buf : ℕ
max_sse_buf = 64 * 1024

abbrev json_type : List (Text × Text)
json_type = (lit "content-type", lit "application/json") ∷ []

unfoldable pub ok_json : Text → Response
ok_json worker_base = record {
  status = 200;
  headers = json_type;
  body = service_status worker_base;
}

unfoldable pub err_json : ℕ → Text → Response
err_json status msg = record { status = status; headers = json_type; body = error_message msg }

pub lower : Text → Text
lower = map to_ascii_lowercase

unfoldable pub hop_response : Text → Bool
unfolding lower
hop_response k =
    any (text_eq (lower k)) (lit "transfer-encoding" ∷ lit "content-length" ∷ lit "connection" ∷ [])

unfoldable pub hop_request : Text → Bool
unfolding lower
hop_request k =
    any (text_eq (lower k))
      (lit "host" ∷ lit "transfer-encoding" ∷ lit "content-length" ∷ lit "connection" ∷ [])

-- `HeaderMap::insert`, by the lower-case name that a `HeaderName` holds: a later value replaces all
-- those of its name.
unfoldable pub drop_header : Text → List (Text × Text) → List (Text × Text)
drop_header k [] = []
drop_header k ((j, v) ∷ hs) =
    let rest = drop_header k hs in if text_eq j k then rest else (j, v) ∷ rest

unfoldable pub insert_header : Text → Text → List (Text × Text) → List (Text × Text)
unfolding drop_header
insert_header k v hs = drop_header k hs ++ (k, v) ∷ []

-- The loop of `filtered_headers`, over the headers so far.
unfoldable pub filter_into : List (Text × Text) → List (Text × Text) → List (Text × Text)
filter_into out [] = out
filter_into out ((k, v) ∷ hs) =
    filter_into (if hop_request k then out else insert_header k v out) hs

unfoldable pub filtered_headers : List (Text × Text) → List (Text × Text)
unfolding filter_into hop_request insert_header
filtered_headers hs = filter_into [] hs

-- The response's headers that are passed on.
unfoldable pub passed_headers : List (Text × Text) → List (Text × Text)
unfolding hop_response
passed_headers [] = []
passed_headers ((k, v) ∷ hs) =
    let rest = passed_headers hs in if hop_response k then rest else (k, v) ∷ rest

unfoldable pub header : Text → List (Text × Text) → Option Text
header k [] = none
header k ((j, v) ∷ hs) = if text_eq j k then some v else header k hs
