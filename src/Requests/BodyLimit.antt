-- ===== src/Requests/BodyLimit.antt =====
-- middleware/bodylimit.go. A body is its bytes; `none` stands for http.NoBody.
use talepanel.Base.{
  ℕ, ℤ, pos, ltb_ℤ, ◌*◌, ◌^◌, ◌≤◌, String, ◌||◌, Option, none, some, List, [], ◌∷◌, length, ltb,
  str_eq, if◌then◌else◌, codes, ◌≡◌, ap, sym, ◌∙◌, arith, any,
}
use talepanel.Webhook.Validate.{has_prefix}

abbrev pub default_body_limit : ℕ
default_body_limit = 2 ^ 20

abbrev pub daemon_body_limit : ℕ
daemon_body_limit = 8 * 2 ^ 20

abbrev pub file_content_body_limit : ℕ
file_content_body_limit = 8 * 2 ^ 20

abbrev pub mod_upload_body_limit : ℕ
mod_upload_body_limit = 512 * 2 ^ 20

abbrev pub daemon_paths : List String
daemon_paths =
    "/api/v1/nodes/:id/register" ∷ "/api/v1/nodes/:id/heartbeat"
    ∷ "/api/v1/nodes/:id/commands/:cmd_id/ack" ∷ "/api/v1/nodes/:id/ddos" ∷ []

-- `none` is NoBodyLimit.
unfoldable pub body_limit_for : String → Option ℕ
body_limit_for path =
    if str_eq path "/api/v1/servers/:id/files/upload"
    then none
    else (if str_eq path "/api/v1/servers/:id/mods/upload"
        then some mod_upload_body_limit
        else (if str_eq path "/api/v1/servers/:id/files/content"
            then some file_content_body_limit
            else (if any (str_eq path) daemon_paths
                  || has_prefix (codes path) (codes "/api/v1/servers/:id/daemon/")
                then some daemon_body_limit
                else some default_body_limit)))

-- What the next handler gets: an answer instead, no body, or a body whose reading ends with its
-- bytes, or with an error past the cap of http.MaxBytesReader.
pub data Handed : Type 0 where
  rejected : ℕ → Handed
  empty : Handed
  body : List ℕ → Handed
  cut_off : ℕ → List ℕ → Handed

abbrev pub max_bytes : ℕ → List ℕ → Handed
max_bytes limit bytes = if ltb limit (length bytes) then cut_off limit bytes else body bytes

abbrev pub capped_by : Option ℕ → ℤ → Option (List ℕ) → Handed
capped_by limit content_length none = empty
capped_by none content_length (some bytes) = body bytes
capped_by (some limit) content_length (some bytes) =
    if ltb_ℤ (pos limit) content_length then rejected 413 else max_bytes limit bytes

unfoldable pub body_limit : String → ℤ → Option (List ℕ) → Handed
body_limit path content_length bytes = capped_by (body_limit_for path) content_length bytes

capped_by-bound :
    (limit : ℕ) (content_length : ℤ) (bytes : Option (List ℕ)) (got : List ℕ)
    → capped_by (some limit) content_length bytes ≡ body got
    → (bytes ≡ some got) × (length got ≤ limit)
capped_by-bound limit content_length none got h = ground arith
capped_by-bound limit content_length (some bytes) got h = ground arith

-- A handler of a route with a cap that reads a body to its end without an error has read the whole
-- body of the request, and no more bytes than the cap.
pub body_limit_bound :
    (path : String) (limit : ℕ) (content_length : ℤ) (bytes : Option (List ℕ)) (got : List ℕ)
    → body_limit_for path ≡ some limit
    → body_limit path content_length bytes ≡ body got
    → (bytes ≡ some got) × (length got ≤ limit)
unfolding body_limit
body_limit_bound path limit content_length bytes got is_limit handed =
    capped_by-bound limit content_length bytes got
      (ap (λ l. capped_by l content_length bytes) (sym is_limit) ∙ handed)
