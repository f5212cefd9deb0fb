-- ===== src/Migrate/Upload.antt =====
-- The upload of the log bundle (`send`, `parse_upload_response`, `reject_transport_downgrade` and
-- `send_error` of gnosis_vpn-migrate/src/upload.rs). HTTP, URL and JSON parsing are parameters; a run
-- is the list of its requests with its result.
pub mod Transport
use gnosis_vpn_toolkit.Prelude.{
  ℕ, zero, suc, ◌-◌, Bool, true, false, not, ◌&&◌, Option, none, some, List, [], ◌∷◌, ◌++◌, length,
  take, leb, ltb, ◌==◌, if◌then◌else◌, unwrap_or, Result, ok, err, ok_or,
}
use gnosis_vpn_toolkit.Prelude.Text.{Text, codes, is_empty, text_eq, show_nat}
use gnosis_vpn_toolkit.Manifest.Download.{HttpError}

pub record UploadResponse : Type 0 where
  pub uuid : Option Text
  pub upload_url : Option Text
  pub upload_headers : Option (List (Text × Text))
  pub error : Option Text

pub record SignedUpload : Type 0 where
  pub uuid : Text
  pub url : Text
  pub headers : List (Text × Text)

-- The crates below: the scheme of a URL that parses, the JSON parser, the check of the content type,
-- the POST of a file name, a head and a size, with the status and the reading of the body, and the
-- PUT with its status and the body, where that can be read.
pub record Services : Type 0 where
  pub scheme : Text → Option Text
  pub from_str : Text → Result Text UploadResponse
  pub mime_str : Result Text (Unit {0})
  pub post : Text → Text → List ℕ → Text → Result HttpError (ℕ × Result Text Text)
  pub put : Text → List (Text × Text) → List ℕ → Result HttpError (ℕ × Option Text)

pub data Sent : Type 0 where
  posted : Text → Text → List ℕ → Text → Sent
  put_to : Text → List (Text × Text) → List ℕ → Sent

-- `HEAD_BYTES`
abbrev pub head_bytes : ℕ
head_bytes = 4194304

unfoldable pub send_error : Text → HttpError → Text
send_error target e =
    if e.is_timeout
    then codes "upload timed out"
    else codes "could not reach " ++ (target ++ (codes ": " ++ e.text_without_url))

abbrev pub is_success : ℕ → Bool
is_success status = leb 200 status && ltb status 300

-- `filter(|s| !s.is_empty())`
abbrev not_empty : Option Text → Option Text
not_empty none = none
not_empty (some s) = if is_empty s then none else some s

-- `chars().take(n)`: a byte that continues a character stays with it.
pub take_chars : ℕ → Text → Text
take_chars n [] = []
take_chars zero (c ∷ s) =
    let more = take_chars zero s in if leb 128 c && ltb c 192 then c ∷ more else []
take_chars (suc n) (c ∷ s) =
    let same = take_chars (suc n) s in
    let next = take_chars n s in if leb 128 c && ltb c 192 then c ∷ same else c ∷ next

missing : ℕ → Text → Text
missing status field =
    codes "upload returned no " ++ (field ++ (codes " (HTTP " ++ (show_nat status ++ codes ")")))

server_error : Result Text UploadResponse → Option Text
server_error (ok r) = r.error
server_error (err e) = none

signed_upload : ℕ → UploadResponse → Result Text SignedUpload
unfolding missing
signed_upload status r = elim (not_empty r.uuid) [
  | none ↦ err (missing status (codes "uuid"))
  | some uuid ↦ elim (not_empty r.upload_url) [
    | none ↦ err (missing status (codes "uploadUrl"))
    | some url ↦ elim r.upload_headers [
      | none ↦ err (missing status (codes "uploadHeaders"))
      | some headers ↦ ok (record { uuid = uuid; url = url; headers = headers })
    ]
  ]
]

module _ (services : Services) where
  open services use {scheme, from_str, mime_str, post, put}

  abbrev pub is_https : Text → Bool
  is_https url = elim (scheme url) [ none ↦ false | some s ↦ text_eq s (codes "https") ]

  unfoldable pub reject_transport_downgrade : Text → Text → Result Text (Unit {0})
  reject_transport_downgrade api_url put_url =
      if is_https api_url && not (is_https put_url)
      then err (codes "the log uploader returned a non-https storage URL; refusing to upload")
      else ok tt

  unfoldable pub parse_upload_response : ℕ → Text → Result Text SignedUpload
  unfolding signed_upload server_error
  parse_upload_response status body =
      if not (is_success status)
      then err (
          unwrap_or (server_error (from_str body))
            (codes "upload failed (HTTP " ++ (show_nat status ++ codes ")")))
      else elim (from_str body) [
        | err e ↦ err (
            codes "upload returned malformed JSON (HTTP "
            ++ (show_nat status ++ (codes "): " ++ e)))
        | ok r ↦ signed_upload status r
      ]

  -- The second request.
  pub put_bundle : SignedUpload → List ℕ → List Sent × Result Text Text
  unfolding send_error take_chars
  put_bundle signed bundle =
      let sent = put_to signed.url signed.headers bundle ∷ [] in
      elim (put signed.url signed.headers bundle) [
        | err e ↦ (sent, err (send_error (codes "Cloud Storage") e))
        | ok (status, body) ↦ (
          sent,
          if is_success status
              then ok signed.uuid
              else err (
                  codes "Cloud Storage rejected the upload (HTTP "
                  ++ (show_nat status ++ (codes "): " ++ take_chars 500 (unwrap_or body [])))),
        )
      ]

  -- From the response to the first request.
  pub on_signed : Text → List ℕ → ℕ × Result Text Text → List Sent × Result Text Text
  on_signed api_url bundle (status, err e) = ([], err (codes "cannot read upload response: " ++ e))
  on_signed api_url bundle (status, ok body) = elim (parse_upload_response status body) [
    | err e ↦ ([], err e)
    | ok signed ↦ elim (reject_transport_downgrade api_url signed.url) [
      | err e ↦ ([], err e)
      | ok _ ↦ put_bundle signed bundle
    ]
  ]

  unfoldable pub send : Text → Text → List ℕ → List Sent × Result Text Text
  unfolding on_signed put_bundle
  send api_url file_name bundle = elim mime_str [
    | err e ↦ ([], err (codes "invalid upload content type: " ++ e))
    | ok _ ↦
        let head = take head_bytes bundle in
        let size = show_nat (length bundle) in
        let first = posted api_url file_name head size in
        elim (post api_url file_name head size) [
          | err e ↦ (first ∷ [], err (send_error (codes "the log uploader") e))
          | ok response ↦
              let (sent, result) = on_signed api_url bundle response in (first ∷ sent, result)
        ]
  ]
