-- ===== src/Migrate/Upload/Transport.antt =====
-- What leaves the machine in an upload, and over which transport.
use gnosis_vpn_toolkit.Prelude.{
  ℕ, true, List, [], ◌∷◌, ◌≡◌, refl, ap, ◌∙◌, Option, inl, inr, arith, All, length, take, Result,
  ok, err, Result-cases,
}
use gnosis_vpn_toolkit.Prelude.Text.{Text, show_nat}
use gnosis_vpn_toolkit.Manifest.Download.{HttpError}
use gnosis_vpn_toolkit.Migrate.Upload.{
  is_success, SignedUpload, Services, Sent, posted, put_to, head_bytes, is_https,
  reject_transport_downgrade, parse_upload_response, put_bundle, on_signed, send,
}

-- A PUT goes to an https URL.
abbrev pub IsSecure : Services → Sent → Type 0
IsSecure services (posted url name head size) = Unit {0}
IsSecure services (put_to url headers body) = is_https services url ≡ true

module _ (services : Services) (api_url file_name : Text) (bundle : List ℕ) where
  reject_transport_downgrade-https :
      (put_url : Text)
      → is_https services api_url ≡ true
      → reject_transport_downgrade services api_url put_url ≡ ok tt
      → is_https services put_url ≡ true
  unfolding reject_transport_downgrade
  reject_transport_downgrade-https put_url https accepted = ground arith

  put_bundle-sent :
      (signed : SignedUpload)
      → (put_bundle services signed bundle).0 ≡ put_to signed.url signed.headers bundle ∷ []
  unfolding put_bundle
  put_bundle-sent signed = elim (Result-cases (services.put signed.url signed.headers bundle)) [
    | inl (answer, h) ↦ rw (put_bundle, h) refl
    | inr (e, h) ↦ rw (put_bundle, h) refl
  ]

  -- The storage took the bundle.
  abbrev pub Stored : SignedUpload → Type 0
  Stored signed =
      (status : ℕ) × (body : Option Text) × (services.put signed.url signed.headers bundle
        ≡ ok (status, body))
      × (is_success status ≡ true)

  put_bundle-uuid :
      (signed : SignedUpload) {uuid : Text}
      → (put_bundle services signed bundle).1 ≡ ok uuid
      → (signed.uuid ≡ uuid) × Stored signed
  unfolding put_bundle
  put_bundle-uuid signed {uuid} h =
      elim (Result-cases (services.put signed.url signed.headers bundle)) [
        | inl ((status, body), e) ↦ (ground arith, (status, body, e, ground arith))
        | inr (e, lost) ↦ absurd (ground arith)
      ]

  on_signed-IsSecure :
      (response : ℕ × Result Text Text)
      → is_https services api_url ≡ true
      → All (IsSecure services) (on_signed services api_url bundle response).0
  unfolding on_signed
  on_signed-IsSecure (status, err e) https = tt
  on_signed-IsSecure (status, ok body) https =
      elim (Result-cases (parse_upload_response services status body)) [
        | inr (e, h) ↦ rw (on_signed, h) tt
        | inl (signed, h) ↦
            elim (Result-cases (reject_transport_downgrade services api_url signed.url)) [
              | inr (e, refused) ↦ rw (on_signed, h, refused) tt
              | inl (_, accepted) ↦
                  rw (on_signed, h, accepted, put_bundle-sent signed)
                    (reject_transport_downgrade-https signed.url https accepted, tt)
            ]
      ]

  -- A response after which an identifier is returned has been followed by the PUT alone.
  on_signed-uploaded :
      (response : ℕ × Result Text Text) {uuid : Text}
      → (on_signed services api_url bundle response).1 ≡ ok uuid
      → (status : ℕ) × (body : Text) × (signed : SignedUpload) × (response ≡ (status, ok body))
        × (parse_upload_response services status body ≡ ok signed)
        × (signed.uuid ≡ uuid)
        × Stored signed
        × ((on_signed services api_url bundle response).0
            ≡ put_to signed.url signed.headers bundle ∷ [])
  unfolding on_signed
  on_signed-uploaded (status, err e) h = absurd (ground arith)
  on_signed-uploaded (status, ok body) {uuid} h =
      elim (Result-cases (parse_upload_response services status body)) [
        | inr (e, p) ↦ absurd (ground arith)
        | inl (signed, p) ↦
            elim (Result-cases (reject_transport_downgrade services api_url signed.url)) [
              | inr (e, refused) ↦ absurd (ground arith)
              | inl (_, accepted) ↦
                  let result : (put_bundle services signed bundle).1 ≡ ok uuid = ground arith in
                  (
                    status,
                    body,
                    signed,
                    refl,
                    p,
                    (put_bundle-uuid signed result).0,
                    (put_bundle-uuid signed result).1,
                    rw (on_signed, p, accepted) (put_bundle-sent signed),
                  )
            ]
      ]

  -- With an uploader that is reached over https, nothing is ever put to a URL with another scheme,
  -- however the run ends.
  pub send-IsSecure :
      is_https services api_url ≡ true
      → All (IsSecure services) (send services api_url file_name bundle).0
  unfolding send
  send-IsSecure https = elim (Result-cases services.mime_str) [
    | inr (e, bad) ↦ rw (send, bad) tt
    | inl (_, fine) ↦
        elim (Result-cases
          (services.post api_url file_name (take head_bytes bundle) (show_nat (length bundle)))) [
            | inr (e, lost) ↦ rw (send, fine, lost) (tt, tt)
            | inl (response, got) ↦ rw (send, fine, got) (tt, on_signed-IsSecure response https)
          ]
  ]

  abbrev pub first_answer : Result HttpError (ℕ × Result Text Text)
  first_answer = services.post api_url file_name (take head_bytes bundle) (show_nat (length bundle))

  -- A run that returns an identifier has made exactly two requests. The first had the head of the
  -- bundle and its size, and what it was answered, with the status of that answer, parses as the
  -- response that named this identifier. The second had the whole bundle, went to the URL and with the
  -- headers of that response, and was answered with a status of success.
  pub send-uploaded :
      {uuid : Text}
      → (send services api_url file_name bundle).1 ≡ ok uuid
      → (status : ℕ) × (body : Text) × (signed : SignedUpload) × (first_answer
          ≡ ok (status, ok body))
        × (parse_upload_response services status body ≡ ok signed)
        × (signed.uuid ≡ uuid)
        × Stored signed
        × ((send services api_url file_name bundle).0
            ≡ posted api_url file_name (take head_bytes bundle) (show_nat (length bundle))
              ∷ put_to signed.url signed.headers bundle
              ∷ [])
  unfolding send
  send-uploaded {uuid} h = elim (Result-cases services.mime_str) [
    | inr (e, bad) ↦ absurd (ground arith)
    | inl (_, fine) ↦
        elim (Result-cases
          (services.post api_url file_name (take head_bytes bundle) (show_nat (length bundle)))) [
            | inr (e, lost) ↦ absurd (ground arith)
            | inl (response, got) ↦
                let result : (on_signed services api_url bundle response).1 ≡ ok uuid =
                  ground arith in
                let (status, body, signed, same, p, named, stored, sent) =
                  on_signed-uploaded response result in
                (
                  status,
                  body,
                  signed,
                  got ∙ ap ok same,
                  p,
                  named,
                  stored,
                  rw (send, fine, got)
                      (ap
                        (λ t.
                          posted api_url file_name (take head_bytes bundle)
                            (show_nat (length bundle))
                          ∷ t)
                        sent),
                )
          ]
  ]
