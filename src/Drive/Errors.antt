-- ===== src/Drive/Errors.antt =====
-- The error values of internal/drive: those of the Proton API, as drive/backoff.go reads them, and
-- the sentinel errors of drive.go, file.go and backoff.go. The chain of wrapped errors is kept as
-- far as `errors.As` and `errors.Is` look at it.
use proton_drive_linux_fs.Base.{ℕ, Bool, false, ◌||◌, Option, none, some, ◌==◌}

-- proton.APIError, of the go-proton-api library: its HTTP status and Proton code.
pub record ApiError : Type 0 where
  pub status : ℕ
  pub code : ℕ

-- `api_ptr` is a *proton.APIError and `api_val` a proton.APIError in the error's chain.
-- `rate_limited` is ErrRateLimited wrapping an APIError by value, as getRawRetrying builds it.
pub data Err : Type 0 where
  api_ptr api_val rate_limited : ApiError → Err
  no_download_slot canceled deadline_exceeded : Err
  eof negative_offset block_not_found fetch_missing download_failed : Err
  other : ℕ → Err

pub data Result {ℓ} (A : Type ℓ) : Type ℓ where
  ok : A → Result A
  err : Err → Result A

-- HTTP statuses, of the net/http package.
abbrev pub status_unauthorized : ℕ
status_unauthorized = 401

abbrev pub status_forbidden : ℕ
status_forbidden = 403

abbrev pub status_not_found : ℕ
status_not_found = 404

abbrev pub status_unprocessable_entity : ℕ
status_unprocessable_entity = 422

abbrev pub status_too_many_requests : ℕ
status_too_many_requests = 429

abbrev pub status_service_unavailable : ℕ
status_service_unavailable = 503

-- Proton codes that go-proton-api names.
abbrev pub auth_refresh_token_invalid : ℕ
auth_refresh_token_invalid = 10013

abbrev pub a_file_or_folder_name_exist : ℕ
a_file_or_folder_name_exist = 2500

abbrev pub paid_plan_required : ℕ
paid_plan_required = 10004

unfoldable pub as_api_error : Err → Option ApiError
as_api_error (api_ptr e) = some e
as_api_error (api_val e) = some e
as_api_error (rate_limited e) = some e
as_api_error _ = none

abbrev status_is : Option ApiError → ℕ → Bool
status_is none n = false
status_is (some e) n = e.status == n

abbrev code_is : Option ApiError → ℕ → Bool
code_is none n = false
code_is (some e) n = e.code == n

unfoldable pub is_unauthorized : Err → Bool
unfolding as_api_error
is_unauthorized e = status_is (as_api_error e) status_unauthorized

unfoldable pub is_unrecoverable_auth : Err → Bool
unfolding as_api_error
is_unrecoverable_auth e = code_is (as_api_error e) auth_refresh_token_invalid

-- Only the pointer shape is looked for here.
unfoldable pub is_not_found : Err → Bool
is_not_found (api_ptr e) = e.status == status_not_found
is_not_found _ = false

rejected_status : Option ApiError → Bool
rejected_status none = false
rejected_status (some e) =
    e.status == status_unauthorized
    || e.status == status_forbidden
    || e.status == status_unprocessable_entity

unfoldable pub storage_token_rejected : Err → Bool
unfolding as_api_error rejected_status
storage_token_rejected e = rejected_status (as_api_error e)
