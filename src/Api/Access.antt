-- ===== src/Api/Access.antt =====
-- api/auth.rs and api/errors.rs: who may ask, and how an error is answered. The comparison of
-- `subtle` is an argument, and so is the text of an error of the storage, which `thiserror` derives.
-- The token is what its lock holds, and the lock is not poisoned.
pub mod Bearer
pub mod Redaction
use Prim.Native.Char.{code}
use Prim.Native.String.{◌++◌ as ◌+++◌}
use simple_network_monitor.Prelude.{
  ℕ, String, Bool, true, false, ◌&&◌, ◌==◌, Option, none, some, leb, Result, ok, err, if◌then◌else◌,
}
use simple_network_monitor.Storage.Errors.{
  StorageError, invalid_query, busy, stale_generation, not_found, invalid_data, internal,
}

pub data ApiError : Type 0 where
  unauthorized : ApiError
  bad_request : String → ApiError
  missing : String → ApiError
  internal_error : String → ApiError
  storage : StorageError → ApiError

unfoldable pub display : (StorageError → String) → ApiError → String
display show unauthorized = "unauthorized"
display show (bad_request value) = "bad request: " +++ value
display show (missing value) = value +++ " not found"
display show (internal_error value) = "internal error: " +++ value
display show (storage e) = show e

unfoldable pub status_code : ApiError → ℕ
status_code unauthorized = 401
status_code (bad_request value) = 400
status_code (storage (invalid_query value)) = 400
status_code (missing value) = 404
status_code (storage (not_found value)) = 404
status_code (storage busy) = 503
status_code (internal_error value) = 500
status_code (storage stale_generation) = 500
status_code (storage (invalid_data value)) = 500
status_code (storage (internal value)) = 500

-- `matches!(self, Self::Storage(StorageError::Busy))`.
abbrev pub is_busy : ApiError → Bool
is_busy (storage busy) = true
is_busy _ = false

pub record ErrorAnswer : Type 0 where
  pub code : ℕ
  pub error : String

-- `is_server_error` holds of 500 to 599.
abbrev pub is_server_error : ℕ → Bool
is_server_error code = leb 500 code && leb code 599

unfoldable pub error_response : (StorageError → String) → ApiError → ErrorAnswer
unfolding status_code display
error_response show e = record {
  code = status_code e;
  error =
      if is_server_error (status_code e)
      then (if is_busy e then "service busy; retry shortly" else "internal server error")
      else display show e;
}

-- `str::strip_prefix`.
unfoldable pub strip_prefix : String → String → Option String
strip_prefix String.[] s = some s
strip_prefix (String.◌∷◌ c p) String.[] = none
strip_prefix (String.◌∷◌ c p) (String.◌∷◌ d s) =
    let rest = strip_prefix p s in if code c == code d then rest else none

-- The `Authorization` header: absent, not readable as text, or a text.
pub data Header : Type 0 where
  absent : Header
  unreadable : Header
  readable : String → Header

-- What follows the prefix, against the token that is expected.
abbrev pub compare_presented :
    (String → String → Bool) → String → Option String → Result ApiError (Unit {0})
compare_presented ct_eq expected none = err unauthorized
compare_presented ct_eq expected (some presented) =
    if ct_eq presented expected then ok tt else err unauthorized

unfoldable pub authorize :
    (String → String → Bool) → Option String → Header → Result ApiError (Unit {0})
unfolding strip_prefix
authorize ct_eq none header = ok tt
authorize ct_eq (some expected) absent = err unauthorized
authorize ct_eq (some expected) unreadable = err unauthorized
authorize ct_eq (some expected) (readable value) =
    compare_presented ct_eq expected (strip_prefix "Bearer " value)
