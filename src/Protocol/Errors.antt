-- ===== src/Protocol/Errors.antt =====
-- protocol/errors.py: the closed taxonomy of error codes.
use lumencast_py.Prelude.{
  String, Bool, true, false, Option, none, some, if◌then◌else◌, str_eq, ◌≡◌, refl, List, [], ◌∷◌,
}

pub data ErrorCode : Type 0 where
  auth_denied write_forbidden scene_not_found bundle_fetch_failed bundle_incompatible : ErrorCode
  version_gap version_mismatch unknown_path invalid_value rate_limit : ErrorCode
  test_session_expired internal : ErrorCode

-- code.value
unfoldable pub value : ErrorCode → String
value auth_denied = "AUTH_DENIED"
value write_forbidden = "WRITE_FORBIDDEN"
value scene_not_found = "SCENE_NOT_FOUND"
value bundle_fetch_failed = "BUNDLE_FETCH_FAILED"
value bundle_incompatible = "BUNDLE_INCOMPATIBLE"
value version_gap = "VERSION_GAP"
value version_mismatch = "VERSION_MISMATCH"
value unknown_path = "UNKNOWN_PATH"
value invalid_value = "INVALID_VALUE"
value rate_limit = "RATE_LIMIT"
value test_session_expired = "TEST_SESSION_EXPIRED"
value internal = "INTERNAL"

abbrev pub all_codes : List ErrorCode
all_codes =
    auth_denied ∷ write_forbidden ∷ scene_not_found ∷ bundle_fetch_failed ∷ bundle_incompatible
    ∷ version_gap ∷ version_mismatch ∷ unknown_path ∷ invalid_value ∷ rate_limit
    ∷ test_session_expired ∷ internal ∷ []

find_code : List ErrorCode → String → Option ErrorCode
find_code [] s = none
find_code (c ∷ cs) s = if str_eq (value c) s then some c else find_code cs s

-- ErrorCode(s); `none` is the ValueError
unfoldable pub of_value : String → Option ErrorCode
unfolding find_code value
of_value s = find_code all_codes s

-- Looking a code up by its wire spelling gives the code back.
of_value-value : (c : ErrorCode) → of_value (value c) ≡ some c
unfolding of_value
of_value-value auth_denied = refl
of_value-value _ = refl

unfoldable pub recoverable : ErrorCode → Bool → Bool
recoverable write_forbidden internal_default = true
recoverable bundle_fetch_failed internal_default = true
recoverable version_gap internal_default = true
recoverable unknown_path internal_default = true
recoverable invalid_value internal_default = true
recoverable rate_limit internal_default = true
recoverable internal internal_default = internal_default
recoverable _ internal_default = false
