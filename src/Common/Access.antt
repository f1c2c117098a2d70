-- ===== src/Common/Access.antt =====
-- Who may act for whom (pkg/authverify/token.go), and the rights that a request's `ex` claims
-- (pkg/tools/utils/func.go). The operator's id comes from the request's
-- context (`mcontext.GetOpUserID`), the administrators' ids from the configuration.
use root_open_im_server.Base.{
  ℕ, String, Bool, ◌||◌, not, List, Option, none, some, str_eq, ◌==◌, contains, if◌then◌else◌,
}
use root_open_im_server.Base.Int.{ℤ, pos}
use root_open_im_server.Base.Result.{Result, ok, err, ◌>>=◌, ◌>>◌, fail_if}
use root_open_im_server.Common.Errors.{Error, no_permission, token_invalid}

pub record Actor : Type 0 where
  pub op_user_id : String
  pub manager_ids : List String
  pub im_admin_ids : List String

unfoldable pub check_access_v3 : Actor → String → Result Error (Unit {0})
check_access_v3 a owner_user_id =
    if contains a.op_user_id a.manager_ids
    then ok tt
    else if contains a.op_user_id a.im_admin_ids
    then ok tt
    else if str_eq a.op_user_id owner_user_id
    then ok tt
    else err no_permission

unfoldable pub is_app_manager_uid : Actor → Bool
is_app_manager_uid a = contains a.op_user_id a.manager_ids || contains a.op_user_id a.im_admin_ids

unfoldable pub check_admin : Actor → Result Error (Unit {0})
check_admin a =
    if contains a.op_user_id a.manager_ids
    then ok tt
    else if contains a.op_user_id a.im_admin_ids
    then ok tt
    else err no_permission

-- The claims of a token, as the token library returns them.
pub record Claims : Type 0 where
  pub user_id : String
  pub platform_id : ℕ

-- `get_claim_from_token` is the token library's.
unfoldable pub ws_verify_token :
    (String → Result Error Claims) → String → String → ℕ → Result Error (Unit {0})
ws_verify_token get_claim_from_token token user_id platform_id = do
  claim ← get_claim_from_token token
  fail_if (not (str_eq claim.user_id user_id)) token_invalid
  fail_if (not (claim.platform_id == platform_id)) token_invalid
  ok tt

-- `UserRights`, as `json.Unmarshal` reads it from `ex`.
pub record UserRights : Type 0 where
  pub anchor_auth : String
  pub high_auth : String
  pub operation_auth : String

abbrev pub no_rights : UserRights
no_rights = record { anchor_auth = "false"; high_auth = "false"; operation_auth = "false" }

unfoldable pub rights_of : UserRights → ℤ
rights_of r =
    if str_eq r.high_auth "true"
    then pos 3
    else if str_eq r.operation_auth "true"
    then pos 2
    else if str_eq r.anchor_auth "true"
    then pos 1
    else pos 0

-- `VerifyRights`, whose error the callers drop. `unmarshal` answers `none` where the text is no such
-- object.
unfoldable pub verify_rights : (String → Option UserRights) → String → ℤ
verify_rights unmarshal ex =
    if str_eq ex ""
    then rights_of no_rights
    else elim (unmarshal ex) [ none ↦ pos 0 | some r ↦ rights_of r ]
