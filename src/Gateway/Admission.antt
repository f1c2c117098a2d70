-- ===== src/Gateway/Admission.antt =====
-- Admitting a connection: `ParseWSArgs` and `wsHandler` of internal/msggateway/n_ws_server.go.
-- An `int` is given by its bits, as it is only compared. Query parameters that are missing read as
-- the empty text.
pub mod Laws
use root_open_im_server.Base.{
  ℕ, String, Bool, true, false, ◌||◌, List, [], ◌∷◌, Option, none, some, str_eq, ◌==◌,
  if◌then◌else◌, leb,
}
use root_open_im_server.Base.Int.{ℤ, leb_ℤ}
use root_open_im_server.Base.Dict.{lookup}
use root_open_im_server.Base.Result.{Result, ok, err, ◌>>=◌, ◌>>◌}
use root_open_im_server.Common.Errors.{
  Error, conn_over_max_num_limit, conn_args_err, token_kicked, token_unknown, token_not_exist,
}
use root_open_im_server.Common.Access.{Claims, ws_verify_token}
use root_open_im_server.Common.Constants.{normal_token, kicked_token}
use root_open_im_server.Gateway.UserMap.{Client}

-- The request as the handler reads it.
pub record Request : Type 0 where
  pub msg_resp : String
  pub token : String
  pub send_id : String
  pub platform_id : String
  pub compression : String
  pub header_compression : String
  pub remote_addr : String
  pub conn_id : String

pub record WsArgs : Type 0 where
  pub token : String
  pub user_id : String
  pub platform_id : ℕ
  pub compression : Bool
  pub msg_resp : Bool

-- The library functions and services that the handler calls, and the server's state that it reads.
pub record Admission : Type 0 where
  pub parse_bool : String → Bool
  pub atoi : String → Option ℕ
  pub get_claim_from_token : String → Result Error Claims
  pub get_tokens : String → ℕ → Result Error (List (String × ℕ))
  pub online_user_conn_num : ℤ
  pub ws_max_conn_num : ℤ

abbrev pub gzip : String
gzip = "gzip"

-- The status of a token in the user's token map.
unfoldable pub token_status : Option ℕ → Option Error
token_status none = some token_not_exist
token_status (some v) =
    if v == normal_token
    then none
    else if v == kicked_token
    then some token_kicked
    else some token_unknown

-- What the handler comes to: a plain HTTP error, a connection closed again (with what was
-- written to it), or a client for `registerChan`.
pub data Outcome : Type 0 where
  http_error : Error → Outcome
  closed : Outcome
  registered : Client → Outcome

module _ (env : Admission) where
  -- The checks behind the platform id, which no longer change the arguments but for the
  -- compression.
  unfoldable pub check_token : Request → WsArgs → WsArgs × Option Error
  unfolding token_status
  check_token r v =
      let v' = record v {
        compression = str_eq r.compression gzip || str_eq r.header_compression gzip;
      } in
      elim (ws_verify_token env.get_claim_from_token v.token v.user_id v.platform_id) [
        | err e ↦ (v, some e)
        | ok _ ↦ elim (env.get_tokens v.user_id v.platform_id) [
          | err e ↦ (v', some e)
          | ok m ↦ (v', token_status (lookup v.token m))
        ]
      ]

  abbrev pub no_args : Request → WsArgs
  no_args r = record {
    token = "";
    user_id = "";
    platform_id = 0;
    compression = false;
    msg_resp = env.parse_bool r.msg_resp;
  }

  -- The arguments read so far are returned beside an error.
  unfoldable pub parse_ws_args : Request → WsArgs × Option Error
  unfolding check_token
  parse_ws_args r =
      let v = no_args r in
      let with_token = record v { token = r.token } in
      let with_user = record with_token { user_id = r.send_id } in
      if leb_ℤ env.ws_max_conn_num env.online_user_conn_num
      then (v, some conn_over_max_num_limit)
      else if str_eq r.token ""
      then (with_token, some conn_args_err)
      else if str_eq r.send_id ""
      then (with_user, some conn_args_err)
      else if str_eq r.platform_id ""
      then (with_user, some conn_args_err)
      else elim (env.atoi r.platform_id) [
        | none ↦ (with_user, some conn_args_err)
        | some platform_id ↦ check_token r (record with_user { platform_id = platform_id })
      ]

  -- `StringToInt`: 0 where the text is no number.
  abbrev pub string_to_int : String → ℕ
  string_to_int s = elim (env.atoi s) [ none ↦ 0 | some n ↦ n ]

  -- `newContext` and `ResetClient`: user, platform and token come from the request again.
  abbrev pub reset_client : Request → WsArgs → Client
  reset_client r v = record {
    user_id = r.send_id;
    platform_id = string_to_int r.platform_id;
    remote_addr = r.remote_addr;
    conn_id = r.conn_id;
    is_background = false;
    token = v.token;
  }

  -- `generate` is `GenerateLongConn`, `marshal` and `write` say whether the reply to the client
  -- could be encoded and written.
  unfoldable pub ws_handler : (generate marshal write : Result Error (Unit {0})) → Request → Outcome
  ws_handler generate marshal write r =
      let (args, p_err) = parse_ws_args r in
      let accept : Outcome = elim p_err [
        | none ↦ registered (reset_client r args)
        | some _ ↦ closed
      ] in
      if args.msg_resp
      then elim generate [
        | err e ↦ http_error e
        | ok _ ↦ elim marshal [
          | err _ ↦ closed
          | ok _ ↦ elim write [ err _ ↦ closed | ok _ ↦ accept ]
        ]
      ]
      else elim p_err [
        | some e ↦ http_error e
        | none ↦ elim generate [ err e ↦ http_error e | ok _ ↦ registered (reset_client r args) ]
      ]
