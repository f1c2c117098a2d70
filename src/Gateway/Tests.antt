-- ===== src/Gateway/Tests.antt =====
-- The gateway at concrete inputs: a user with two phones and a desktop.
use root_open_im_server.Base.{
  ℕ, String, true, false, List, [], ◌∷◌, ◌++◌, none, some, eq_iff, ◌≡◌, refl, arith, keep, suc,
  length,
}
use root_open_im_server.Base.Int.{pos}
use root_open_im_server.Base.Dict.{lookup}
use root_open_im_server.Base.Result.{ok}
use root_open_im_server.Common.Access.{Claims, ws_verify_token}
use root_open_im_server.Common.Constants.{normal_token, kicked_token, all_login_but_same_term_kick}
use root_open_im_server.Gateway.UserMap.{Client, get, set, delete_clients, on_platform}
use root_open_im_server.Gateway.UserMap.Laws.{conns, IsTable}
use root_open_im_server.Gateway.Server.{
  Env, Server, TokenMap, register, unregister, register_client, unregister_client, kick_tokens,
  kick_user_conn, run, multi_terminal_login_checker, kick_same_terminal, replace_tokens,
  register_conn, announce, set_user_online_status, send_user_online_info_to_other_node,
}
use root_open_im_server.Gateway.Server.Laws.{
  staying, conns-register_client, register_client_only, conns-unregister_client,
}
use root_open_im_server.Gateway.Server.Tokens.{lookup-kick_tokens}
use root_open_im_server.Gateway.Server.Counters.{IsAccurate, run-IsAccurate, kick_user_conn_drifts}
use root_open_im_server.Gateway.Admission.{
  Admission, Request, parse_ws_args, check_token, token_status, ws_handler, registered,
}
use root_open_im_server.Gateway.Admission.Laws.{
  IsAdmitted, parse_ws_args_accepts, parse_ws_args_sound, ws_handler_authentic,
}

abbrev env : Env TokenMap
env = record {
  multi_login_policy = all_login_but_same_term_kick;
  platform_id_to_class = λ p. "Mobile";
  is_zookeeper = true;
  conns = ok ("node1" ∷ "node2" ∷ []);
  self_conn_target = "node1";
  get_tokens = λ cache u p. ok (some cache);
  set_token_map = λ cache u p m. (m, ok tt);
}

abbrev phone : Client
phone = record {
  user_id = "ann";
  platform_id = 1;
  remote_addr = "10.0.0.1:1";
  conn_id = "c1";
  is_background = false;
  token = "t1";
}

abbrev desktop : Client
desktop = record phone { platform_id = 3; remote_addr = "10.0.0.1:2"; conn_id = "c2"; token = "t2" }

abbrev new_phone : Client
new_phone = record phone { remote_addr = "10.0.0.1:3"; conn_id = "c3"; token = "t3" }

abbrev tokens : TokenMap
tokens = ("t1", normal_token) ∷ ("t3", normal_token) ∷ []

abbrev empty_server : Server TokenMap
empty_server = record {
  clients = [];
  online_user_num = pos 0;
  online_user_conn_num = pos 0;
  cache = tokens;
  effects = [];
}

abbrev one_user : Server TokenMap
one_user = record empty_server {
  clients = ("ann", phone ∷ desktop ∷ []) ∷ [];
  online_user_num = pos 1;
  online_user_conn_num = pos 2;
}

abbrev one_phone : Server TokenMap
one_phone = record one_user { clients = ("ann", phone ∷ []) ∷ []; online_user_conn_num = pos 1 }

empty_server-IsAccurate : IsAccurate empty_server
empty_server-IsAccurate = record { table = ground arith; counted = refl }

one_phone-IsAccurate : IsAccurate one_phone
one_phone-IsAccurate = record { table = ground arith; counted = refl }

-- Registering the new phone leaves the desktop.
register_new_phone :
    conns (register_client env new_phone one_user).clients "ann" ≡ desktop ∷ new_phone ∷ []
unfolding register_client register_conn announce get set delete_clients multi_terminal_login_checker
    kick_same_terminal set_user_online_status send_user_online_info_to_other_node replace_tokens
register_new_phone = refl

register_client_only_example :
    keep (on_platform 1) (conns (register_client env new_phone one_user).clients "ann")
    ≡ new_phone ∷ []
register_client_only_example = register_client_only env new_phone one_user refl

conns-register_client_example :
    conns (register_client env new_phone one_user).clients "ann"
    ≡ staying env new_phone (phone ∷ desktop ∷ []) ++ new_phone ∷ []
conns-register_client_example = conns-register_client env new_phone one_user "ann"

conns-unregister_client_example :
    conns (unregister_client env phone one_user).clients "ann" ≡ desktop ∷ []
conns-unregister_client_example = conns-unregister_client env phone one_user "ann"

lookup-kick_tokens_example : lookup "t1" (kick_tokens "t3" tokens) ≡ some kicked_token
lookup-kick_tokens_example = lookup-kick_tokens "t3" "t1" tokens

run-IsAccurate_example : IsAccurate (
    run env
      (register phone
        ∷ register desktop
        ∷ register new_phone
        ∷ unregister phone
        ∷ unregister new_phone
        ∷ [])
      empty_server)
run-IsAccurate_example =
    run-IsAccurate env
      (register phone
        ∷ register desktop
        ∷ register new_phone
        ∷ unregister phone
        ∷ unregister new_phone
        ∷ [])
      empty_server tt empty_server-IsAccurate

kick_user_conn_drifts_example :
    let gone = unregister_client env phone (kick_user_conn env phone one_phone) in
    IsTable gone.clients × (gone.online_user_num ≡ pos (suc (length gone.clients)))
kick_user_conn_drifts_example = kick_user_conn_drifts env phone one_phone one_phone-IsAccurate refl

abbrev request : Request
request = record {
  msg_resp = "true";
  token = "t1";
  send_id = "ann";
  platform_id = "1";
  compression = "gzip";
  header_compression = "";
  remote_addr = "10.0.0.1:1";
  conn_id = "c1";
}

abbrev claim : Claims
claim = record { user_id = "ann"; platform_id = 1 }

abbrev admission : Admission
admission = record {
  parse_bool = λ s. true;
  atoi = λ s. some 1;
  get_claim_from_token = λ t. ok claim;
  get_tokens = λ u p. ok tokens;
  online_user_conn_num = pos 2;
  ws_max_conn_num = pos 100;
}

request-IsAdmitted : IsAdmitted admission request 1 claim tokens
request-IsAdmitted = record {
  below_limit = refl;
  has_token = ground (arith, eq_iff "t1" "");
  has_user = ground (arith, eq_iff "ann" "");
  has_platform = ground (arith, eq_iff "1" "");
  platform = refl;
  claims = refl;
  own_user = refl;
  own_platform = refl;
  tokens = refl;
  normal = refl;
}

no_error : (parse_ws_args admission request).1 ≡ none
no_error = (parse_ws_args_accepts admission request 1 claim tokens request-IsAdmitted).0

parse_ws_args_sound_example :
    (p : ℕ) × (claim : Claims) × (m : List (String × ℕ)) × IsAdmitted admission request p claim m
parse_ws_args_sound_example = parse_ws_args_sound admission request no_error

request_registered : ws_handler admission (ok tt) (ok tt) (ok tt) request ≡ registered phone
unfolding ws_handler parse_ws_args check_token token_status ws_verify_token
request_registered = refl

ws_handler_authentic_example :
    (phone.user_id ≡ "ann")
    × (phone.token ≡ "t1")
    × (admission.atoi request.platform_id ≡ some 1)
    × (claim : Claims) × (m : List (String × ℕ)) × (admission.get_claim_from_token "t1" ≡ ok claim)
    × (claim.user_id ≡ "ann")
    × (claim.platform_id ≡ 1)
    × (admission.get_tokens "ann" 1 ≡ ok m)
    × (lookup "t1" m ≡ some normal_token)
ws_handler_authentic_example =
    ws_handler_authentic admission request (ok tt) (ok tt) (ok tt) phone request_registered
