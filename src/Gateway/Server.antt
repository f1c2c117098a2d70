-- ===== src/Gateway/Server.antt =====
-- The long-connection server, internal/msggateway/n_ws_server.go: registering and unregistering
-- connections, the multi-terminal login policy, and the kicks that internal/msggateway/hub_server.go
-- asks for. The channels of `Run` are a list of commands, taken one at a time.
pub mod Laws
pub mod Counters
pub mod Tokens
use root_open_im_server.Base.{
  ℕ, String, Bool, true, false, not, ◌&&◌, List, [], ◌∷◌, ◌++◌, map, Option, none, some, str_eq,
  ◌==◌, if◌then◌else◌,
}
use root_open_im_server.Base.Int.{ℤ, incr, decr}
use root_open_im_server.Base.Result.{Result, ok, err}
use root_open_im_server.Common.Errors.{Error}
use root_open_im_server.Common.Constants.{
  kicked_token, default_not_kick, pc_and_other, all_login_but_same_term_kick,
}
use root_open_im_server.Gateway.UserMap.{Client, UserMap, get, set, delete, delete_clients}

abbrev pub TokenMap : Type 0
TokenMap = List (String × ℕ)

-- What the server does to the outside, in the order of the code.
pub data Effect : Type 0 where
  -- `KickOnlineMessage`: the kick message is written and the connection closed.
  kick_online_message : Client → Effect
  -- `userClient.SetUserStatus`, and the callback that follows it.
  set_user_status : String → (online : Bool) → ℕ → Effect
  callback_user_online : String → ℕ → Bool → String → Effect
  callback_user_offline : String → ℕ → String → Effect
  -- `MultiTerminalLoginCheck` of another node: node, user, platform, token.
  multi_terminal_login_check : String → String → ℕ → String → Effect

-- The configuration and the services that the server calls. `get_tokens` answers `ok none` for a
-- nil map. The stored tokens are the cache's state, `Cache`.
pub record Env (Cache : Type 0) : Type 0 where
  pub multi_login_policy : ℕ
  pub platform_id_to_class : ℕ → String
  pub is_zookeeper : Bool
  pub conns : Result Error (List String)
  pub self_conn_target : String
  pub get_tokens : Cache → String → ℕ → Result Error (Option TokenMap)
  pub set_token_map : Cache → String → ℕ → TokenMap → Cache × Result Error (Unit {0})

pub record Server (Cache : Type 0) : Type 0 where
  pub clients : UserMap
  pub online_user_num : ℤ
  pub online_user_conn_num : ℤ
  pub cache : Cache
  pub effects : List Effect

-- What arrives at the loop of `Run`.
pub data Command : Type 0 where
  register : Client → Command
  unregister : Client → Command
  kick : Bool → List Client → Client → Command

abbrev pub terminal_pc : String
terminal_pc = "PC"

-- The loop over the token map: every token but the client's own gets the kicked status.
unfoldable pub kick_tokens : String → TokenMap → TokenMap
kick_tokens own [] = []
kick_tokens own ((k, v) ∷ m) = (k, if str_eq k own then v else kicked_token) ∷ kick_tokens own m

module _ {Cache : Type 0} (env : Env Cache) where
  abbrev pub emit : List Effect → Server Cache → Server Cache
  emit es ws = record ws { effects = ws.effects ++ es }

  -- The part of `multiTerminalLoginChecker` behind the cache's answer. A failure to store the map
  -- is only logged.
  unfoldable pub replace_tokens :
      Client → Result Error (Option TokenMap) → Server Cache → Server Cache
  replace_tokens new_client (err e) ws = ws
  replace_tokens new_client (ok none) ws = ws
  replace_tokens new_client (ok (some m)) ws = record ws {
    cache =
        (env.set_token_map ws.cache new_client.user_id new_client.platform_id
          (kick_tokens new_client.token m)).0;
  }

  -- The case `AllLoginButSameTermKick`.
  unfoldable pub kick_same_terminal : Bool → List Client → Client → Server Cache → Server Cache
  kick_same_terminal client_ok old_clients new_client ws =
      let kicked = record ws {
        clients = (delete_clients ws.clients new_client.user_id old_clients).0;
        effects = ws.effects ++ map kick_online_message old_clients;
      } in
      if not client_ok
      then ws
      else replace_tokens new_client
          (env.get_tokens ws.cache new_client.user_id new_client.platform_id) kicked

  -- The `switch` on the policy; its second case falls through to the third.
  unfoldable pub multi_terminal_login_checker :
      Bool → List Client → Client → Server Cache → Server Cache
  multi_terminal_login_checker client_ok old_clients new_client ws =
      if env.multi_login_policy == default_not_kick
      then ws
      else if env.multi_login_policy == pc_and_other
      then (if str_eq (env.platform_id_to_class new_client.platform_id) terminal_pc
          then ws
          else kick_same_terminal client_ok old_clients new_client ws)
      else if env.multi_login_policy == all_login_but_same_term_kick
      then kick_same_terminal client_ok old_clients new_client ws
      else ws

  abbrev pub user_status_effects : Client → Bool → List Effect
  user_status_effects c true =
      set_user_status c.user_id true c.platform_id
      ∷ callback_user_online c.user_id c.platform_id c.is_background c.conn_id
      ∷ []
  user_status_effects c false =
      set_user_status c.user_id false c.platform_id
      ∷ callback_user_offline c.user_id c.platform_id c.conn_id
      ∷ []

  -- `SetUserOnlineStatus`. The two failures are only logged.
  unfoldable pub set_user_online_status : Client → Bool → Server Cache → Server Cache
  set_user_online_status c online ws = emit (user_status_effects c online) ws

  abbrev pub check_nodes : Client → List String → List Effect
  check_nodes c [] = []
  check_nodes c (node ∷ nodes) =
      if str_eq node env.self_conn_target
      then check_nodes c nodes
      else multi_terminal_login_check node c.user_id c.platform_id c.token ∷ check_nodes c nodes

  -- The calls are concurrent in the code; none of their results is used.
  unfoldable pub send_user_online_info_to_other_node : Client → Server Cache → Server Cache
  send_user_online_info_to_other_node c ws = elim env.conns [
    | ok nodes ↦ emit (check_nodes c nodes) ws
    | err e ↦ ws
  ]

  -- The table and the counters of `registerClient`, up to its goroutines.
  unfoldable pub register_conn : Client → Server Cache → Server Cache
  register_conn c ws =
      let (old_clients, user_ok, client_ok) = get ws.clients c.user_id c.platform_id in
      let checked = multi_terminal_login_checker client_ok old_clients c ws in
      if not user_ok
      then record ws {
        clients = set ws.clients c.user_id c;
        online_user_num = incr ws.online_user_num;
        online_user_conn_num = incr ws.online_user_conn_num;
      }
      else record checked {
        clients = set checked.clients c.user_id c;
        online_user_conn_num = incr checked.online_user_conn_num;
      }

  -- What `registerClient` starts in goroutines and waits for.
  unfoldable pub announce : Client → Server Cache → Server Cache
  announce c ws =
      set_user_online_status c true
        (if env.is_zookeeper then send_user_online_info_to_other_node c ws else ws)

  unfoldable pub register_client : Client → Server Cache → Server Cache
  register_client c ws = announce c (register_conn c ws)

  unfoldable pub unregister_client : Client → Server Cache → Server Cache
  unregister_client c ws =
      let (clients, is_delete_user) = delete ws.clients c.user_id c.remote_addr in
      set_user_online_status c false (record ws {
        clients = clients;
        online_user_num = if is_delete_user then decr ws.online_user_num else ws.online_user_num;
        online_user_conn_num = decr ws.online_user_conn_num;
      })

  -- `KickUserConn`, which the hub calls outside the loop of `Run`.
  unfoldable pub kick_user_conn : Client → Server Cache → Server Cache
  kick_user_conn c ws = record ws {
    clients = (delete_clients ws.clients c.user_id (c ∷ [])).0;
    effects = ws.effects ++ kick_online_message c ∷ [];
  }

  abbrev pub kick_all : List Client → Server Cache → Server Cache
  kick_all [] ws = ws
  kick_all (c ∷ cs) ws = kick_all cs (kick_user_conn c ws)

  -- `KickUserOffline` of the hub: the users' connections on one platform.
  unfoldable pub kick_user_offline : ℕ → List String → Server Cache → Server Cache
  kick_user_offline platform_id [] ws = ws
  kick_user_offline platform_id (v ∷ vs) ws =
      let (clients, user_ok, client_ok) = get ws.clients v platform_id in
      kick_user_offline platform_id vs (if client_ok then kick_all clients ws else ws)

  unfoldable pub serve : Command → Server Cache → Server Cache
  serve (register c) ws = register_client c ws
  serve (unregister c) ws = unregister_client c ws
  serve (kick client_ok old_clients new_client) ws =
      multi_terminal_login_checker client_ok old_clients new_client ws

  unfoldable pub run : List Command → Server Cache → Server Cache
  run [] ws = ws
  run (cmd ∷ cmds) ws = run cmds (serve cmd ws)
