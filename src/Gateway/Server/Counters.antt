-- ===== src/Gateway/Server/Counters.antt =====
-- The counter of online users against the table of connections.
use root_open_im_server.Base.{
  ℕ, suc, String, Bool, true, false, not, List, [], ◌∷◌, some, str_eq_refl, ◌≡◌, arith, keep,
  length,
}
use root_open_im_server.Base.Int.{pos}
use root_open_im_server.Base.Dict.{lookup, lookup-remove, lookup-insert, remove, length-remove_old}
use root_open_im_server.Gateway.UserMap.{
  Client, UserMap, get_all, get, set, delete, delete_clients, addr_not_among,
}
use root_open_im_server.Gateway.UserMap.Laws.{
  conns, IsTable, store_rest-IsTable, set-IsTable, delete-IsTable, delete_clients-IsTable,
  length-set, length-delete, length-delete_clients,
}
use root_open_im_server.Gateway.Server.{
  Env, Server, Command, register, unregister, kick, replace_tokens, kick_same_terminal,
  multi_terminal_login_checker, set_user_online_status, send_user_online_info_to_other_node,
  register_conn, announce, register_client, unregister_client, kick_user_conn, serve, run,
}
use root_open_im_server.Gateway.Server.Laws.{clients-checker, clients-announce}

-- The table is well formed, and the counter is the number of users in it.
pub record IsAccurate {Cache : Type 0} (ws : Server Cache) : Type 0 where
  pub table : IsTable ws.clients
  pub counted : ws.online_user_num ≡ pos (length ws.clients)

-- Within a deletion the user leaves the table exactly when the deletion says so.
get_all-delete_clients :
    (u : UserMap) (key : String) (cs : List Client)
    → (get_all u key).1 ≡ true
    → (get_all (delete_clients u key cs).0 key).1 ≡ not (delete_clients u key cs).1
unfolding get_all delete_clients
get_all-delete_clients u key cs h = ground (
  arith,
  str_eq_refl key,
  lookup-remove key key u,
  lookup-insert key key (keep (addr_not_among cs) (conns u key)) u,
)

get-get_all : (u : UserMap) (key : String) (p : ℕ) → (get u key p).1 ≡ (get_all u key).1
unfolding get get_all
get-get_all u key p = ground arith

module _ {Cache : Type 0} (env : Env Cache) where
  num-checker :
      (client_ok : Bool) (old : List Client) (c : Client) (ws : Server Cache)
      → (multi_terminal_login_checker env client_ok old c ws).online_user_num ≡ ws.online_user_num
  unfolding multi_terminal_login_checker kick_same_terminal replace_tokens
  num-checker client_ok old c ws = ground arith

  num-announce :
      (c : Client) (ws : Server Cache) → (announce env c ws).online_user_num ≡ ws.online_user_num
  unfolding announce set_user_online_status send_user_online_info_to_other_node
  num-announce c ws = ground arith

  checker-IsTable :
      (client_ok : Bool) (old : List Client) (c : Client) (ws : Server Cache)
      → IsTable ws.clients
      → IsTable (multi_terminal_login_checker env client_ok old c ws).clients
  checker-IsTable client_ok old c ws h =
      rw clients-checker (ground (arith, delete_clients-IsTable ws.clients c.user_id old))

  -- After the check and the store the table has as many users as before.
  length-set_checked :
      (client_ok : Bool) (old : List Client) (c : Client) (ws : Server Cache)
      → IsTable ws.clients
      → (get_all ws.clients c.user_id).1 ≡ true
      → length (set (multi_terminal_login_checker env client_ok old c ws).clients c.user_id c)
        ≡ length ws.clients
  length-set_checked client_ok old c ws h e = rw clients-checker (
      ground (
        arith,
        get_all-delete_clients ws.clients c.user_id old,
        length-set ws.clients c.user_id c,
        length-set (delete_clients ws.clients c.user_id old).0 c.user_id c,
        length-delete_clients ws.clients c.user_id old,
      ))

  module _ (c : Client) (ws : Server Cache) where
    register_conn-IsAccurate : IsAccurate ws → IsAccurate (register_conn env c ws)
    unfolding register_conn
    register_conn-IsAccurate h =
        let (old, user_ok, client_ok) = get ws.clients c.user_id c.platform_id in
        let checked = multi_terminal_login_checker env client_ok old c ws in
        ground (
          arith,
          get-get_all ws.clients c.user_id c.platform_id,
          set-IsTable ws.clients c.user_id c,
          set-IsTable checked.clients c.user_id c,
          checker-IsTable client_ok old c ws,
          num-checker client_ok old c ws,
          length-set ws.clients c.user_id c,
          length-set_checked client_ok old c ws,
        )

    -- A registration keeps the counter accurate, also where it kicks the user's other connections.
    pub register_client-IsAccurate : IsAccurate ws → IsAccurate (register_client env c ws)
    unfolding register_client
    register_client-IsAccurate h = ground (
      arith,
      register_conn-IsAccurate h,
      clients-announce env c (register_conn env c ws),
      num-announce c (register_conn env c ws),
    )

  pub unregister_client-IsAccurate :
      (c : Client) (ws : Server Cache) → IsAccurate ws → IsAccurate (unregister_client env c ws)
  unfolding unregister_client set_user_online_status
  unregister_client-IsAccurate c ws h = ground (
    arith,
    delete-IsTable ws.clients c.user_id c.remote_addr,
    length-delete ws.clients c.user_id c.remote_addr,
  )

  -- Registrations and unregistrations: no kick that another node asks for.
  abbrev pub IsLocal : List Command → Type 0
  IsLocal [] = Unit
  IsLocal (register c ∷ cmds) = IsLocal cmds
  IsLocal (unregister c ∷ cmds) = IsLocal cmds
  IsLocal (kick client_ok old c ∷ cmds) = ⊥

  -- As long as the loop of `Run` is given no kick of another node, whatever clients register and
  -- unregister, in any order, the counter of online users stays the number of users with a
  -- connection.
  pub run-IsAccurate :
      (cmds : List Command) (ws : Server Cache)
      → IsLocal cmds
      → IsAccurate ws
      → IsAccurate (run env cmds ws)
  unfolding run serve
  run-IsAccurate [] ws l h = h
  run-IsAccurate (register c ∷ cmds) ws l h =
      run-IsAccurate cmds _ l (register_client-IsAccurate c ws h)
  run-IsAccurate (unregister c ∷ cmds) ws l h =
      run-IsAccurate cmds _ l (unregister_client-IsAccurate c ws h)
  run-IsAccurate (kick client_ok old c ∷ cmds) ws l h = absurd l

  removed_alone :
      (c : Client) (u : UserMap)
      → lookup c.user_id u ≡ some (c ∷ [])
      → (delete_clients u c.user_id (c ∷ [])).0 ≡ remove c.user_id u
  unfolding delete_clients
  removed_alone c u e = ground (arith, str_eq_refl c.remote_addr)

  delete-remove :
      (key addr : String) (u : UserMap) → delete (remove key u) key addr ≡ (remove key u, false)
  unfolding delete
  delete-remove key addr u = ground (arith, str_eq_refl key, lookup-remove key key u)

  -- `KickUserConn` of a user's only connection, and the unregistration that follows it, leave the
  -- counter one above the number of users.
  pub kick_user_conn_drifts :
      (c : Client) (ws : Server Cache)
      → IsAccurate ws
      → lookup c.user_id ws.clients ≡ some (c ∷ [])
      → let gone = unregister_client env c (kick_user_conn env c ws) in
        IsTable gone.clients × (gone.online_user_num ≡ pos (suc (length gone.clients)))
  unfolding kick_user_conn unregister_client set_user_online_status
  kick_user_conn_drifts c ws h e =
      rw (removed_alone c ws.clients e, delete-remove)
        (
          store_rest-IsTable ws.clients c.user_id [] h.table,
          ground (arith, length-remove_old c.user_id (c ∷ []) ws.clients),
        )
