-- ===== src/Gateway/Server/Laws.antt =====
-- Which connections a user has after each operation of the server.
use root_open_im_server.Base.{
  ℕ, String, Bool, true, false, not, ◌&&◌, ◌||◌, List, [], ◌∷◌, ◌++◌, str_eq, str_eq_refl, eq_iff,
  ◌==◌, ◌≡◌, refl, arith, if◌then◌else◌, keep, any, all, is_empty, keep-append,
}
use root_open_im_server.Common.Constants.{pc_and_other, all_login_but_same_term_kick}
use root_open_im_server.Gateway.UserMap.{
  Client, UserMap, get, delete_clients, on_platform, addr_not_among, other_addr,
}
use root_open_im_server.Gateway.UserMap.Laws.{conns, conns-set, conns-delete, conns-delete_clients}
use root_open_im_server.Gateway.Server.{
  Env, Server, terminal_pc, replace_tokens, kick_same_terminal, multi_terminal_login_checker,
  set_user_online_status, send_user_online_info_to_other_node, register_conn, announce,
  register_client, unregister_client,
}

conns-get_absent :
    (u : UserMap) (key : String) (platform_id : ℕ)
    → (get u key platform_id).1 ≡ false
    → conns u key ≡ []
unfolding get
conns-get_absent u key platform_id h = ground arith

-- An address of the list covers every client that passes the test.
abbrev covered : (Client → Bool) → List Client → List Client → Bool
covered p ys = all (λ x. not (p x) || any (λ d. str_eq d.remote_addr x.remote_addr) ys)

covered-cons :
    (p : Client → Bool) (y : Client) (ys xs : List Client)
    → covered p ys xs ≡ true
    → covered p (y ∷ ys) xs ≡ true
covered-cons p y ys [] h = refl
covered-cons p y ys (x ∷ xs) h = ground (arith, covered-cons p y ys xs)

covered_self : (p : Client → Bool) (xs : List Client) → covered p (keep p xs) xs ≡ true
covered_self p [] = refl
covered_self p (x ∷ xs) =
    ground (arith, str_eq_refl x.remote_addr, covered-cons p x (keep p xs) xs, covered_self p xs)

keep-covered :
    (p : Client → Bool) (ys xs : List Client)
    → covered p ys xs ≡ true
    → keep p (keep (addr_not_among ys) xs) ≡ []
keep-covered p ys [] h = refl
keep-covered p ys (x ∷ xs) h = ground (arith, keep-covered p ys xs)

-- Dropping the addresses of the clients on a platform leaves no client on that platform.
pub keep-addr_not_among :
    (p : Client → Bool) (xs : List Client) → keep p (keep (addr_not_among (keep p xs)) xs) ≡ []
keep-addr_not_among p xs = keep-covered p (keep p xs) xs (covered_self p xs)

module _ {Cache : Type 0} (env : Env Cache) where
  -- Whether the policy replaces the connections of the client's platform.
  abbrev pub kicks : Client → Bool
  kicks c =
      env.multi_login_policy == all_login_but_same_term_kick
      || (env.multi_login_policy == pc_and_other
          && not (str_eq (env.platform_id_to_class c.platform_id) terminal_pc))

  pub clients-checker :
      (client_ok : Bool) (old_clients : List Client) (c : Client) (ws : Server Cache)
      → (multi_terminal_login_checker env client_ok old_clients c ws).clients ≡ (
          if kicks c && client_ok
          then (delete_clients ws.clients c.user_id old_clients).0
          else ws.clients)
  unfolding multi_terminal_login_checker kick_same_terminal replace_tokens
  clients-checker client_ok old_clients c ws = ground arith

  pub clients-announce : (c : Client) (ws : Server Cache) → (announce env c ws).clients ≡ ws.clients
  unfolding announce set_user_online_status send_user_online_info_to_other_node
  clients-announce c ws = ground arith

  -- The connections that stay when `c` registers.
  abbrev pub staying : Client → List Client → List Client
  staying c cs =
      if kicks c then keep (addr_not_among (keep (on_platform c.platform_id) cs)) cs else cs

  keep_all : (cs : List Client) → keep (addr_not_among []) cs ≡ cs
  keep_all [] = refl
  keep_all (c ∷ cs) = ground (arith, keep_all cs)

  module _ (c : Client) (ws : Server Cache) where
    conns_checked :
        (j : String)
        → let (old_clients, user_ok, client_ok) = get ws.clients c.user_id c.platform_id in
          conns (multi_terminal_login_checker env client_ok old_clients c ws).clients j
          ≡ (if str_eq c.user_id j then staying c (conns ws.clients j) else conns ws.clients j)
    unfolding get
    conns_checked j =
        let old = keep (on_platform c.platform_id) (conns ws.clients c.user_id) in
        ground (
          arith,
          eq_iff c.user_id j,
          clients-checker (not (is_empty old)) old c ws,
          clients-checker false [] c ws,
          conns-delete_clients ws.clients c.user_id j old,
          keep_all (conns ws.clients c.user_id),
        )

    -- Once a client has registered, its user has the connections that stay and the new one at the
    -- end, and every other user has the connections of before.
    pub conns-register_client :
        (j : String)
        → conns (register_client env c ws).clients j ≡ (
            if str_eq c.user_id j
            then staying c (conns ws.clients j) ++ c ∷ []
            else conns ws.clients j)
    unfolding register_client register_conn
    conns-register_client j =
        let (old, user_ok, client_ok) = get ws.clients c.user_id c.platform_id in
        let checked = multi_terminal_login_checker env client_ok old c ws in
        rw clients-announce (
          ground (
            arith,
            eq_iff c.user_id j,
            conns-set ws.clients c.user_id j c,
            conns-set checked.clients c.user_id j c,
            conns_checked j,
            conns-get_absent ws.clients c.user_id c.platform_id,
          ))

    -- Under a policy that kicks, the new connection is the user's only one on its platform.
    pub register_client_only :
        kicks c ≡ true
        → keep (on_platform c.platform_id) (conns (register_client env c ws).clients c.user_id)
          ≡ c ∷ []
    register_client_only h = ground (
      arith,
      eq_iff c.user_id c.user_id,
      conns-register_client c.user_id,
      keep-append (on_platform c.platform_id) (staying c (conns ws.clients c.user_id)) (c ∷ []),
      keep-addr_not_among (on_platform c.platform_id) (conns ws.clients c.user_id),
    )

    -- Once a client has unregistered, its user has no connection with its address and has all
    -- the others, in order; every other user has the connections of before.
    pub conns-unregister_client :
        (j : String)
        → conns (unregister_client env c ws).clients j ≡ (
            if str_eq c.user_id j
            then keep (other_addr c.remote_addr) (conns ws.clients j)
            else conns ws.clients j)
    unfolding unregister_client set_user_online_status
    conns-unregister_client j =
        ground (arith, eq_iff c.user_id j, conns-delete ws.clients c.user_id j c.remote_addr)
