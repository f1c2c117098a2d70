-- ===== src/Gateway/UserMap.antt =====
-- The gateway's table of connections, internal/msggateway/user_map.go: a `sync.Map` from a user's
-- id to the slice of that user's clients.
pub mod Laws
use root_open_im_server.Base.{
  ℕ, String, Bool, true, false, not, List, [], ◌∷◌, ◌++◌, Option, none, some, str_eq, ◌==◌,
  if◌then◌else◌, keep, any, is_empty,
}
use root_open_im_server.Base.Dict.{lookup, insert, remove}

-- The fields of `Client` and of its connection context that the table and the server read. A
-- platform id is only ever compared.
pub record Client : Type 0 where
  pub user_id : String
  pub platform_id : ℕ
  pub remote_addr : String
  pub conn_id : String
  pub is_background : Bool
  pub token : String

abbrev pub UserMap : Type 0
UserMap = List (String × List Client)

-- The clients, and whether the user is in the table.
unfoldable pub get_all : UserMap → String → List Client × Bool
get_all u key = elim (lookup key u) [ some clients ↦ (clients, true) | none ↦ ([], false) ]

abbrev pub on_platform : ℕ → Client → Bool
on_platform platform_id c = c.platform_id == platform_id

-- The clients on the platform, whether the user is in the table, and whether a client was found.
unfoldable pub get : UserMap → String → ℕ → List Client × Bool × Bool
get u key platform_id = elim (lookup key u) [
  | none ↦ ([], false, false)
  | some all_clients ↦
      let clients = keep (on_platform platform_id) all_clients in
      (clients, true, not (is_empty clients))
]

unfoldable pub set : UserMap → String → Client → UserMap
set u key v = elim (lookup key u) [
  | some old_clients ↦ insert key (old_clients ++ v ∷ []) u
  | none ↦ insert key (v ∷ []) u
]

-- What `delete` and `deleteClients` do with the clients that stay.
abbrev pub store_rest : UserMap → String → List Client → UserMap × Bool
store_rest u key rest = if is_empty rest then (remove key u, true) else (insert key rest u, false)

abbrev pub other_addr : String → Client → Bool
other_addr conn_remote_addr c = not (str_eq c.remote_addr conn_remote_addr)

-- The new table, and whether the user is gone.
unfoldable pub delete : UserMap → String → String → UserMap × Bool
delete u key conn_remote_addr = elim (lookup key u) [
  | some old_clients ↦ store_rest u key (keep (other_addr conn_remote_addr) old_clients)
  | none ↦ (u, false)
]

-- Whether no client of the list has this client's address.
abbrev pub addr_not_among : List Client → Client → Bool
addr_not_among clients c = not (any (λ d. str_eq d.remote_addr c.remote_addr) clients)

unfoldable pub delete_clients : UserMap → String → List Client → UserMap × Bool
delete_clients u key clients = elim (lookup key u) [
  | some old_clients ↦ store_rest u key (keep (addr_not_among clients) old_clients)
  | none ↦ (u, false)
]

unfoldable pub delete_all : UserMap → String → UserMap
delete_all u key = remove key u
