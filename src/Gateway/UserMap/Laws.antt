-- ===== src/Gateway/UserMap/Laws.antt =====
-- What a lookup finds after each operation of the connection table, and its well-formedness.
use root_open_im_server.Base.{
  suc, String, false, List, [], ◌∷◌, ◌++◌, none, some, str_eq, eq_iff, if◌then◌else◌, keep,
  is_empty, length, ◌≡◌, refl, arith, Option-cases, inl, inr,
}
use root_open_im_server.Base.Dict.{
  lookup, insert, remove, lookup-insert, lookup-remove, IsMap, insert-IsMap, remove-IsMap,
  length-insert_new, length-insert_old, length-remove_old,
}
use root_open_im_server.Gateway.UserMap.{
  Client, UserMap, get_all, set, delete, delete_clients, store_rest, other_addr, addr_not_among,
}

-- The connections of a user; none if the user is not in the table.
abbrev pub conns : UserMap → String → List Client
conns u key = elim (lookup key u) [ some cs ↦ cs | none ↦ [] ]

-- Each user is listed once, with at least one connection.
abbrev pub NonEmpty : UserMap → Type 0
NonEmpty [] = Unit
NonEmpty ((k, cs) ∷ u) = (is_empty cs ≡ false) × NonEmpty u

pub record IsTable (u : UserMap) : Type 0 where
  pub distinct : IsMap u
  pub occupied : NonEmpty u

insert-NonEmpty :
    (k : String) (cs : List Client) (u : UserMap)
    → is_empty cs ≡ false
    → NonEmpty u
    → NonEmpty (insert k cs u)
insert-NonEmpty k cs [] e h = (e, tt)
insert-NonEmpty k cs ((j, ds) ∷ u) e h = ground (arith, insert-NonEmpty k cs u)

remove-NonEmpty : (k : String) (u : UserMap) → NonEmpty u → NonEmpty (remove k u)
remove-NonEmpty k [] h = tt
remove-NonEmpty k ((j, ds) ∷ u) h = ground (arith, remove-NonEmpty k u)

lookup-NonEmpty :
    (k : String) (u : UserMap) (cs : List Client)
    → NonEmpty u
    → lookup k u ≡ some cs
    → is_empty cs ≡ false
lookup-NonEmpty k [] cs h e = ground arith
lookup-NonEmpty k ((j, ds) ∷ u) cs h e = ground (arith, lookup-NonEmpty k u cs)

is_empty-append_one : (cs : List Client) (c : Client) → is_empty (cs ++ c ∷ []) ≡ false
is_empty-append_one [] c = refl
is_empty-append_one (d ∷ cs) c = refl

pub conns-set :
    (u : UserMap) (key j : String) (c : Client)
    → conns (set u key c) j ≡ (if str_eq key j then conns u key ++ c ∷ [] else conns u j)
unfolding set
conns-set u key j c = ground (arith, eq_iff key j, lookup-insert key j (conns u key ++ c ∷ []) u)

pub set-IsTable : (u : UserMap) (key : String) (c : Client) → IsTable u → IsTable (set u key c)
unfolding set
set-IsTable u key c h = ground (
  arith,
  is_empty-append_one (conns u key) c,
  insert-IsMap key (conns u key ++ c ∷ []) u,
  insert-NonEmpty key (conns u key ++ c ∷ []) u,
)

pub length-set :
    (u : UserMap) (key : String) (c : Client)
    → length (set u key c) ≡ (if (get_all u key).1 then length u else suc (length u))
unfolding set get_all
length-set u key c = ground (
  arith,
  length-insert_new key (c ∷ []) u,
  length-insert_old key (conns u key ++ c ∷ []) (conns u key) u,
)

-- Both deletions write back the connections that stay.
conns-store_rest :
    (u : UserMap) (key j : String) (rest : List Client)
    → conns (store_rest u key rest).0 j ≡ (if str_eq key j then rest else conns u j)
conns-store_rest u key j [] = ground (arith, lookup-remove key j u)
conns-store_rest u key j (c ∷ rest) = ground (arith, lookup-insert key j (c ∷ rest) u)

pub store_rest-IsTable :
    (u : UserMap) (key : String) (rest : List Client)
    → IsTable u
    → IsTable (store_rest u key rest).0
store_rest-IsTable u key [] h = ground (arith, remove-IsMap key u, remove-NonEmpty key u)
store_rest-IsTable u key (c ∷ rest) h =
    ground (arith, insert-IsMap key (c ∷ rest) u, insert-NonEmpty key (c ∷ rest) u)

length-store_rest :
    (u : UserMap) (key : String) (rest old : List Client)
    → IsTable u
    → lookup key u ≡ some old
    → (if (store_rest u key rest).1
        then suc (length (store_rest u key rest).0)
        else length (store_rest u key rest).0)
      ≡ length u
length-store_rest u key [] old h e = ground (arith, length-remove_old key old u)
length-store_rest u key (c ∷ rest) old h e = ground (arith, length-insert_old key (c ∷ rest) old u)

pub conns-delete_clients :
    (u : UserMap) (key j : String) (cs : List Client)
    → conns (delete_clients u key cs).0 j
      ≡ (if str_eq key j then keep (addr_not_among cs) (conns u key) else conns u j)
unfolding delete_clients
conns-delete_clients u key j cs =
    ground (arith, eq_iff key j, conns-store_rest u key j (keep (addr_not_among cs) (conns u key)))

pub delete_clients-IsTable :
    (u : UserMap) (key : String) (cs : List Client)
    → IsTable u
    → IsTable (delete_clients u key cs).0
unfolding delete_clients
delete_clients-IsTable u key cs h =
    ground (arith, store_rest-IsTable u key (keep (addr_not_among cs) (conns u key)))

pub length-delete_clients :
    (u : UserMap) (key : String) (cs : List Client)
    → IsTable u
    → (if (delete_clients u key cs).1
        then suc (length (delete_clients u key cs).0)
        else length (delete_clients u key cs).0)
      ≡ length u
unfolding delete_clients
length-delete_clients u key cs h = elim (Option-cases (lookup key u)) [
  | inl e ↦ ground arith
  | inr (old, e) ↦ ground (arith, length-store_rest u key (keep (addr_not_among cs) old) old)
]

pub conns-delete :
    (u : UserMap) (key j addr : String)
    → conns (delete u key addr).0 j
      ≡ (if str_eq key j then keep (other_addr addr) (conns u key) else conns u j)
unfolding delete
conns-delete u key j addr =
    ground (arith, eq_iff key j, conns-store_rest u key j (keep (other_addr addr) (conns u key)))

pub delete-IsTable : (u : UserMap) (key addr : String) → IsTable u → IsTable (delete u key addr).0
unfolding delete
delete-IsTable u key addr h =
    ground (arith, store_rest-IsTable u key (keep (other_addr addr) (conns u key)))

pub length-delete :
    (u : UserMap) (key addr : String)
    → IsTable u
    → (if (delete u key addr).1
        then suc (length (delete u key addr).0)
        else length (delete u key addr).0)
      ≡ length u
unfolding delete
length-delete u key addr h = elim (Option-cases (lookup key u)) [
  | inl e ↦ ground arith
  | inr (old, e) ↦ ground (arith, length-store_rest u key (keep (other_addr addr) old) old)
]
