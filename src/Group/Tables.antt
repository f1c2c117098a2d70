-- ===== src/Group/Tables.antt =====
-- The tables of the groups (pkg/common/db/table/relation: group.go, group_member.go and
-- group_request.go) and the calls on them. Reads go through a cache; they answer what is stored.
use root_open_im_server.Base.{
  ℕ, String, Bool, true, false, ◌&&◌, ◌||◌, List, [], ◌∷◌, Option, none, some, str_eq, ◌==◌,
  if◌then◌else◌, contains, is_empty, ◌≡◌,
}
use root_open_im_server.Base.Int.{ℤ}
use root_open_im_server.Base.Result.{Result, ok, err}
use root_open_im_server.Common.Errors.{Error, is_record_not_found}
pub use root_open_im_server.Group.Rows.{
  GroupModel, GroupMemberModel, GroupRequestModel, GroupChange, MemberChange, or_old, set_group,
  set_member,
}

-- The keys of the cache that the writers delete.
pub data CacheKey : Type 0 where
  groups_info group_members_hash groups_member_num group_member_ids : String → CacheKey
  group_all_role_level : String → CacheKey
  group_role_level : String → ℕ → CacheKey
  group_members_info : String → String → CacheKey
  joined_group_id : String → CacheKey

abbrev pub Done : Type 0 → Type 0
Done S = S × Result Error (Unit {0})

-- What is stored.
pub record View : Type 0 where
  pub group : String → Option GroupModel
  pub member : String → String → Option GroupMemberModel
  pub request : String → String → Option GroupRequestModel

pub record Tables : Type 1 where
  pub State : Type 0
  pub view : State → View
  pub take_group : State → String → Result Error GroupModel
  pub take_member : State → String → String → Result Error GroupMemberModel
  pub role_level_ids : State → String → ℕ → Result Error (List String)
  pub member_ids : State → String → Result Error (List String)
  pub member_num : State → String → Result Error ℕ
  pub take_request : State → String → String → Result Error GroupRequestModel
  pub create_groups : List GroupModel → State → Done State
  pub update_group : String → GroupChange → State → Done State
  pub create_members : List GroupMemberModel → State → Done State
  pub update_member : String → String → MemberChange → State → Done State
  -- All members, where no user is named.
  pub delete_members : String → List String → State → Done State
  pub create_requests : List GroupRequestModel → State → Done State
  pub delete_request : String → String → State → Done State
  -- `UpdateHandler`, with the result.
  pub update_handler : String → String → ℤ → State → Done State
  pub exec_del : List CacheKey → State → Done State
  pub transaction : (State → Done State) → State → Done State

abbrev pub find_group : String → List GroupModel → Option GroupModel
find_group g [] = none
find_group g (x ∷ xs) = if str_eq x.group_id g then some x else find_group g xs

abbrev pub find_member : String → String → List GroupMemberModel → Option GroupMemberModel
find_member g u [] = none
find_member g u (x ∷ xs) =
    if str_eq x.group_id g && str_eq x.user_id u then some x else find_member g u xs

abbrev pub find_request : String → String → List GroupRequestModel → Option GroupRequestModel
find_request g u [] = none
find_request g u (x ∷ xs) =
    if str_eq x.group_id g && str_eq x.user_id u then some x else find_request g u xs

abbrev pub or_else : {A : Type 0} → Option A → Option A → Option A
or_else none b = b
or_else (some a) b = some a

abbrev pub map_option : {A : Type 0} → (A → A) → Option A → Option A
map_option f none = none
map_option f (some a) = some (f a)

-- The effect of the writes on what is stored: a row that is there is not written again.
abbrev pub put_groups : List GroupModel → View → View
put_groups gs v = record v { group = λ g. or_else (v.group g) (find_group g gs) }

abbrev pub put_members : List GroupMemberModel → View → View
put_members ms v = record v { member = λ g u. or_else (v.member g u) (find_member g u ms) }

abbrev pub put_requests : List GroupRequestModel → View → View
put_requests rs v = record v { request = λ g u. or_else (v.request g u) (find_request g u rs) }

abbrev pub change_group : String → GroupChange → View → View
change_group g c v = record v {
  group = λ h. if str_eq g h then map_option (set_group c) (v.group h) else v.group h;
}

abbrev pub change_member : String → String → MemberChange → View → View
change_member g u c v = record v {
  member = λ h w.
      if str_eq g h && str_eq u w then map_option (set_member c) (v.member h w) else v.member h w;
}

abbrev pub drop_members : (String → Bool) → String → View → View
drop_members p g v = record v { member = λ h w. if str_eq g h && p w then none else v.member h w }

abbrev pub drop_request : String → String → View → View
drop_request g u v = record v {
  request = λ h w. if str_eq g h && str_eq u w then none else v.request h w;
}

abbrev pub handle_request : String → String → ℤ → View → View
handle_request g u result v = record v {
  request = λ h w.
      if str_eq g h && str_eq u w
      then map_option (λ r. record r { handle_result = result }) (v.request h w)
      else v.request h w;
}

abbrev pub names : List String → String → Bool
names us u = is_empty us || contains u us

abbrev pub has_role : ℕ → Option GroupMemberModel → Bool
has_role level none = false
has_role level (some m) = m.role_level == level

-- A write that ends without an error does this to what is stored.
pub record Does (t : Tables) (w : t.State → Done t.State) (f : View → View) : Type 0 where
  pub does : (s s' : t.State) → w s ≡ (s', ok tt) → t.view s' ≡ f (t.view s)

module _ (t : Tables) where
  -- A write that ends with an error has done nothing.
  abbrev pub Spares : (t.State → Done t.State) → Type 0
  Spares w = (s s' : t.State) (e : Error) → w s ≡ (s', err e) → t.view s' ≡ t.view s

-- Rows have unique keys, single writes are done or not, and a transaction is rolled back on an
-- error. A deletion of many rows may stop halfway.
pub record IsTables (t : Tables) : Type 0 where
  pub group_taken :
      (s : t.State) (g : String) (x : GroupModel)
      → t.take_group s g ≡ ok x
      → (t.view s).group g ≡ some x
  pub group_absent :
      (s : t.State) (g : String) (e : Error)
      → t.take_group s g ≡ err e
      → is_record_not_found e ≡ true
      → (t.view s).group g ≡ none
  pub member_taken :
      (s : t.State) (g u : String) (m : GroupMemberModel)
      → t.take_member s g u ≡ ok m
      → (t.view s).member g u ≡ some m
  pub member_absent :
      (s : t.State) (g u : String) (e : Error)
      → t.take_member s g u ≡ err e
      → is_record_not_found e ≡ true
      → (t.view s).member g u ≡ none
  pub group_key :
      (s : t.State) (g : String) (x : GroupModel) → (t.view s).group g ≡ some x → x.group_id ≡ g
  pub member_key :
      (s : t.State) (g u : String) (m : GroupMemberModel)
      → (t.view s).member g u ≡ some m
      → (m.group_id ≡ g) × (m.user_id ≡ u)
  pub roles_listed :
      (s : t.State) (g : String) (level : ℕ) (us : List String)
      → t.role_level_ids s g level ≡ ok us
      → (u : String) → contains u us ≡ has_role level ((t.view s).member g u)
  pub request_taken :
      (s : t.State) (g u : String) (r : GroupRequestModel)
      → t.take_request s g u ≡ ok r
      → (t.view s).request g u ≡ some r
  pub create_groups-Does : (gs : List GroupModel) → Does t (t.create_groups gs) (put_groups gs)
  pub create_members-Does :
      (ms : List GroupMemberModel) → Does t (t.create_members ms) (put_members ms)
  pub create_requests-Does :
      (rs : List GroupRequestModel) → Does t (t.create_requests rs) (put_requests rs)
  pub update_group-Does :
      (g : String) (c : GroupChange) → Does t (t.update_group g c) (change_group g c)
  pub update_group-Spares : (g : String) (c : GroupChange) → Spares t (t.update_group g c)
  pub update_member-Does :
      (g u : String) (c : MemberChange) → Does t (t.update_member g u c) (change_member g u c)
  pub update_member-Spares : (g u : String) (c : MemberChange) → Spares t (t.update_member g u c)
  pub delete_members-Does :
      (g : String) (us : List String) → Does t (t.delete_members g us) (drop_members (names us) g)
  pub delete_members_some :
      (g : String) (us : List String) (s s' : t.State) (e : Error)
      → t.delete_members g us s ≡ (s', err e)
      → (p : (String → Bool)) × ((u : String) → p u ≡ true → names us u ≡ true)
        × (t.view s' ≡ drop_members p g (t.view s))
  pub delete_request-Does : (g u : String) → Does t (t.delete_request g u) (drop_request g u)
  pub update_handler-Does :
      (g u : String) (result : ℤ) → Does t (t.update_handler g u result) (handle_request g u result)
  pub exec_del_keeps :
      (ks : List CacheKey) (s s' : t.State) (r : Result Error (Unit {0}))
      → t.exec_del ks s ≡ (s', r)
      → t.view s' ≡ t.view s
  pub transaction-Does :
      (w : t.State → Done t.State) (f : View → View) → Does t w f → Does t (t.transaction w) f
  pub transaction-Spares : (w : t.State → Done t.State) → Spares t (t.transaction w)
