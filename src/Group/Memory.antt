-- ===== src/Group/Memory.antt =====
-- The tables in memory, as lists of rows.
pub mod Laws
use root_open_im_server.Base.{
  ℕ, String, Bool, true, false, not, ◌&&◌, List, [], ◌∷◌, ◌++◌, map, Option, none, some, str_eq,
  if◌then◌else◌, keep, length,
}
use root_open_im_server.Base.Result.{Result, ok, err}
use root_open_im_server.Common.Errors.{Error, record_not_found}
use root_open_im_server.Group.Tables.{
  GroupModel, GroupMemberModel, GroupRequestModel, GroupChange, MemberChange, Done, View, Tables,
  set_group, set_member, find_group, find_member, find_request, has_role, names,
}

pub record Rows : Type 0 where
  pub groups : List GroupModel
  pub members : List GroupMemberModel
  pub requests : List GroupRequestModel

abbrev pub view_of : Rows → View
view_of s = record {
  group = λ g. find_group g s.groups;
  member = λ g u. find_member g u s.members;
  request = λ g u. find_request g u s.requests;
}

abbrev pub found : {A : Type 0} → Option A → Result Error A
found none = err record_not_found
found (some a) = ok a

abbrev pub is_member : String → String → GroupMemberModel → Bool
is_member g u m = str_eq m.group_id g && str_eq m.user_id u

abbrev pub is_request : String → String → GroupRequestModel → Bool
is_request g u r = str_eq r.group_id g && str_eq r.user_id u

abbrev pub ids_of : List GroupMemberModel → List String
ids_of = map (λ m. m.user_id)

-- Users of the group that have the role by their first row.
abbrev pub holds : List GroupMemberModel → String → ℕ → GroupMemberModel → Bool
holds all_rows g level m = str_eq m.group_id g && has_role level (find_member g m.user_id all_rows)

abbrev pub written : Rows → Done Rows
written s = (s, ok tt)

abbrev pub settle : Rows → Done Rows → Done Rows
settle s (s', ok _) = (s', ok tt)
settle s (s', err e) = (s, err e)

abbrev pub memory : Tables
memory = record {
  State = Rows;
  view = view_of;
  take_group = λ s g. found (find_group g s.groups);
  take_member = λ s g u. found (find_member g u s.members);
  role_level_ids = λ s g level. ok (ids_of (keep (holds s.members g level) s.members));
  member_ids = λ s g. ok (ids_of (keep (λ m. str_eq m.group_id g) s.members));
  member_num = λ s g. ok (length (keep (λ m. str_eq m.group_id g) s.members));
  take_request = λ s g u. found (find_request g u s.requests);
  create_groups = λ gs s. written (record s { groups = s.groups ++ gs });
  update_group = λ g c s.
      written (record s {
        groups = map (λ x. if str_eq x.group_id g then set_group c x else x) s.groups;
      });
  create_members = λ ms s. written (record s { members = s.members ++ ms });
  update_member = λ g u c s.
      written
        (record s { members = map (λ m. if is_member g u m then set_member c m else m) s.members });
  delete_members = λ g us s. written (record s {
    members = keep (λ m. not (str_eq m.group_id g && names us m.user_id)) s.members;
  });
  create_requests = λ rs s. written (record s { requests = s.requests ++ rs });
  delete_request =
      λ g u s. written (record s { requests = keep (λ r. not (is_request g u r)) s.requests });
  update_handler = λ g u result s. written (record s {
    requests =
        map (λ r. if is_request g u r then record r { handle_result = result } else r) s.requests;
  });
  exec_del = λ ks s. written s;
  transaction = λ w s. settle s (w s);
}
