-- ===== src/Group/Rows.antt =====
-- The rows of the groups' tables (pkg/common/db/table/relation: group.go, group_member.go and
-- group_request.go), and the changes of their fields.
use root_open_im_server.Base.{ℕ, String, Option, none, some}
use root_open_im_server.Base.Int.{ℤ}

-- Times are in milliseconds.
pub record GroupModel : Type 0 where
  pub group_id : String
  pub group_name : String
  pub notification : String
  pub introduction : String
  pub face_url : String
  pub create_time : ℕ
  pub ex : String
  pub status : ℕ
  pub creator_user_id : String
  pub group_type : ℕ
  pub need_verification : ℕ
  pub look_member_info : ℕ
  pub apply_member_friend : ℕ
  pub notification_update_time : ℕ
  pub notification_user_id : String

pub record GroupMemberModel : Type 0 where
  pub group_id : String
  pub user_id : String
  pub nickname : String
  pub face_url : String
  pub role_level : ℕ
  pub join_time : ℕ
  pub join_source : ℕ
  pub inviter_user_id : String
  pub operator_user_id : String
  pub mute_end_time : ℕ
  pub ex : String

pub record GroupRequestModel : Type 0 where
  pub user_id : String
  pub group_id : String
  pub handle_result : ℤ
  pub req_msg : String
  pub handled_msg : String
  pub req_time : ℕ
  pub handle_user_id : String
  pub handled_time : ℕ
  pub join_source : ℕ
  pub inviter_user_id : String
  pub ex : String

-- The maps of fields to set, as records of those that are set.
pub record GroupChange : Type 0 where
  pub group_name : Option String
  pub notification : Option String
  pub notification_update_time : Option ℕ
  pub notification_user_id : Option String
  pub introduction : Option String
  pub face_url : Option String
  pub need_verification : Option ℕ
  pub look_member_info : Option ℕ
  pub apply_member_friend : Option ℕ
  pub ex : Option String
  pub status : Option ℕ

pub record MemberChange : Type 0 where
  pub nickname : Option String
  pub role_level : Option ℕ
  pub mute_end_time : Option ℕ
  pub ex : Option String

abbrev pub or_old : {A : Type 0} → A → Option A → A
or_old a none = a
or_old a (some b) = b

-- `$set`.
abbrev pub set_group : GroupChange → GroupModel → GroupModel
set_group c g = record {
  group_id = g.group_id;
  group_name = or_old g.group_name c.group_name;
  notification = or_old g.notification c.notification;
  introduction = or_old g.introduction c.introduction;
  face_url = or_old g.face_url c.face_url;
  create_time = g.create_time;
  ex = or_old g.ex c.ex;
  status = or_old g.status c.status;
  creator_user_id = g.creator_user_id;
  group_type = g.group_type;
  need_verification = or_old g.need_verification c.need_verification;
  look_member_info = or_old g.look_member_info c.look_member_info;
  apply_member_friend = or_old g.apply_member_friend c.apply_member_friend;
  notification_update_time = or_old g.notification_update_time c.notification_update_time;
  notification_user_id = or_old g.notification_user_id c.notification_user_id;
}

abbrev pub set_member : MemberChange → GroupMemberModel → GroupMemberModel
set_member c m = record m {
  nickname = or_old m.nickname c.nickname;
  role_level = or_old m.role_level c.role_level;
  mute_end_time = or_old m.mute_end_time c.mute_end_time;
  ex = or_old m.ex c.ex;
}
