-- ===== src/Group/Calls.antt =====
-- What the handlers of internal/rpc/group/group.go call outside: the user, conversation and message
-- services, the callbacks of internal/rpc/group/callback.go, and the notifications.
use root_open_im_server.Base.{ℕ, String, Bool, true, false, List, [], ◌∷◌, Option, ◌||◌, contains}
use root_open_im_server.Base.Result.{Result, ok, err}
use root_open_im_server.Common.Errors.{Error}
use root_open_im_server.Common.Access.{Actor, UserRights}
use root_open_im_server.Common.Constants.{super_group_chat_type}
use root_open_im_server.MsgProcessor.Ids.{get_conversation_id_by_session_type}
use root_open_im_server.Group.Tables.{GroupModel, GroupMemberModel, or_old, Done}

-- The tips of the notifications are left out, but for whom they are about.
pub data Effect : Type 0 where
  group_chat_first_create_conversation : String → List String → Effect
  set_conversation_max_seq : List String → String → ℕ → Effect
  set_conversation_user_min_seqs : String → List String → ℕ → Effect
  read_seqs : String → List String → ℕ → Effect
  set_conversations : List String → String → ℕ → Effect
  group_created_notification group_info_set_notification : String → Effect
  group_muted_notification group_cancel_muted_notification group_dismissed_notification :
      String → Effect
  group_info_set_announcement_notification group_info_set_name_notification : String → Effect
  group_info_set_face_url_notification : String → Effect
  member_invited_notification member_kicked_notification : String → List String → Effect
  member_enter_notification member_quit_notification : String → String → Effect
  join_group_application_notification : String → String → Effect
  group_application_accepted_notification : String → String → Effect
  group_application_rejected_notification : String → String → Effect
  group_owner_transferred_notification : String → String → String → Effect
  group_member_muted_notification : String → String → ℕ → Effect
  group_member_cancel_muted_notification : String → String → Effect
  group_member_set_to_admin_notification : String → String → Effect
  group_member_set_to_ordinary_user_notification : String → String → Effect
  group_member_info_set_notification : String → String → Effect
  callback_after_create_group callback_after_set_group_info : String → Effect
  callback_quit_group callback_after_join_group : String → String → Effect
  callback_after_set_group_member_info : String → String → Effect
  callback_kill_group_member : String → List String → Effect
  callback_dismiss_group : String → String → List String → Effect
  callback_transfer_group_owner_after : String → String → String → Effect

-- What the callback before a member joins may put in place of the code's values.
pub record JoinReply : Type 0 where
  pub mute_end_time : Option ℕ
  pub face_url : Option String
  pub ex : Option String
  pub nickname : Option String
  pub role_level : Option ℕ

pub record Env : Type 0 where
  pub actor : Actor
  pub now : ℕ
  -- `json.Unmarshal` of `VerifyRights`.
  pub unmarshal_rights : String → Option UserRights
  -- The users that the user service knows.
  pub get_users_info_map : List String → Result Error (List String)
  pub get_user_info : String → Result Error String
  pub get_public_user_info : String → Result Error (Unit {0})
  pub populate_group_member : List GroupMemberModel → Result Error (Unit {0})
  -- The id that `GenGroupID` draws in a round.
  pub drawn_id : ℕ → String
  pub get_max_seq : String → ℕ
  pub get_conversation_max_seq : String → Result Error ℕ
  pub callback_before_create_group : GroupModel → Result Error GroupModel
  pub callback_before_member_join_group : GroupMemberModel → String → Result Error JoinReply
  pub callback_before_invite_user_to_group : String → List String → Result Error (Unit {0})
  pub callback_apply_join_group_before : String → String → Result Error (Unit {0})
  -- A call whose effect is outside.
  pub send : Effect → Result Error (Unit {0})

abbrev pub answer_reply : JoinReply → GroupMemberModel → GroupMemberModel
answer_reply r m = record m {
  mute_end_time = or_old m.mute_end_time r.mute_end_time;
  face_url = or_old m.face_url r.face_url;
  ex = or_old m.ex r.ex;
  nickname = or_old m.nickname r.nickname;
  role_level = or_old m.role_level r.role_level;
}

-- A call whose error ends the handler, one whose error is passed over, and an error before a call.
pub data Call : Type 0 where
  must : Effect → Call
  may : Effect → Call
  broken : Error → Call

abbrev pub Answer : Type 0 → Type 0
Answer S = S × List Effect × Result Error (Unit {0})

module _ (env : Env) where
  unfoldable pub run_calls : List Call → List Effect × Result Error (Unit {0})
  run_calls [] = ([], ok tt)
  run_calls (may e ∷ calls) = let (effects, r) = run_calls calls in (e ∷ effects, r)
  run_calls (must e ∷ calls) =
      let (effects, r) = run_calls calls in
      elim (env.send e) [ err failure ↦ (e ∷ [], err failure) | ok _ ↦ (e ∷ effects, r) ]
  run_calls (broken e ∷ calls) = ([], err e)

  -- The writes, and where they are done the calls behind them.
  unfoldable pub finish : {S : Type 0} → Done S → (S → List Call) → Answer S
  finish (s, err e) calls = (s, [], err e)
  finish (s, ok _) calls = let (effects, r) = run_calls (calls s) in (s, effects, r)

  -- `deleteMemberAndSetConversationSeq`.
  unfoldable pub delete_member_and_set_conversation_seq : String → List String → List Call
  delete_member_and_set_conversation_seq group_id user_ids =
      let id = get_conversation_id_by_session_type super_group_chat_type (group_id ∷ []) in
      elim (env.get_conversation_max_seq id) [
        | err e ↦ broken e ∷ []
        | ok max_seq ↦ must (set_conversation_max_seq user_ids id max_seq) ∷ []
      ]

  -- A member with what the callback puts into it.
  unfoldable pub callback_before_member_join_group :
      GroupMemberModel → String → Result Error GroupMemberModel
  callback_before_member_join_group m group_ex =
      elim (env.callback_before_member_join_group m group_ex) [
        | err e ↦ err e
        | ok reply ↦ ok (answer_reply reply m)
      ]

-- The checks before the writes: an error ends the handler.
unfoldable pub guarded : {S A : Type 0} → Result Error A → S → (A → Answer S) → Answer S
guarded (err e) s k = (s, [], err e)
guarded (ok a) s k = k a

-- `if b { return … }` on the answers of a handler.
unfoldable pub either : {S : Type 0} → Bool → Answer S → Answer S → Answer S
either true x y = x
either false x y = y

-- `utils.Duplicate` and `utils.IsDuplicateStringSlice`.
abbrev pub duplicate : List String → Bool
duplicate [] = false
duplicate (x ∷ xs) = contains x xs || duplicate xs
