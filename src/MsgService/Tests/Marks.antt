-- ===== src/MsgService/Tests/Marks.antt =====
-- Revocations and read marks at concrete inputs.
use root_open_im_server.Base.{
  ℕ, ◌≤◌, String, true, false, ◌||◌, ◌&&◌, [], ◌∷◌, Option, none, some, str_eq, eq_iff,
  if◌then◌else◌, contains_nat, ltb, leb, ◌≡◌, ◌≢◌, ◌⊎◌, refl, arith,
}
use root_open_im_server.Base.Result.{ok}
use root_open_im_server.Common.Access.{check_access_v3, is_app_manager_uid}
use root_open_im_server.Common.Constants.{
  group_admin, super_group_chat_type, single_chat_type, app_admin, msg_revoke_notification,
}
use root_open_im_server.MsgStore.Doc.{MsgData, get_doc_id, get_msg_index}
use root_open_im_server.MsgStore.Insert.{
  batch_insert_block, insert_loop, update_round, insert_round, check_fields, check_field, fill,
}
use root_open_im_server.MsgStore.Sequence.{revoke_msg}
use root_open_im_server.MsgStore.Tests.{
  strokes, strokes_injective, memory, memory-IsCollection, nothing, hello,
}
use root_open_im_server.MsgService.Revoke.{
  RevokeReq, UserInfo, Lookups, allowed, revoke_role, session_role, group_role, check_other_sender,
  check_role, revoke, with_user, decide, store, tell, done,
}
use root_open_im_server.MsgService.Revoke.Laws.{
  MayRevokeInGroup, revoke_role_sound, IsRevoked, revoke_authorised,
}
use root_open_im_server.MsgService.Read.{ReadStore}
use root_open_im_server.MsgService.Marks.{seqs_to_mark, mark_conversation_as_read}
use root_open_im_server.MsgService.Marks.Laws.{
  IsReadStore, contains_nat-seqs_to_mark, mark_conversation_as_read-Grows,
}

-- An administrator revokes the message of an ordinary member.
abbrev req : RevokeReq
req = record { user_id = "ann"; conversation_id = "sg_g"; seq = 7; ex = "" }

abbrev user : UserInfo
user = record { nickname = "Ann"; app_manger_level = 0 }

abbrev group_msg : MsgData
group_msg = record hello { session_type = super_group_chat_type; send_id = "bob"; group_id = "g" }

abbrev lookups : Lookups
lookups = record {
  actor = record { op_user_id = "ann"; manager_ids = []; im_admin_ids = [] };
  now = 9;
  verify_rights = λ ex. 0;
  get_user_info = λ u. ok user;
  get_msg = λ u c n. ok (some group_msg);
  get_member_roles = λ g u v. ok (("ann", 60) ∷ ("bob", 20) ∷ []);
  send_notification = λ a b n. ok tt;
  callback_after_revoke_msg = λ r. ok tt;
}

abbrev by_manager : Lookups
by_manager = record lookups {
  actor = record { op_user_id = "ann"; manager_ids = "ann" ∷ []; im_admin_ids = [] };
}

no_manager : is_app_manager_uid lookups.actor ≡ false
unfolding is_app_manager_uid
no_manager = refl

manager : is_app_manager_uid by_manager.actor ≡ true
unfolding is_app_manager_uid
manager = refl

may_revoke : revoke_role lookups req user group_msg ≡ allowed group_admin
unfolding revoke_role session_role group_role check_other_sender check_role is_app_manager_uid
may_revoke = refl

revoke_role_sound_example :
    (group_msg.content_type ≢ msg_revoke_notification)
    × (group_msg.session_type ≢ single_chat_type)
    × ((req.user_id ≡ group_msg.send_id) ⊎ (lookups.verify_rights group_msg.ex ≢ 3))
    × (((lookups.verify_rights req.ex ≡ 3) × (group_admin ≡ app_admin))
        ⊎ MayRevokeInGroup lookups req user group_msg group_admin)
revoke_role_sound_example =
    revoke_role_sound lookups req user group_msg group_admin no_manager may_revoke

revoked : (revoke lookups strokes memory req nothing).2 ≡ done
unfolding revoke with_user decide store tell revoke_role session_role group_role check_other_sender
    check_role is_app_manager_uid check_access_v3 revoke_msg batch_insert_block insert_loop
    update_round insert_round check_fields check_field fill get_doc_id get_msg_index
revoked = refl

revoke_authorised_example :
    (check_access_v3 lookups.actor "ann" ≡ ok tt)
    × (user : UserInfo) × (m : MsgData) × (role : ℕ) × (lookups.get_msg "ann" "sg_g" 7
        ≡ ok (some m))
    × (revoke_role lookups req user m ≡ allowed role)
    × IsRevoked lookups strokes strokes_injective memory memory-IsCollection req nothing
        (revoke lookups strokes memory req nothing).0
        (record { role = role; user_id = "ann"; nickname = user.nickname; time = 9 })
revoke_authorised_example =
    revoke_authorised lookups strokes strokes_injective memory memory-IsCollection req nothing
      (omega arith) revoked

-- Read marks as a function of user and conversation.
abbrev write_mark : (String → String → Option ℕ) → String → String → ℕ → String → String → Option ℕ
write_mark s u conv n v d = if str_eq v u && str_eq d conv then some n else s v d

abbrev marks : ReadStore
marks = record {
  State = String → String → Option ℕ;
  get_max_seq = λ s conv. ok 50;
  get_has_read_seq = λ s u conv. ok (s u conv);
  set_has_read_seq = λ s u conv n. (write_mark s u conv n, none);
  mark_single_chat_msgs_as_read = λ s u conv ns. (s, none);
  get_conversation = λ u conv.
      ok (record { owner_user_id = u; conversation_type = 1; user_id = "bob"; group_id = "" });
  callback_single_msg_read = λ u conv t ns. ok tt;
  callback_group_msg_read = λ a b n t. ok tt;
}

marks-IsReadStore : IsReadStore marks
marks-IsReadStore = record {
  set_own = λ s u conv n v d. ground (arith, eq_iff v u, eq_iff d conv);
  mark_none = λ s u conv ns v d. refl;
}

abbrev at_four : String → String → Option ℕ
at_four u conv = some 4

contains_nat-seqs_to_mark_example :
    contains_nat 9 (seqs_to_mark 4 7 (9 ∷ [])) ≡ ((ltb 4 9 && leb 9 7) || contains_nat 9 (9 ∷ []))
contains_nat-seqs_to_mark_example = contains_nat-seqs_to_mark 9 4 7 (9 ∷ [])

mark_conversation_as_read-Grows_example :
    (n' : ℕ) × (4 ≤ n')
    × (marks.get_has_read_seq
          (mark_conversation_as_read marks "ann" "c" 7 (9 ∷ []) at_four).0
          "ann"
          "c"
        ≡ ok (some n'))
mark_conversation_as_read-Grows_example =
    mark_conversation_as_read-Grows marks marks-IsReadStore "ann" "c" "ann" "c" 7 (9 ∷ []) at_four 4
      refl
