-- ===== src/MsgService/Tests/Deletions.antt =====
-- Deletions at concrete inputs.
use root_open_im_server.Base.{true, List, [], ◌∷◌, Option, none, some, any, ◌≡◌, inr, refl}
use root_open_im_server.Base.Result.{ok}
use root_open_im_server.Common.Access.{check_access_v3}
use root_open_im_server.MsgService.Delete.{
  SyncOpt, Known, Deletion, Seqs, validate_delete_sync_opt, clear_up_to, clear_conversation,
  user_clear_all_msg, delete_msgs, done,
}
use root_open_im_server.MsgService.Delete.Laws.{
  is_shared, written_min, written_read, clear_conversation_starts_again, delete_msgs_scope,
  clear_scope,
}

abbrev known : List Known
known =
    record {
      conversation_id = "c";
      conversation = record {
        owner_user_id = "ann";
        conversation_type = 1;
        user_id = "bob";
        group_id = "";
      };
    }
    ∷ []

abbrev maxima : Seqs
maxima = ("c", 7) ∷ []

abbrev deletion : Deletion
deletion = record {
  actor = record { op_user_id = "ann"; manager_ids = []; im_admin_ids = [] };
  now = 1000;
  delete_physical = λ c ns. ok tt;
  delete_user = λ u c ns. ok tt;
  set_user_mins = λ u m. ok tt;
  set_mins = λ m. ok tt;
  set_reads = λ u m. ok tt;
  get_conversations = λ ids. ok known;
  get_conversation_ids = λ u. ok ("c" ∷ []);
  get_max_seqs = λ ids. ok maxima;
}

abbrev everybody : Option SyncOpt
everybody = some (record { is_sync_self = true; is_sync_other = true })

cleared : (clear_conversation deletion ("c" ∷ []) "ann" none).1 ≡ done
unfolding clear_conversation clear_up_to validate_delete_sync_opt
cleared = refl

clear_conversation_starts_again_example :
    (written_min "c" (clear_conversation deletion ("c" ∷ []) "ann" none).0 ≡ some 8)
    × (written_read "c" (clear_conversation deletion ("c" ∷ []) "ann" none).0 ≡ some 7)
clear_conversation_starts_again_example =
    clear_conversation_starts_again deletion ("c" ∷ []) "ann" none known maxima "c" 7 refl refl refl
      cleared

deleted_for_all : any is_shared (delete_msgs deletion "ann" "c" (7 ∷ []) everybody).0 ≡ true
unfolding delete_msgs check_access_v3 validate_delete_sync_opt
deleted_for_all = refl

delete_msgs_scope_example :
    (check_access_v3 deletion.actor "ann" ≡ ok tt) × ((validate_delete_sync_opt everybody).1 ≡ true)
delete_msgs_scope_example = delete_msgs_scope deletion "ann" "c" (7 ∷ []) everybody deleted_for_all

cleared_for_all : any is_shared (user_clear_all_msg deletion "ann" everybody).0 ≡ true
unfolding user_clear_all_msg clear_conversation clear_up_to check_access_v3 validate_delete_sync_opt
cleared_for_all = refl

clear_scope_example :
    (check_access_v3 deletion.actor "ann" ≡ ok tt) × ((validate_delete_sync_opt everybody).1 ≡ true)
clear_scope_example = clear_scope deletion ("c" ∷ []) "ann" everybody (inr cleared_for_all)
