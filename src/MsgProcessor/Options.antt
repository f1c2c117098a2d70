-- ===== src/MsgProcessor/Options.antt =====
-- The switches of a message, pkg/msgprocessor/options.go. A nil map reads like an empty one.
pub mod Laws
use root_open_im_server.Base.{String, Bool, true, false, List, [], ◌∷◌, Option, none, some}
use root_open_im_server.Base.Dict.{lookup, insert}

abbrev pub Options : Type 0
Options = List (String × Bool)

abbrev pub OptionsOpt : Type 0
OptionsOpt = Options → Options

abbrev pub is_not_notification_key : String
is_not_notification_key = "isNotNotification"

abbrev pub is_send_msg_key : String
is_send_msg_key = "isSendMsg"

abbrev pub is_history_key : String
is_history_key = "history"

abbrev pub is_persistent_key : String
is_persistent_key = "persistent"

abbrev pub is_offline_push_key : String
is_offline_push_key = "offlinePush"

abbrev pub is_unread_count_key : String
is_unread_count_key = "unreadCount"

abbrev pub is_conversation_update_key : String
is_conversation_update_key = "conversationUpdate"

abbrev pub is_sender_sync_key : String
is_sender_sync_key = "senderSync"

abbrev pub is_not_private_key : String
is_not_private_key = "notPrivate"

abbrev pub is_sender_conversation_update_key : String
is_sender_conversation_update_key = "senderConversationUpdate"

abbrev pub is_reaction_from_cache_key : String
is_reaction_from_cache_key = "reactionFromCache"

unfoldable pub with_options : Options → List OptionsOpt → Options
with_options options [] = options
with_options options (opt ∷ opts) = with_options (opt options) opts

unfoldable pub new_options : List OptionsOpt → Options
unfolding with_options
new_options opts =
    with_options
      ((is_not_notification_key, false)
        ∷ (is_send_msg_key, false)
        ∷ (is_history_key, false)
        ∷ (is_persistent_key, false)
        ∷ (is_offline_push_key, false)
        ∷ (is_unread_count_key, false)
        ∷ (is_conversation_update_key, false)
        ∷ (is_sender_sync_key, true)
        ∷ (is_not_private_key, false)
        ∷ (is_sender_conversation_update_key, false)
        ∷ (is_reaction_from_cache_key, false)
        ∷ [])
      opts

-- The map that is filled first is not the one returned.
unfoldable pub new_msg_options : Options
new_msg_options = []

abbrev pub with_not_notification : Bool → OptionsOpt
with_not_notification b = insert is_not_notification_key b

abbrev pub with_send_msg : Bool → OptionsOpt
with_send_msg b = insert is_send_msg_key b

abbrev pub with_history : Bool → OptionsOpt
with_history b = insert is_history_key b

abbrev pub with_persistent : OptionsOpt
with_persistent = insert is_persistent_key true

abbrev pub with_offline_push : Bool → OptionsOpt
with_offline_push b = insert is_offline_push_key b

abbrev pub with_unread_count : Bool → OptionsOpt
with_unread_count b = insert is_unread_count_key b

abbrev pub with_conversation_update : OptionsOpt
with_conversation_update = insert is_conversation_update_key true

abbrev pub with_sender_sync : OptionsOpt
with_sender_sync = insert is_sender_sync_key true

abbrev pub with_not_private : OptionsOpt
with_not_private = insert is_not_private_key true

abbrev pub with_sender_conversation_update : OptionsOpt
with_sender_conversation_update = insert is_sender_conversation_update_key true

abbrev pub with_reaction_from_cache : OptionsOpt
with_reaction_from_cache = insert is_reaction_from_cache_key true

-- A switch that is not set is on.
unfoldable pub is : Options → String → Bool
is o notification = elim (lookup notification o) [ none ↦ true | some v ↦ v ]

abbrev pub is_not_notification : Options → Bool
is_not_notification o = is o is_not_notification_key

abbrev pub is_send_msg : Options → Bool
is_send_msg o = is o is_send_msg_key

abbrev pub is_history : Options → Bool
is_history o = is o is_history_key

abbrev pub is_persistent : Options → Bool
is_persistent o = is o is_persistent_key

abbrev pub is_offline_push : Options → Bool
is_offline_push o = is o is_offline_push_key

abbrev pub is_unread_count : Options → Bool
is_unread_count o = is o is_unread_count_key

abbrev pub is_conversation_update : Options → Bool
is_conversation_update o = is o is_conversation_update_key

abbrev pub is_sender_sync : Options → Bool
is_sender_sync o = is o is_sender_sync_key

abbrev pub is_not_private : Options → Bool
is_not_private o = is o is_not_private_key

abbrev pub is_sender_conversation_update : Options → Bool
is_sender_conversation_update o = is o is_sender_conversation_update_key

abbrev pub is_reaction_from_cache : Options → Bool
is_reaction_from_cache o = is o is_reaction_from_cache_key
