-- ===== src/MsgTransfer/Tests.antt =====
-- A batch of the channel at concrete inputs: a chat and a typing notice.
use root_open_im_server.Base.{String, Bool, false, List, [], ◌∷◌, ◌≡◌, refl}
use root_open_im_server.Base.Result.{Result, ok}
use root_open_im_server.Common.Errors.{Error}
use root_open_im_server.Common.Constants.{reaction_message_modifier}
use root_open_im_server.MsgStore.Doc.{MsgData}
use root_open_im_server.MsgStore.Sequence.{number}
use root_open_im_server.MsgStore.Tests.{hello}
use root_open_im_server.MsgProcessor.Options.{is, is_history_key}
use root_open_im_server.MsgTransfer.Channel.{
  get_push_storage_msg_list, add_chat, modify_msgs, take_shared,
}

abbrev members : String → Result Error (List String)
members g = ok ("ann" ∷ "bob" ∷ [])

abbrev passing : MsgData
passing = record hello { options = (is_history_key, false) ∷ [] }

split_batch : (get_push_storage_msg_list (hello ∷ passing ∷ [])).not_storage_msgs ≡ passing ∷ []
unfolding get_push_storage_msg_list add_chat is
split_batch = refl

-- No error of this cache is `redis.Nil`.
abbrev no_nil : Error → Bool
no_nil e = false

-- A modification that is a chat to store goes out with its number.
abbrev modifying : MsgData
modifying = record hello { content_type = reaction_message_modifier }

modified_numbered :
    modify_msgs (hello ∷ modifying ∷ []) (number 4 (hello ∷ modifying ∷ [])) []
    ≡ record modifying { seq = 6 } ∷ []
unfolding modify_msgs take_shared number is
modified_numbered = refl
