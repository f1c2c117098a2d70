-- ===== src/MsgTransfer/Channel/Effects.antt =====
-- What of the effects of a batch reaches the receivers, and what the documents.
use root_open_im_server.Base.{String, List, [], ◌∷◌, ◌++◌, ◌≡◌, refl, sym, ap, ◌∙◌}
use root_open_im_server.MsgStore.Doc.{MsgData}
use root_open_im_server.MsgTransfer.Channel.{
  Effect, msg_to_push_mq, msg_to_mongo_mq, msg_to_es_mq, msg_to_modify_mq,
  group_chat_first_create_conversation, single_chat_first_create_conversation, to_push_topic,
}

-- The messages that go to the receivers.
abbrev pub pushed : List Effect → List MsgData
pushed [] = []
pushed (msg_to_push_mq id m ∷ es) = m ∷ pushed es
pushed (msg_to_mongo_mq id ms n ∷ es) = pushed es
pushed (msg_to_es_mq id ms ∷ es) = pushed es
pushed (msg_to_modify_mq id ms ∷ es) = pushed es
pushed (group_chat_first_create_conversation g us ∷ es) = pushed es
pushed (single_chat_first_create_conversation a b id t ∷ es) = pushed es

-- The messages that go to the documents.
abbrev pub stored : List Effect → List MsgData
stored [] = []
stored (msg_to_push_mq id m ∷ es) = stored es
stored (msg_to_mongo_mq id ms n ∷ es) = ms ++ stored es
stored (msg_to_es_mq id ms ∷ es) = stored es
stored (msg_to_modify_mq id ms ∷ es) = stored es
stored (group_chat_first_create_conversation g us ∷ es) = stored es
stored (single_chat_first_create_conversation a b id t ∷ es) = stored es

pub append_assoc : (xs ys zs : List MsgData) → (xs ++ ys) ++ zs ≡ xs ++ (ys ++ zs)
append_assoc [] ys zs = refl
append_assoc (x ∷ xs) ys zs = ap (λ t. x ∷ t) (append_assoc xs ys zs)

pub append_nil : (xs : List MsgData) → xs ++ [] ≡ xs
append_nil [] = refl
append_nil (x ∷ xs) = ap (λ t. x ∷ t) (append_nil xs)

pub pushed-append : (es fs : List Effect) → pushed (es ++ fs) ≡ pushed es ++ pushed fs
pushed-append [] fs = refl
pushed-append (msg_to_push_mq id m ∷ es) fs = ap (λ t. m ∷ t) (pushed-append es fs)
pushed-append (msg_to_mongo_mq id ms n ∷ es) fs = pushed-append es fs
pushed-append (msg_to_es_mq id ms ∷ es) fs = pushed-append es fs
pushed-append (msg_to_modify_mq id ms ∷ es) fs = pushed-append es fs
pushed-append (group_chat_first_create_conversation g us ∷ es) fs = pushed-append es fs
pushed-append (single_chat_first_create_conversation a b id t ∷ es) fs = pushed-append es fs

pub stored-append : (es fs : List Effect) → stored (es ++ fs) ≡ stored es ++ stored fs
stored-append [] fs = refl
stored-append (msg_to_push_mq id m ∷ es) fs = stored-append es fs
stored-append (msg_to_mongo_mq id ms n ∷ es) fs =
    ap (λ t. ms ++ t) (stored-append es fs) ∙ sym (append_assoc ms (stored es) (stored fs))
stored-append (msg_to_es_mq id ms ∷ es) fs = stored-append es fs
stored-append (msg_to_modify_mq id ms ∷ es) fs = stored-append es fs
stored-append (group_chat_first_create_conversation g us ∷ es) fs = stored-append es fs
stored-append (single_chat_first_create_conversation a b id t ∷ es) fs = stored-append es fs

pub pushed-to_push_topic : (id : String) (ms : List MsgData) → pushed (to_push_topic id ms) ≡ ms
unfolding to_push_topic
pushed-to_push_topic id [] = refl
pushed-to_push_topic id (m ∷ ms) = ap (λ t. m ∷ t) (pushed-to_push_topic id ms)

pub stored-to_push_topic : (id : String) (ms : List MsgData) → stored (to_push_topic id ms) ≡ []
unfolding to_push_topic
stored-to_push_topic id [] = refl
stored-to_push_topic id (m ∷ ms) = stored-to_push_topic id ms
