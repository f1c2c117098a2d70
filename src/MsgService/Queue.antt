-- ===== src/MsgService/Queue.antt =====
-- What sending a message does to the outside, internal/rpc/msg/send.go: the queue, the callbacks,
-- the word filter, the text in a message's JSON and the clock are the fields of `Outside`; effects
-- are a list, in the order of the code. Of a hit of the filter, its time and address are left out.
use root_open_im_server.Base.{
  ℕ, String, not, List, [], ◌∷◌, ◌++◌, Option, if◌then◌else◌, contains, is_empty, keep,
}
use root_open_im_server.Base.Result.{Result, ok, err}
use root_open_im_server.Common.Errors.{Error}
use root_open_im_server.Common.Access.{Actor}
use root_open_im_server.Common.Constants.{at_me, at_all, at_all_at_me, at_all_string}
use root_open_im_server.MsgStore.Doc.{MsgData}
use root_open_im_server.MsgProcessor.Ids.{get_conversation_id_by_msg}
use root_open_im_server.MsgService.Outgoing.{SendReq}

-- A message that the word filter found something in.
pub record HitMessage : Type 0 where
  pub from : String
  pub target : String
  pub kind : ℕ
  pub content : String
  pub keywords : List String

pub data Effect : Type 0 where
  push_to_hit_mq : HitMessage → Effect
  msg_to_mq : String → MsgData → Effect
  set_conversations : List String → (conversation_id : String) → (at_type : ℕ) → Effect

pub record SendResp : Type 0 where
  pub server_msg_id : String
  pub client_msg_id : String
  pub send_time : ℕ

-- What a caller gets: a response, neither response nor error, an error, or a nil dereference.
pub data Outcome : Type 0 where
  sent : SendResp → Outcome
  held_back : Outcome
  failed : Error → Outcome
  panicked : Outcome

-- What the word filter makes of a message: it may go on, or the outcome is known.
pub data Filtered : Type 0 where
  go_on : SendReq → Filtered
  stop : Outcome → Filtered

pub record Outside : Type 0 where
  pub actor : Actor
  pub now_milli : ℕ
  pub msg_id : String
  pub trim_space : String → String
  -- The text of a content by its type, and the JSON of a text.
  pub text_of : ℕ → String → String
  pub json_of : ℕ → String → String
  -- The filter's sentence and keywords, where it found something, and its configured `Flag`.
  pub filter : String → Option (String × List String)
  pub sensitive_flag : ℕ
  pub callback_before_send_single_msg : SendReq → Result Error (Unit {0})
  pub callback_before_send_group_msg : SendReq → Result Error (Unit {0})
  pub callback_msg_modify : SendReq → Result Error SendReq
  pub queue_answer : String → MsgData → Result Error (Unit {0})
  pub get_group_member_ids : String → Result Error (List String)

abbrev pub response : MsgData → SendResp
response m = record {
  server_msg_id = m.server_msg_id;
  client_msg_id = m.client_msg_id;
  send_time = m.send_time;
}

-- `utils.DifferenceString`: what is in one of the lists only.
abbrev pub difference_string : List String → List String → List String
difference_string xs ys = keep (λ x. not (contains x ys)) xs ++ keep (λ y. not (contains y xs)) ys

-- `setConversationAtInfo`: whose conversation shows that it is called. Failures are only logged.
module _ (out : Outside) where
  abbrev pub at_everyone : MsgData → List String → List Effect
  at_everyone m members =
      let conversation_id = get_conversation_id_by_msg m in
      let called = difference_string (at_all_string ∷ []) m.at_user_id_list in
      if is_empty called
      then set_conversations members conversation_id at_all ∷ []
      else set_conversations called conversation_id at_all_at_me
        ∷ set_conversations (difference_string called members) conversation_id at_all
        ∷ []

  unfoldable pub set_conversation_at_info : MsgData → List Effect
  set_conversation_at_info m =
      if contains at_all_string m.at_user_id_list
      then elim (out.get_group_member_ids m.group_id) [
        | err e ↦ []
        | ok members ↦ at_everyone m members
      ]
      else set_conversations m.at_user_id_list (get_conversation_id_by_msg m) at_me ∷ []

  -- `MsgToMQ` and the answer.
  abbrev pub enqueue : String → MsgData → List Effect → List Effect × Outcome
  enqueue key m after = elim (out.queue_answer key m) [
    | err e ↦ (msg_to_mq key m ∷ [], failed e)
    | ok _ ↦ (msg_to_mq key m ∷ after, sent (response m))
  ]
