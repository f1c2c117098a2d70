-- ===== src/MsgService/Read.antt =====
-- Read marks, internal/rpc/msg/as_read.go. The store of the read numbers (pkg/common/db/cache/msg.go
-- over Redis), the read marks of single messages and the services are the fields of `ReadStore`;
-- a missing key (`redis.Nil`) is `none` and reads as 0. Sequence numbers are not negative.
use root_open_im_server.Base.{
  ℕ, String, ◌||◌, List, [], ◌∷◌, Option, none, some, str_eq, ◌==◌, ltb, if◌then◌else◌,
}
use root_open_im_server.Base.Result.{Result, ok, err}
use root_open_im_server.Common.Errors.{Error, args}
use root_open_im_server.Common.Constants.{
  single_chat_type, super_group_chat_type, notification_chat_type,
}

pub record Conversation : Type 0 where
  pub owner_user_id : String
  pub conversation_type : ℕ
  pub user_id : String
  pub group_id : String

-- `conversationAndGetRecvID` of server.go.
unfoldable pub conversation_and_get_recv_id : Conversation → String → String
conversation_and_get_recv_id c user_id =
    if c.conversation_type == single_chat_type || c.conversation_type == notification_chat_type
    then (if str_eq user_id c.owner_user_id then c.user_id else c.owner_user_id)
    else if c.conversation_type == super_group_chat_type
    then c.group_id
    else ""

pub record ReadStore : Type 1 where
  pub State : Type 0
  pub get_max_seq : State → String → Result Error ℕ
  pub get_has_read_seq : State → String → String → Result Error (Option ℕ)
  pub set_has_read_seq : State → String → String → ℕ → State × Option Error
  pub mark_single_chat_msgs_as_read : State → String → String → List ℕ → State × Option Error
  pub get_conversation : String → String → Result Error Conversation
  pub callback_single_msg_read :
      String → String → (content_type : ℕ) → List ℕ → Result Error (Unit {0})
  pub callback_group_msg_read : String → String → ℕ → (content_type : ℕ) → Result Error (Unit {0})

-- `sendMarkAsReadNotification`: sender, receiver, session type, numbers and the last one read. A
-- failure to send it is only logged.
pub record ReadReceipt : Type 0 where
  pub conversation_id : String
  pub session_type : ℕ
  pub send_id : String
  pub recv_id : String
  pub seqs : List ℕ
  pub has_read_seq : ℕ

abbrev pub or_zero : Option ℕ → ℕ
or_zero none = 0
or_zero (some n) = n

-- The last element of a list that is not empty.
abbrev pub last : ℕ → List ℕ → ℕ
last n [] = n
last n (m ∷ ms) = last m ms

-- The state, the receipts sent, and how the handler ended.
abbrev pub Answer : Type 0 → Type 0
Answer S = S × List ReadReceipt × Result Error (Unit {0})

module _ (c : ReadStore) where
  unfoldable pub set_conversation_has_read_seq : String → String → ℕ → c.State → Answer c.State
  set_conversation_has_read_seq user_id conversation_id has_read_seq s =
      let (s', failure) = c.set_has_read_seq s user_id conversation_id has_read_seq in
      let receipt : ReadReceipt = record {
        conversation_id = conversation_id;
        session_type = single_chat_type;
        send_id = user_id;
        recv_id = user_id;
        seqs = [];
        has_read_seq = has_read_seq;
      } in
      elim (c.get_max_seq s conversation_id) [
        | err e ↦ (s, [], err e)
        | ok max_seq ↦
            if ltb max_seq has_read_seq
            then (s, [], err args)
            else elim failure [ some e ↦ (s', [], err e) | none ↦ (s', receipt ∷ [], ok tt) ]
      ]

  -- `if hasReadSeq > currentHasReadSeq { SetHasReadSeq }`.
  unfoldable pub raise_has_read_seq :
      String → String → (current : ℕ) → ℕ → c.State → c.State × Option Error
  raise_has_read_seq user_id conversation_id current has_read_seq s =
      if ltb current has_read_seq
      then c.set_has_read_seq s user_id conversation_id has_read_seq
      else (s, none)

  abbrev pub receipt_to_peer : String → String → Conversation → List ℕ → ℕ → ReadReceipt
  receipt_to_peer user_id conversation_id conversation seqs has_read_seq = record {
    conversation_id = conversation_id;
    session_type = conversation.conversation_type;
    send_id = user_id;
    recv_id = conversation_and_get_recv_id conversation user_id;
    seqs = seqs;
    has_read_seq = has_read_seq;
  }

  -- `MarkMsgsAsRead`, once the messages are marked.
  unfoldable pub mark_msgs_rest :
      String → String → Conversation → List ℕ → ℕ → c.State → Answer c.State
  mark_msgs_rest user_id conversation_id conversation seqs has_read_seq s =
      elim (c.get_has_read_seq s user_id conversation_id) [
        | err e ↦ (s, [], err e)
        | ok current ↦
            let (s', failure) =
              raise_has_read_seq user_id conversation_id (or_zero current) has_read_seq s in
            elim failure [
              | some e ↦ (s', [], err e)
              | none ↦
                  elim (c.callback_single_msg_read user_id conversation_id
                    conversation.conversation_type seqs) [
                      | err e ↦ (s', [], err e)
                      | ok _ ↦ (
                        s',
                        receipt_to_peer user_id conversation_id conversation seqs has_read_seq ∷ [],
                        ok tt,
                      )
                    ]
            ]
      ]

  unfoldable pub mark_msgs_as_read : String → String → List ℕ → c.State → Answer c.State
  mark_msgs_as_read user_id conversation_id [] s = (s, [], err args)
  mark_msgs_as_read user_id conversation_id (n ∷ ns) s =
      let (s', failure) = c.mark_single_chat_msgs_as_read s user_id conversation_id (n ∷ ns) in
      elim (c.get_max_seq s conversation_id) [
        | err e ↦ (s, [], err e)
        | ok max_seq ↦
            if ltb max_seq (last n ns)
            then (s, [], err args)
            else elim (c.get_conversation user_id conversation_id) [
              | err e ↦ (s, [], err e)
              | ok conversation ↦ elim failure [
                | some e ↦ (s', [], err e)
                | none ↦ mark_msgs_rest user_id conversation_id conversation (n ∷ ns) (last n ns) s'
              ]
            ]
      ]
