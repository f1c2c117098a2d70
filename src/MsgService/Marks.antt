-- ===== src/MsgService/Marks.antt =====
-- Reading up to a number, internal/rpc/msg/as_read.go: `MarkConversationAsRead` and `ReadSeqs`.
pub mod Laws
use root_open_im_server.Base.{
  ℕ, zero, suc, ◌+◌, ◌-◌, String, Bool, true, false, not, ◌||◌, List, [], ◌∷◌, ◌++◌, Option, none,
  some, str_eq, ◌==◌, ltb, leb, if◌then◌else◌, contains_nat, is_empty,
}
use root_open_im_server.Base.Result.{Result, ok, err}
use root_open_im_server.Common.Errors.{Error, args}
use root_open_im_server.Common.Constants.{
  single_chat_type, super_group_chat_type, notification_chat_type,
}
use root_open_im_server.MsgService.Read.{
  Conversation, ReadReceipt, ReadStore, conversation_and_get_recv_id, last, mark_msgs_as_read,
  mark_msgs_rest, or_zero, raise_has_read_seq, receipt_to_peer, set_conversation_has_read_seq,
  Answer,
}

-- `n` numbers from `i` on: the loop `for i := hasReadSeq + 1; i <= req.HasReadSeq; i++`.
abbrev pub numbers_from : ℕ → ℕ → List ℕ
numbers_from i zero = []
numbers_from i (suc n) = i ∷ numbers_from (i + 1) n

-- The loop that adds the requested numbers that are not there yet.
abbrev pub add_missing : List ℕ → List ℕ → List ℕ
add_missing seqs [] = seqs
add_missing seqs (v ∷ vs) = add_missing (if contains_nat v seqs then seqs else seqs ++ v ∷ []) vs

-- The numbers to mark in a single chat.
unfoldable pub seqs_to_mark : (has_read_seq req_has_read_seq : ℕ) → List ℕ → List ℕ
seqs_to_mark has_read_seq req_has_read_seq seqs =
    add_missing (numbers_from (has_read_seq + 1) (req_has_read_seq - has_read_seq)) seqs

abbrev pub max : ℕ → ℕ → ℕ
max a b = if ltb a b then b else a

module _ (c : ReadStore) where
  abbrev pub mark_all : String → String → List ℕ → c.State → c.State × Option Error
  mark_all user_id conversation_id [] s = (s, none)
  mark_all user_id conversation_id (n ∷ ns) s =
      c.mark_single_chat_msgs_as_read s user_id conversation_id (n ∷ ns)

  -- The case of a single chat, up to the callback.
  unfoldable pub mark_single_conversation :
      String → String → Conversation → ℕ → ℕ → List ℕ → c.State → Answer c.State
  mark_single_conversation user_id conversation_id conversation has_read_seq req_seq req_seqs s =
      let seqs = seqs_to_mark has_read_seq req_seq req_seqs in
      let (s1, failure1) = mark_all user_id conversation_id seqs s in
      let (s2, failure2) = raise_has_read_seq c user_id conversation_id has_read_seq req_seq s1 in
      let receipt =
        receipt_to_peer c user_id conversation_id conversation seqs (max has_read_seq req_seq) in
      elim failure1 [
        | some e ↦ (s1, [], err e)
        | none ↦ elim failure2 [ some e ↦ (s2, [], err e) | none ↦ (s2, receipt ∷ [], ok tt) ]
      ]

  -- The case of a group or of notifications.
  unfoldable pub mark_shared_conversation : String → String → ℕ → ℕ → c.State → Answer c.State
  mark_shared_conversation user_id conversation_id has_read_seq req_seq s =
      let (s', failure) = raise_has_read_seq c user_id conversation_id has_read_seq req_seq s in
      elim failure [
        | some e ↦ (s', [], err e)
        | none ↦ (
          s',
          record {
            conversation_id = conversation_id;
            session_type = single_chat_type;
            send_id = user_id;
            recv_id = user_id;
            seqs = [];
            has_read_seq = max has_read_seq req_seq;
          }
              ∷ [],
          ok tt,
        )
      ]

  unfoldable pub mark_by_type :
      String → String → Conversation → ℕ → ℕ → List ℕ → c.State → Answer c.State
  mark_by_type user_id conversation_id conversation has_read_seq req_seq req_seqs s =
      if conversation.conversation_type == single_chat_type
      then mark_single_conversation user_id conversation_id conversation has_read_seq req_seq
          req_seqs s
      else if conversation.conversation_type == super_group_chat_type
          || conversation.conversation_type == notification_chat_type
      then mark_shared_conversation user_id conversation_id has_read_seq req_seq s
      else (s, [], ok tt)

  abbrev pub then_callback : Result Error (Unit {0}) → Answer c.State → Answer c.State
  then_callback callback (s, receipts, err e) = (s, receipts, err e)
  then_callback callback (s, receipts, ok _) = (s, receipts, callback)

  unfoldable pub mark_conversation_as_read : String → String → ℕ → List ℕ → c.State → Answer c.State
  mark_conversation_as_read user_id conversation_id req_seq req_seqs s =
      elim (c.get_conversation user_id conversation_id) [
        | err e ↦ (s, [], err e)
        | ok conversation ↦ elim (c.get_has_read_seq s user_id conversation_id) [
          | err e ↦ (s, [], err e)
          | ok current ↦
              then_callback
                (c.callback_group_msg_read conversation.owner_user_id user_id req_seq
                  conversation.conversation_type)
                (mark_by_type user_id conversation_id conversation (or_zero current) req_seq
                  req_seqs s)
        ]
      ]

  -- One round of `ReadSeqs`; an error is logged and the loop goes on.
  unfoldable pub read_seq : String → String → ℕ → c.State → c.State × List ReadReceipt
  read_seq user_id conversation_id seq s = elim (c.get_has_read_seq s user_id conversation_id) [
    | err e ↦ (s, [])
    | ok current ↦
        let (s', failure) = raise_has_read_seq c user_id conversation_id (or_zero current) seq s in
        elim failure [
          | some e ↦ (s', [])
          | none ↦ (
            s',
            record {
              conversation_id = conversation_id;
              session_type = single_chat_type;
              send_id = user_id;
              recv_id = user_id;
              seqs = seq ∷ [];
              has_read_seq = max (or_zero current) seq;
            }
                ∷ [],
          )
        ]
  ]

  unfoldable pub read_seqs : List (String × String × ℕ) → c.State → c.State × List ReadReceipt
  read_seqs [] s = (s, [])
  read_seqs ((user_id, conversation_id, seq) ∷ reqs) s =
      let (s1, receipts1) = read_seq user_id conversation_id seq s in
      let (s2, receipts2) = read_seqs reqs s1 in (s2, receipts1 ++ receipts2)
