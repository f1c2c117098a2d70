-- ===== src/MsgStore/Expire.antt =====
-- Deleting a conversation's expired messages: `deleteMsgRecursion` and
-- `DeleteConversationMsgsAndSetMinSeq` of pkg/common/db/controller/msg.go. The recursion reads the
-- documents one by one, the index counting up, until the database has no further one; it runs on
-- fuel here. What it asks the database to delete is recorded. Slots
-- are objects in the database, never nil. The remaining time is one that is not
-- negative. Times are milliseconds far
-- below 2 ^ 63, so their sums do not wrap.
pub mod Laws
mod Tests
use root_open_im_server.Base.{
  ℕ, zero, suc, ◌+◌, ◌*◌, String, Bool, true, false, List, [], ◌∷◌, ◌++◌, map, Option, none, some,
  str_eq, if◌then◌else◌, ltb, ◌==◌, is_empty,
}
use root_open_im_server.Base.Result.{Result, ok, err}
use root_open_im_server.Common.Errors.{Error}
use root_open_im_server.MsgStore.Doc.{MsgData, MsgInfo}

-- `MsgDocModel`.
pub record MsgDoc : Type 0 where
  pub doc_id : String
  pub msgs : List MsgInfo

-- A call of `DeleteMsgsInOneDocByIndex`.
pub record Emptied : Type 0 where
  pub doc_id : String
  pub indexes : List ℕ

-- `delMsgRecursionStruct`, and the calls of `DeleteMsgsInOneDocByIndex` so far, the last one first.
pub record Progress : Type 0 where
  pub min_seq : ℕ
  pub del_doc_ids : List String
  pub emptied : List Emptied

-- What was called, and the error. `clean_up` is `CleanUpOneConversationAllMsg`, whose error is only
-- logged; `min_seq_set` is the argument of `SetMinSeq`.
pub record Cleared : Type 0 where
  pub progress : Progress
  pub cleaned_up : Bool
  pub min_seq_set : Option ℕ
  pub failure : Option Error

-- How a run ends: `panicked` at `Msg[len-1]` of a document without slots.
pub data Run (A : Type 0) : Type 0 where
  returned : A → Run A
  panicked : Run A
  out_of_fuel : Run A

-- `msgs[len(msgs)-1]`, where there is one.
unfoldable pub last_info : List MsgInfo → Option MsgInfo
last_info [] = none
last_info (x ∷ []) = some x
last_info (x ∷ y ∷ xs) = last_info (y ∷ xs)

-- `doc_at index` is the answer of `GetMsgDocModelByIndex`. `clock index i` is what
-- `GetCurrentTimestampByMill` gives at document `index`: for the document at `i` = 0, and for the
-- message in slot j at `i` = j + 1.
module _ (doc_at : ℕ → Result Error MsgDoc) (clock : ℕ → ℕ → ℕ)
    (delete_docs : List String → Option Error) (remain_time : ℕ) where
  unfoldable pub is_expired : ℕ → MsgData → Bool
  is_expired now m = ltb (m.send_time + remain_time * 1000) now

  -- The loop that collects the slots of expired messages, each with the message's `Seq`; `i` is the
  -- loop's index.
  unfoldable pub expired_slots : ℕ → ℕ → List MsgInfo → List (ℕ × ℕ)
  expired_slots index i [] = []
  expired_slots index i (info ∷ infos) =
      let rest = expired_slots index (i + 1) infos in
      elim info.msg [
        | none ↦ rest
        | some m ↦ if is_expired (clock index (i + 1)) m then (i, m.seq) ∷ rest else rest
      ]

  unfoldable pub last_seq : ℕ → List (ℕ × ℕ) → ℕ
  last_seq seq [] = seq
  last_seq seq ((i, s) ∷ rest) = last_seq s rest

  -- The expired messages of a document that stays. An error of the call is only logged.
  unfoldable pub empty_slots : ℕ → MsgDoc → Progress → Progress
  empty_slots index doc p =
      let slots = expired_slots index 0 doc.msgs in
      if is_empty slots then p else record p {
        min_seq = last_seq 0 slots;
        emptied = record { doc_id = doc.doc_id; indexes = map (λ x. x.0) slots } ∷ p.emptied;
      }

  unfoldable pub delete_doc : ℕ → MsgDoc → Progress → MsgData → Progress
  delete_doc index doc p m =
      if is_expired (clock index 0) m
      then record p { min_seq = m.seq; del_doc_ids = p.del_doc_ids ++ doc.doc_id ∷ [] }
      else empty_slots index doc p

  -- One document: `IsFull` asks for a message in the last slot.
  unfoldable pub visit : ℕ → MsgDoc → Progress → Option Progress
  visit index doc p = elim (last_info doc.msgs) [
    | none ↦ none
    | some info ↦
        some (elim info.msg [ none ↦ empty_slots index doc p | some m ↦ delete_doc index doc p m ])
  ]

  -- The end of the recursion.
  unfoldable pub finish : Progress → Run (Progress × Result Error ℕ)
  finish p = elim (delete_docs p.del_doc_ids) [
    | none ↦ returned (p, ok (p.min_seq + 1))
    | some e ↦ returned (p, err e)
  ]

  unfoldable pub delete_msg_recursion : ℕ → ℕ → Progress → Run (Progress × Result Error ℕ)
  delete_msg_recursion zero index p = out_of_fuel
  delete_msg_recursion (suc fuel) index p = elim (doc_at index) [
    | err e ↦ finish p
    | ok doc ↦ if str_eq doc.doc_id "" then finish p else elim (visit index doc p) [
      | none ↦ panicked
      | some q ↦ delete_msg_recursion fuel (index + 1) q
    ]
  ]

  unfoldable pub set_min_seq_after : (ℕ → Option Error) → Progress → Result Error ℕ → Cleared
  set_min_seq_after set_min_seq p (err e) = record {
    progress = p;
    cleaned_up = false;
    min_seq_set = none;
    failure = some e;
  }
  set_min_seq_after set_min_seq p (ok min_seq) =
      if min_seq == 0
      then record { progress = p; cleaned_up = false; min_seq_set = none; failure = none }
      else record {
        progress = p;
        cleaned_up = remain_time == 0;
        min_seq_set = some min_seq;
        failure = set_min_seq min_seq;
      }

  unfoldable pub delete_conversation_msgs_and_set_min_seq : (ℕ → Option Error) → ℕ → Run Cleared
  delete_conversation_msgs_and_set_min_seq set_min_seq fuel =
      let p : Progress = record { min_seq = 0; del_doc_ids = []; emptied = [] } in
      elim (delete_msg_recursion fuel 0 p) [
        | returned (q, r) ↦ returned (set_min_seq_after set_min_seq q r)
        | panicked ↦ panicked
        | out_of_fuel ↦ out_of_fuel
      ]
