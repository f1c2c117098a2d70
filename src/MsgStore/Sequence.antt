-- ===== src/MsgStore/Sequence.antt =====
-- Numbering and caching a batch of messages, and handing it to the document store:
-- `BatchInsertChat2Cache`, `BatchInsertChat2DB` and `RevokeMsg` of
-- pkg/common/db/controller/msg.go. The cache calls (pkg/common/db/cache/msg.go, over Redis) are
-- parameters; a missing key (`redis.Nil`) is `none`.
pub mod Numbers
pub mod Stored
use root_open_im_server.Base.{
  ℕ, zero, suc, ◌+◌, String, Bool, true, false, List, [], ◌∷◌, map, Option, none, some,
  if◌then◌else◌, ltb, length,
}
use root_open_im_server.Base.Dict.{insert}
use root_open_im_server.Base.Result.{Result, ok, err}
use root_open_im_server.Common.Errors.{Error, args, dependency}
use root_open_im_server.MsgStore.Doc.{MsgData, Revoke, single_goc_msg_num}
use root_open_im_server.MsgStore.Collection.{Field, msg_field, revoke_field, nil_field, Collection}
use root_open_im_server.MsgStore.Insert.{
  Outcome, stopped, panicked, update_key_msg, update_key_revoke, batch_insert_block,
}

pub record SeqCache : Type 1 where
  pub State : Type 0
  pub get_max_seq : State → String → Result Error (Option ℕ)
  -- The number of messages that failed comes with the error.
  pub set_message_to_cache : State → String → List MsgData → State × Option Error
  pub set_max_seq : State → String → ℕ → State × Option Error
  pub set_has_read_seqs : State → String → List (String × ℕ) → State × Option Error

-- The loop that numbers the messages: `m.Seq` is written in place.
unfoldable pub number : ℕ → List MsgData → List MsgData
number current_max_seq [] = []
number current_max_seq (m ∷ ms) =
    (record m { seq = current_max_seq + 1 }) ∷ number (current_max_seq + 1) ms

-- `userSeqMap[m.SendID] = m.Seq`, over the numbered messages.
unfoldable pub user_seqs : List (String × ℕ) → List MsgData → List (String × ℕ)
user_seqs t [] = t
user_seqs t (m ∷ ms) = user_seqs (insert m.send_id m.seq t) ms

pub record Batch : Type 0 where
  pub last_max_seq : ℕ
  pub is_new : Bool
  pub msgs : List MsgData

-- `errors.New("too large")`.
abbrev pub too_large : Error
too_large = dependency "too large"

module _ (c : SeqCache) where
  -- Once the maximum is known. The error of the last store but one is the result's; the other two
  -- are only logged.
  unfoldable pub insert_batch :
      String → ℕ → Bool → List MsgData → c.State → c.State × Batch × Option Error
  insert_batch conversation_id last_max_seq is_new msgs s =
      let numbered = number last_max_seq msgs in
      let (s1, _) = c.set_message_to_cache s conversation_id numbered in
      let (s2, failure) = c.set_max_seq s1 conversation_id (last_max_seq + length msgs) in
      let (s3, _) = c.set_has_read_seqs s2 conversation_id (user_seqs [] numbered) in
      let batch : Batch = record {
        last_max_seq = last_max_seq;
        is_new = is_new;
        msgs = numbered;
      } in
      (s3, batch, failure)

  abbrev pub insert_known :
      String → List MsgData → c.State → Option ℕ → c.State × Batch × Option Error
  insert_known conversation_id msgs s none = insert_batch conversation_id 0 true msgs s
  insert_known conversation_id msgs s (some max_seq) =
      insert_batch conversation_id max_seq false msgs s

  abbrev pub refused : List MsgData → c.State → Error → c.State × Batch × Option Error
  refused msgs s e = (s, record { last_max_seq = 0; is_new = false; msgs = msgs }, some e)

  -- The three results, the first two of which come beside an error too, and the messages as they
  -- are afterwards: they are numbered in place.
  unfoldable pub batch_insert_in_place :
      String → List MsgData → c.State → c.State × Batch × Option Error
  batch_insert_in_place conversation_id msgs s = elim (c.get_max_seq s conversation_id) [
    | err e ↦ refused msgs s e
    | ok current ↦
        if ltb single_goc_msg_num (length msgs)
        then refused msgs s too_large
        else if ltb (length msgs) 1
        then refused msgs s (dependency "too short as 0")
        else insert_known conversation_id msgs s current
  ]

  abbrev pub accepted : c.State × Batch × Option Error → c.State × Result Error Batch
  accepted (s, b, none) = (s, ok b)
  accepted (s, b, some e) = (s, err e)

  -- Its results where nothing else than an error is looked at beside one.
  unfoldable pub batch_insert_chat2cache :
      String → List MsgData → c.State → c.State × Result Error Batch
  batch_insert_chat2cache conversation_id msgs s =
      accepted (batch_insert_in_place conversation_id msgs s)

-- `MsgDataModel` from the message: every member is copied but `IsRead`, which starts false.
abbrev pub to_model : MsgData → MsgData
to_model m = record m { is_read = false }

abbrev pub to_field : Option MsgData → Field
to_field none = nil_field
to_field (some m) = msg_field (to_model m)

module _ (format_int : ℕ → String) (c : Collection) where
  -- A nil first message is dereferenced.
  unfoldable pub batch_insert_chat2db : String → List (Option MsgData) → c.Docs → c.Docs × Outcome
  batch_insert_chat2db conversation_id [] s = (s, stopped args)
  batch_insert_chat2db conversation_id (none ∷ msgs) s = (s, panicked)
  batch_insert_chat2db conversation_id (some m ∷ msgs) s =
      batch_insert_block format_int conversation_id c (map to_field (some m ∷ msgs)) update_key_msg
        m.seq s

  unfoldable pub revoke_msg : String → ℕ → Revoke → c.Docs → c.Docs × Outcome
  revoke_msg conversation_id seq revoke s =
      batch_insert_block format_int conversation_id c (revoke_field revoke ∷ []) update_key_revoke
        seq s
