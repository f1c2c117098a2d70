-- ===== src/MsgStore/Insert.antt =====
-- `BatchInsertBlock` of pkg/common/db/controller/msg.go: the fields of consecutive messages are
-- written one slot at a time into documents that exist, and a document at a time where none does.
-- The `for` loop runs on fuel; 2 * n + 1 rounds are enough for n fields (Insert/Writes.antt).
pub mod Fill
pub mod Writes
pub mod Slots
use root_open_im_server.Base.{
  ℕ, zero, suc, ◌+◌, ◌*◌, String, Bool, true, false, not, List, [], ◌∷◌, map, Option, none, some,
  str_eq, ◌==◌, if◌then◌else◌, set, replicate, length,
}
use root_open_im_server.Base.Result.{Result, ok, err, ◌>>=◌, ◌>>◌}
use root_open_im_server.Common.Errors.{Error, internal_server}
use root_open_im_server.MsgStore.Doc.{
  MsgData, Revoke, MsgInfo, empty_info, single_goc_msg_num, get_doc_id, get_msg_index,
}
use root_open_im_server.MsgStore.Collection.{
  Field, msg_field, revoke_field, nil_field, Creation, created, duplicate_key, failed, Collection,
}

abbrev pub update_key_msg : ℕ
update_key_msg = 0

abbrev pub update_key_revoke : ℕ
update_key_revoke = 1

-- One round of the loop that checks the types.
unfoldable pub check_field : ℕ → ℕ → Field → Result Error (Unit {0})
check_field key seq (msg_field m) =
    if key == update_key_msg
    then (if m.seq == seq then ok tt else err internal_server)
    else err internal_server
check_field key seq (revoke_field r) =
    if key == update_key_revoke then ok tt else err internal_server
check_field key seq nil_field = err internal_server

unfoldable pub check_fields : ℕ → ℕ → List Field → Result Error (Unit {0})
check_fields key seq [] = ok tt
check_fields key seq (f ∷ fs) = check_field key seq f >> check_fields key (seq + 1) fs

abbrev pub info_of : Field → MsgInfo
info_of (msg_field m) = record empty_info { msg = some m }
info_of (revoke_field r) = record empty_info { revoke = some r }
info_of nil_field = empty_info

-- The loop over `doc.Msg` that replaces nil pointers.
abbrev pub normalise : Option MsgInfo → MsgInfo
normalise none = empty_info
normalise (some s) = s

pub data Outcome : Type 0 where
  done : Outcome
  stopped : Error → Outcome
  panicked : Outcome
  out_of_fuel : Outcome

module _ (format_int : ℕ → String) (conversation_id : String) where
  -- The loop over `j`: the fields that belong to the document are placed in its slots. The rest
  -- comes back with the sequence number that it starts at.
  unfoldable pub fill :
      String → ℕ → List (Option MsgInfo) → List Field → List (Option MsgInfo) × ℕ × List Field
  fill doc_id seq msgs [] = (msgs, seq, [])
  fill doc_id seq msgs (f ∷ fs) =
      let placed = fill doc_id (seq + 1) (set msgs (get_msg_index seq) (some (info_of f))) fs in
      if str_eq (get_doc_id format_int conversation_id seq) doc_id
      then placed
      else (msgs, seq, f ∷ fs)

  module _ (c : Collection) where
    abbrev pub Rounds : Type 0
    Rounds = (try_update : Bool) → ℕ → List Field → c.Docs → c.Docs × Outcome

    -- What follows `Create`: the next block, inserting first; or, where another document stands
    -- there by now, the same field again, updating first.
    abbrev pub on_create :
        (on_new on_duplicate : c.Docs → c.Docs × Outcome) → c.Docs × Creation → c.Docs × Outcome
    on_create on_new on_duplicate (s, created) = on_new s
    on_create on_new on_duplicate (s, duplicate_key) = on_duplicate s
    on_create on_new on_duplicate (s, failed e) = (s, stopped e)

    -- What follows `updateMsgModel`.
    abbrev pub on_update :
        (on_matched on_absent : c.Docs → c.Docs × Outcome)
        → c.Docs × Result Error Bool
        → c.Docs × Outcome
    on_update on_matched on_absent (s, ok true) = on_matched s
    on_update on_matched on_absent (s, ok false) = on_absent s
    on_update on_matched on_absent (s, err e) = (s, stopped e)

    -- The part of a round that makes a new document; `again` is the rest of the loop.
    unfoldable pub insert_round : Rounds → ℕ → Field → List Field → c.Docs → c.Docs × Outcome
    insert_round again seq f fs s =
        let doc_id = get_doc_id format_int conversation_id seq in
        let (msgs, next_seq, rest) = fill doc_id seq (replicate single_goc_msg_num none) (f ∷ fs) in
        on_create (again false next_seq rest) (again true seq (f ∷ fs))
          (c.create s doc_id (map normalise msgs))

    -- The part under `if tryUpdate`.
    unfoldable pub update_round : Rounds → ℕ → Field → List Field → c.Docs → c.Docs × Outcome
    update_round again seq f fs s =
        on_update (again true (seq + 1) fs) (insert_round again seq f fs)
          (c.update_msg s (get_doc_id format_int conversation_id seq) (get_msg_index seq) f)

    -- The outer loop, from the field at hand on. `try_update` is the mode: update first, or
    -- insert a new document first.
    unfoldable pub insert_loop : ℕ → Rounds
    insert_loop zero try_update seq [] s = (s, done)
    insert_loop zero try_update seq (f ∷ fs) s = (s, out_of_fuel)
    insert_loop (suc fuel) try_update seq [] s = (s, done)
    insert_loop (suc fuel) try_update seq (f ∷ fs) s =
        let again : Rounds = insert_loop fuel in
        if try_update then update_round again seq f fs s else insert_round again seq f fs s

    unfoldable pub batch_insert_block : List Field → ℕ → ℕ → c.Docs → c.Docs × Outcome
    batch_insert_block [] key first_seq s = (s, done)
    batch_insert_block (f ∷ fs) key first_seq s = elim (check_fields key first_seq (f ∷ fs)) [
      | err e ↦ (s, stopped e)
      | ok _ ↦ insert_loop (2 * length (f ∷ fs) + 1) true first_seq (f ∷ fs) s
    ]
