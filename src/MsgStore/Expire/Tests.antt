-- ===== src/MsgStore/Expire/Tests.antt =====
-- Deleting expired messages at concrete inputs.
use root_open_im_server.Base.{
  ℕ, zero, suc, ◌<◌, false, [], ◌∷◌, Option, none, some, ◌≡◌, ◌≢◌, refl, arith,
}
use root_open_im_server.Base.Result.{Result, ok, err}
use root_open_im_server.Common.Errors.{Error, dependency}
use root_open_im_server.MsgStore.Doc.{MsgInfo, empty_info}
use root_open_im_server.MsgStore.Expire.{
  MsgDoc, Run, returned, Cleared, delete_conversation_msgs_and_set_min_seq, delete_msg_recursion,
  visit, last_info, finish, set_min_seq_after, empty_slots, expired_slots, is_expired, last_seq,
  delete_doc,
}
use root_open_im_server.MsgStore.Expire.Laws.{IsSafe, clearing_ends}
use root_open_im_server.MsgStore.Tests.{hello}

-- A message with a sequence number and a time.
abbrev sent_at : ℕ → ℕ → MsgInfo
sent_at n time = record empty_info { msg = some (record hello { seq = n; send_time = time }) }

-- A full document that is out of date, and one with a late message, an early one and a free slot.
abbrev docs_at : ℕ → Result Error MsgDoc
docs_at zero = ok (record { doc_id = "c:0"; msgs = sent_at 1 1000 ∷ sent_at 2 2000 ∷ [] })
docs_at (suc zero) =
    ok (record { doc_id = "c:1"; msgs = sent_at 3 9000 ∷ sent_at 4 3000 ∷ empty_info ∷ [] })
docs_at (suc (suc n)) = err (dependency "msg list not exist")

abbrev five_seconds : ℕ → ℕ → ℕ
five_seconds index i = 5000

abbrev no_error : {A : Type 0} → A → Option Error
no_error a = none

abbrev cleared : Run Cleared
cleared = delete_conversation_msgs_and_set_min_seq docs_at five_seconds no_error 1 no_error 3

cleared_two :
    cleared
    ≡ returned (record {
      progress = record {
        min_seq = 4;
        del_doc_ids = "c:0" ∷ [];
        emptied = record { doc_id = "c:1"; indexes = 1 ∷ [] } ∷ [];
      };
      cleaned_up = false;
      min_seq_set = some 5;
      failure = none;
    })
unfolding delete_conversation_msgs_and_set_min_seq delete_msg_recursion visit last_info finish
    set_min_seq_after empty_slots expired_slots is_expired last_seq delete_doc
cleared_two = refl

docs_at-ends : (doc : MsgDoc) → docs_at 2 ≡ ok doc → doc.doc_id ≡ ""
docs_at-ends doc h = absurd (ground arith)

docs_at-slots : (i : ℕ) (doc : MsgDoc) → docs_at i ≡ ok doc → doc.msgs ≢ []
docs_at-slots zero doc h k = absurd (ground arith)
docs_at-slots (suc zero) doc h k = absurd (ground arith)
docs_at-slots (suc (suc n)) doc h k = absurd (ground arith)

two_below : 2 < 3
two_below = omega arith

clearing_ends_example :
    (c : Cleared) × (cleared ≡ returned c) × IsSafe docs_at five_seconds no_error 1 c.progress
clearing_ends_example =
    clearing_ends docs_at five_seconds no_error 1 no_error 3 2 two_below docs_at-ends docs_at-slots
