-- ===== src/MsgStore/Tests.antt =====
-- The message store at concrete inputs, with a collection in memory.
use text.Mathlib.TextLemmas.{tail-eq_of_cons-eq, nil≢cons, cons≢nil}
use root_open_im_server.Base.{
  ℕ, zero, suc, ◌≤◌, String, Bool, true, false, ◌||◌, List, [], ◌∷◌, map, none, some, str_eq,
  eq_iff, if◌then◌else◌, ◌≡◌, ◌⊎◌, inl, refl, ap, arith, length, get_elem?,
}
use root_open_im_server.Base.Result.{Result, ok}
use root_open_im_server.Common.Errors.{Error}
use root_open_im_server.MsgStore.Doc.{
  MsgData, Revoke, MsgInfo, empty_info, get_doc_id, get_msg_index,
}
use root_open_im_server.MsgStore.Collection.{
  Field, msg_field, Creation, created, duplicate_key, Collection, IsCollection, Fails, write_slot,
  write_doc,
}
use root_open_im_server.MsgStore.Insert.{
  done, stopped, check_field, check_fields, batch_insert_block, update_key_msg,
}
use root_open_im_server.MsgStore.Insert.Writes.{Ends, batch_insert_block_writes}
use root_open_im_server.MsgStore.Insert.Slots.{slot_at, batch_insert_block_keeps}
use root_open_im_server.MsgStore.Sequence.{
  SeqCache, Batch, number, insert_batch, batch_insert_chat2cache, batch_insert_in_place,
  batch_insert_chat2db, revoke_msg,
}
use root_open_im_server.MsgStore.Sequence.Numbers.{batch_insert_chat2cache_numbers}
use root_open_im_server.MsgStore.Sequence.Stored.{batch_insert_chat2db_stores, revoke_msg_keeps}

-- A number written in strokes.
abbrev pub strokes : ℕ → String
strokes zero = ""
strokes (suc n) = String.◌∷◌ "1" (strokes n)

pub strokes_injective : (a b : ℕ) → strokes a ≡ strokes b → a ≡ b
strokes_injective zero zero h = refl
strokes_injective zero (suc b) h = absurd (nil≢cons h)
strokes_injective (suc a) zero h = absurd (cons≢nil h)
strokes_injective (suc a) (suc b) h = ap suc (strokes_injective a b (tail-eq_of_cons-eq h))

pub record Memory : Type 0 where
  has : String → Bool
  view : String → ℕ → MsgInfo

abbrev memory_slot : Memory → String → ℕ → MsgInfo
memory_slot s d i = if s.has d then s.view d i else empty_info

abbrev memory_update : Memory → String → ℕ → Field → Bool → Memory × Result Error Bool
memory_update s d i f true = (record s { view = write_slot s.view d i f }, ok true)
memory_update s d i f false = (s, ok false)

abbrev memory_create : Memory → String → List MsgInfo → Bool → Memory × Creation
memory_create s d msgs true = (s, duplicate_key)
memory_create s d msgs false =
    (record { has = λ e. str_eq d e || s.has e; view = write_doc s.view d msgs }, created)

abbrev pub memory : Collection
memory = record {
  Docs = Memory;
  update_msg = λ s d i f. memory_update s d i f (s.has d);
  create = λ s d msgs. memory_create s d msgs (s.has d);
  has_doc = λ s d. s.has d;
  slot = memory_slot;
}

pub memory-IsCollection : IsCollection memory
memory-IsCollection = record {
  no_doc = λ s d i h. ground arith;
  matched = λ s s' d i f h e j. ground (arith, eq_iff d e);
  unmatched = λ s s' d i f h. ground arith;
  create_new = λ s s' d msgs h. (ground arith, λ e j. ground (arith, eq_iff d e));
  create_duplicate = λ s s' d msgs h. ground arith;
}

abbrev pub nothing : Memory
nothing = record { has = λ d. false; view = λ d i. empty_info }

abbrev pub hello : MsgData
hello = record {
  send_id = "ann";
  recv_id = "bob";
  group_id = "";
  client_msg_id = "c";
  server_msg_id = "s";
  sender_platform_id = 1;
  sender_nickname = "Ann";
  sender_face_url = "";
  session_type = 1;
  msg_from = 100;
  content_type = 101;
  content = "hello";
  seq = 0;
  send_time = 5;
  create_time = 4;
  status = 1;
  is_read = false;
  options = [];
  offline_push = none;
  at_user_id_list = [];
  attached_info = "";
  ex = "";
}

-- Messages 100 and 101 lie in two documents.
abbrev fields : List Field
fields = msg_field (record hello { seq = 100 }) ∷ msg_field (record hello { seq = 101 }) ∷ []

fields_valid : check_fields update_key_msg 100 fields ≡ ok tt
unfolding check_fields check_field
fields_valid = refl

batch_insert_block_writes_example :
    Ends strokes strokes_injective "g_1" memory memory-IsCollection 100 fields nothing
      (batch_insert_block strokes "g_1" memory fields update_key_msg 100 nothing)
batch_insert_block_writes_example =
    batch_insert_block_writes strokes strokes_injective "g_1" memory memory-IsCollection fields
      update_key_msg 100 nothing (omega arith) fields_valid

batch_insert_block_keeps_example :
    let (s', outcome) = batch_insert_block strokes "g_1" memory fields update_key_msg 100 nothing in
    ((outcome ≡ done)
      × (slot_at strokes strokes_injective "g_1" (memory_slot s') 99
          ≡ slot_at strokes strokes_injective "g_1" (memory_slot nothing) 99))
    ⊎ ((e : Error) × (outcome ≡ stopped e) × Fails memory e)
batch_insert_block_keeps_example =
    batch_insert_block_keeps strokes strokes_injective "g_1" memory memory-IsCollection fields
      update_key_msg 100 nothing 99 (omega arith) fields_valid (omega arith) (inl (omega arith))

abbrev seven : ℕ
seven = 7

batch_insert_chat2db_stores_example :
    let (s', outcome) =
      batch_insert_chat2db strokes memory "g_1"
        (map some (number 99 (hello ∷ hello ∷ [])))
        nothing in
    let doc_id = get_doc_id strokes "g_1" 101 in
    let index = get_msg_index 101 in
    ((outcome ≡ done)
      × (memory_slot s' doc_id index ≡ record (memory_slot nothing doc_id index) {
        msg = some (record hello { seq = 101; is_read = false });
      }))
    ⊎ ((e : Error) × (outcome ≡ stopped e) × Fails memory e)
batch_insert_chat2db_stores_example =
    batch_insert_chat2db_stores strokes strokes_injective memory memory-IsCollection "g_1" nothing
      99 1 (hello ∷ hello ∷ []) hello refl

abbrev revoke : Revoke
revoke = record { role = 20; user_id = "ann"; nickname = "Ann"; time = 9 }

revoke_msg_keeps_example :
    let (s', outcome) = revoke_msg strokes memory "g_1" 7 revoke nothing in
    let doc_id = get_doc_id strokes "g_1" 7 in
    ((outcome ≡ done)
      × (memory_slot s' doc_id (get_msg_index 7)
          ≡ record (memory_slot nothing doc_id (get_msg_index 7)) { revoke = some revoke }))
    ⊎ ((e : Error) × (outcome ≡ stopped e) × Fails memory e)
revoke_msg_keeps_example =
    revoke_msg_keeps strokes strokes_injective memory memory-IsCollection "g_1" nothing 7 revoke
      (omega arith)

-- A cache that holds the maximum 4 and takes every write.
abbrev pub seq_cache : SeqCache
seq_cache = record {
  State = ℕ;
  get_max_seq = λ s conv. ok (some s);
  set_message_to_cache = λ s conv msgs. (s, none);
  set_max_seq = λ s conv n. (n, none);
  set_has_read_seqs = λ s conv seqs. (s, none);
}

abbrev batch : Batch
batch = record { last_max_seq = 4; is_new = false; msgs = number 4 (hello ∷ hello ∷ []) }

batch_accepted : (batch_insert_chat2cache seq_cache "g_1" (hello ∷ hello ∷ []) 4).1 ≡ ok batch
unfolding batch_insert_chat2cache batch_insert_in_place insert_batch
batch_accepted = refl

batch_insert_chat2cache_numbers_example :
    (1 ≤ 2)
    × (2 ≤ 100)
    × (length batch.msgs ≡ 2)
    × (get_elem? batch.msgs 1 ≡ some (record hello { seq = 6 }))
    × (((batch.is_new ≡ true)
          × (batch.last_max_seq ≡ 0)
          × (seq_cache.get_max_seq 4 "g_1" ≡ ok none))
        ⊎ ((batch.is_new ≡ false) × (seq_cache.get_max_seq 4 "g_1" ≡ ok (some 4))))
batch_insert_chat2cache_numbers_example =
    batch_insert_chat2cache_numbers seq_cache "g_1" (hello ∷ hello ∷ []) 4 batch 1 hello
      batch_accepted refl
