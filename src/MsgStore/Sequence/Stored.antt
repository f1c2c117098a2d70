-- ===== src/MsgStore/Sequence/Stored.antt =====
-- From the numbering to the documents.
use native.Mathlib.Nat.{add-zero}
use root_open_im_server.Base.{
  ℕ, zero, suc, ◌+◌, ◌≤◌, String, false, List, [], ◌∷◌, map, some, get_elem?, ◌≡◌, ◌⊎◌, refl, arith,
}
use root_open_im_server.Base.Result.{ok}
use root_open_im_server.Common.Errors.{Error}
use root_open_im_server.MsgStore.Doc.{MsgData, Revoke, get_doc_id, get_msg_index}
use root_open_im_server.MsgStore.Collection.{
  msg_field, revoke_field, Collection, IsCollection, Fails,
}
use root_open_im_server.MsgStore.Insert.{
  done, stopped, update_key_msg, update_key_revoke, check_field, check_fields,
}
use root_open_im_server.MsgStore.Insert.Slots.{batch_insert_block_stores}
use root_open_im_server.MsgStore.Sequence.{number, to_field, batch_insert_chat2db, revoke_msg}

-- Numbered messages pass the type check of the document writer.
check_fields-number :
    (n : ℕ) (ms : List MsgData)
    → check_fields update_key_msg (n + 1) (map to_field (map some (number n ms))) ≡ ok tt
unfolding check_fields check_field number
check_fields-number n [] = refl
check_fields-number n (m ∷ ms) = ground (arith, check_fields-number (n + 1) ms)

get_elem?-fields :
    (ms : List MsgData) (k n : ℕ) (m : MsgData)
    → get_elem? ms k ≡ some m
    → get_elem? (map to_field (map some (number n ms))) k
      ≡ some (msg_field (record m { seq = n + k + 1; is_read = false }))
unfolding number
get_elem?-fields [] k n m h = ground arith
get_elem?-fields (x ∷ ms) zero n m h = ground arith
get_elem?-fields (x ∷ ms) (suc k) n m h = ground (arith, get_elem?-fields ms k (n + 1) m)

module _ (format_int : ℕ → String) (injective : (a b : ℕ) → format_int a ≡ format_int b → a ≡ b)
    (c : Collection) (laws : IsCollection c) (conv : String) (s : c.Docs) where
  -- Handed on from the cache, the k-th message of a batch lies in the slot of number n + k + 1 of
  -- its conversation, with that number, unread, and beside the revocation and the deletions that
  -- the slot held; or an error that the database returned
  -- stopped the batch.
  pub batch_insert_chat2db_stores :
      (n k : ℕ) (ms : List MsgData) (m : MsgData)
      → get_elem? ms k ≡ some m
      → let (s', outcome) = batch_insert_chat2db format_int c conv (map some (number n ms)) s in
        let doc_id = get_doc_id format_int conv (n + k + 1) in
        let index = get_msg_index (n + k + 1) in
        ((outcome ≡ done)
          × (c.slot s' doc_id index ≡ record (c.slot s doc_id index) {
            msg = some (record m { seq = n + k + 1; is_read = false });
          }))
        ⊎ ((e : Error) × (outcome ≡ stopped e) × Fails c e)
  unfolding batch_insert_chat2db number
  batch_insert_chat2db_stores n k [] m h = absurd (ground arith)
  batch_insert_chat2db_stores n k (x ∷ ms) m h =
      let e : n + k + 1 ≡ n + 1 + k = omega arith in
      rw e (
        batch_insert_block_stores format_int injective conv c laws
          (map to_field (map some (number n (x ∷ ms)))) update_key_msg (n + 1) s k
          (msg_field (record m { seq = n + 1 + k; is_read = false })) (omega arith)
          (check_fields-number n (x ∷ ms)) (rw (← e) (get_elem?-fields (x ∷ ms) k n m h)))

  -- A revocation is written beside the message: the message, the list of users that deleted it
  -- and its read mark stay; or an error that the database returned stopped it.
  pub revoke_msg_keeps :
      (seq : ℕ) (r : Revoke)
      → 1 ≤ seq
      → let (s', outcome) = revoke_msg format_int c conv seq r s in
        let doc_id = get_doc_id format_int conv seq in
        ((outcome ≡ done)
          × (c.slot s' doc_id (get_msg_index seq)
              ≡ record (c.slot s doc_id (get_msg_index seq)) { revoke = some r }))
        ⊎ ((e : Error) × (outcome ≡ stopped e) × Fails c e)
  unfolding revoke_msg
  revoke_msg_keeps seq r h = rw add-zero at (
      batch_insert_block_stores format_int injective conv c laws (revoke_field r ∷ [])
        update_key_revoke seq s 0 (revoke_field r) h (unfold check_fields check_field in refl) refl)
