-- ===== src/MsgStore/Insert/Slots.antt =====
-- Each message of a conversation has a slot of its own, and `BatchInsertBlock` fills exactly the
-- slots of its messages.
use root_open_im_server.Base.{
  ℕ, zero, suc, ◌+◌, ◌≤◌, ◌<◌, String, List, [], ◌∷◌, some, eq_iff, ◌==◌, if◌then◌else◌, ◌≡◌, ◌⊎◌,
  refl, ap, ◌∙◌, arith, get_elem?, length, inl, inr,
}
use root_open_im_server.Base.Result.{ok}
use root_open_im_server.Common.Errors.{Error}
use root_open_im_server.MsgStore.Doc.{MsgInfo, get_doc_id, get_msg_index}
use root_open_im_server.MsgStore.Collection.{
  Field, Collection, IsCollection, Fails, set_field, write_slot,
}
use root_open_im_server.MsgStore.Insert.{done, stopped, check_fields, batch_insert_block}
use root_open_im_server.MsgStore.Insert.Fill.{View, write_all, doc_id_block}
use root_open_im_server.MsgStore.Insert.Writes.{batch_insert_block_writes}

module _ (format_int : ℕ → String) (injective : (a b : ℕ) → format_int a ≡ format_int b → a ≡ b)
    (conv : String) where
  abbrev pub slot_at : View → ℕ → MsgInfo
  slot_at view q = view (get_doc_id format_int conv q) (get_msg_index q)

  -- Two messages of a conversation never share a slot of a document.
  pub slot_injective :
      (a b : ℕ)
      → 1 ≤ a
      → 1 ≤ b
      → get_doc_id format_int conv a ≡ get_doc_id format_int conv b
      → get_msg_index a ≡ get_msg_index b
      → a ≡ b
  unfolding get_msg_index
  slot_injective a b ha hb d i = omega (arith, doc_id_block format_int injective conv a b d)

  slot_at-write_slot :
      (view : View) (seq q : ℕ) (f : Field)
      → 1 ≤ seq
      → 1 ≤ q
      → slot_at (write_slot view (get_doc_id format_int conv seq) (get_msg_index seq) f) q
        ≡ (if seq == q then set_field f (slot_at view q) else slot_at view q)
  slot_at-write_slot view seq q f hs hq = ground (
    arith,
    eq_iff (get_doc_id format_int conv seq) (get_doc_id format_int conv q),
    slot_injective seq q hs hq,
  )

  slot_at-write_all_before :
      (fs : List Field) (seq q : ℕ) (view : View)
      → 1 ≤ q
      → q < seq
      → slot_at (write_all format_int conv seq fs view) q ≡ slot_at view q
  slot_at-write_all_before [] seq q view hq lt = refl
  slot_at-write_all_before (f ∷ fs) seq q view hq lt = ground (
    arith,
    slot_at-write_all_before fs (seq + 1) q
        (write_slot view (get_doc_id format_int conv seq) (get_msg_index seq) f),
    slot_at-write_slot view seq q f,
  )

  slot_at-write_all_after :
      (fs : List Field) (seq q : ℕ) (view : View)
      → 1 ≤ seq
      → seq + length fs ≤ q
      → slot_at (write_all format_int conv seq fs view) q ≡ slot_at view q
  slot_at-write_all_after [] seq q view hs le = refl
  slot_at-write_all_after (f ∷ fs) seq q view hs le = ground (
    arith,
    slot_at-write_all_after fs (seq + 1) q
        (write_slot view (get_doc_id format_int conv seq) (get_msg_index seq) f),
    slot_at-write_slot view seq q f,
  )

  slot_at-write_all :
      (fs : List Field) (k seq q : ℕ) (f : Field) (view : View)
      → 1 ≤ seq
      → q ≡ seq + k
      → get_elem? fs k ≡ some f
      → slot_at (write_all format_int conv seq fs view) q ≡ set_field f (slot_at view q)
  slot_at-write_all [] k seq q f view h e m = ground arith
  slot_at-write_all (g ∷ fs) zero seq q f view h e m = ground (
    arith,
    slot_at-write_all_before fs (seq + 1) q
        (write_slot view (get_doc_id format_int conv seq) (get_msg_index seq) g),
    slot_at-write_slot view seq q g,
  )
  slot_at-write_all (g ∷ fs) (suc k) seq q f view h e m = ground (
    arith,
    slot_at-write_all fs k (seq + 1) q f
        (write_slot view (get_doc_id format_int conv seq) (get_msg_index seq) g),
    slot_at-write_slot view seq q g,
  )

  module _ (c : Collection) (laws : IsCollection c) where
    -- Unless the database fails, `BatchInsertBlock` of fields that pass its type check ends with
    -- the k-th field in the slot of message first_seq + k, beside what the slot held.
    pub batch_insert_block_stores :
        (fs : List Field) (key first_seq : ℕ) (s : c.Docs) (k : ℕ) (f : Field)
        → 1 ≤ first_seq
        → check_fields key first_seq fs ≡ ok tt
        → get_elem? fs k ≡ some f
        → let (s', outcome) = batch_insert_block format_int conv c fs key first_seq s in
          ((outcome ≡ done)
            × (slot_at (c.slot s') (first_seq + k)
                ≡ set_field f (slot_at (c.slot s) (first_seq + k))))
          ⊎ ((e : Error) × (outcome ≡ stopped e) × Fails c e)
    batch_insert_block_stores fs key first_seq s k f h valid m =
        elim (batch_insert_block_writes format_int injective conv c laws fs key first_seq s h
          valid) [
            | inr failure ↦ inr failure
            | inl (ended, written) ↦ inl (
              ended,
              ap (λ v. slot_at v (first_seq + k)) written
                  ∙ slot_at-write_all fs k first_seq (first_seq + k) f (c.slot s) h refl m,
            )
          ]

    -- Unless the database fails, it leaves the slots of all other messages of the conversation
    -- as they were.
    pub batch_insert_block_keeps :
        (fs : List Field) (key first_seq : ℕ) (s : c.Docs) (q : ℕ)
        → 1 ≤ first_seq
        → check_fields key first_seq fs ≡ ok tt
        → 1 ≤ q
        → (q < first_seq) ⊎ (first_seq + length fs ≤ q)
        → let (s', outcome) = batch_insert_block format_int conv c fs key first_seq s in
          ((outcome ≡ done) × (slot_at (c.slot s') q ≡ slot_at (c.slot s) q))
          ⊎ ((e : Error) × (outcome ≡ stopped e) × Fails c e)
    batch_insert_block_keeps fs key first_seq s q h valid hq outside =
        elim (batch_insert_block_writes format_int injective conv c laws fs key first_seq s h
          valid) [
            | inr failure ↦ inr failure
            | inl (ended, written) ↦ inl (
              ended,
              ap (λ v. slot_at v q) written ∙ elim outside [
                | inl before ↦ slot_at-write_all_before fs first_seq q (c.slot s) hq before
                | inr after ↦ slot_at-write_all_after fs first_seq q (c.slot s) h after
              ],
            )
          ]
