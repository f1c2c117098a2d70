-- ===== src/MsgStore/Insert/Writes.antt =====
-- `BatchInsertBlock` writes every field to its slot, and nothing else.
use root_open_im_server.Base.{
  ℕ, zero, suc, ◌+◌, ◌*◌, ◌≤◌, ◌<◌, String, Bool, true, false, List, [], ◌∷◌, map, Option, none,
  some, str_eq_refl, eq_iff, if◌then◌else◌, ◌≡◌, ◌⊎◌, refl, sym, ap, ◌∙◌, arith, set, replicate,
  length, inl, inr,
}
use root_open_im_server.Base.Result.{Result, ok, err}
use root_open_im_server.Common.Errors.{Error}
use mathlib.Core.Path.{fun_ext}
use root_open_im_server.MsgStore.Doc.{MsgInfo, single_goc_msg_num, get_doc_id, get_msg_index}
use root_open_im_server.MsgStore.Collection.{
  Field, Collection, IsCollection, Fails, Creation, created, duplicate_key, failed, write_doc,
}
use root_open_im_server.MsgStore.Insert.{
  info_of, normalise, fill, Outcome, done, stopped, Rounds, on_create, on_update, insert_round,
  update_round, insert_loop, check_fields, batch_insert_block,
}
use root_open_im_server.MsgStore.Insert.Fill.{
  write_all, fill-write_all, slot_of-replicate, length-replicate,
}

fill_rest :
    (format_int : ℕ → String) (conv doc_id : String) (seq : ℕ) (msgs : List (Option MsgInfo))
    (fs : List Field)
    → let (msgs', seq', rest) = fill format_int conv doc_id seq msgs fs in
      (seq ≤ seq') × (length rest ≤ length fs)
unfolding fill
fill_rest format_int conv doc_id seq msgs [] = (omega arith, omega arith)
fill_rest format_int conv doc_id seq msgs (f ∷ fs) = ground (
  arith,
  fill_rest format_int conv doc_id (seq + 1) (set msgs (get_msg_index seq) (some (info_of f))) fs,
)

-- A document begins with the message that it is made for.
fill_first :
    (format_int : ℕ → String) (conv : String) (seq : ℕ) (msgs : List (Option MsgInfo)) (f : Field)
    (fs : List Field)
    → let (msgs', seq', rest) =
        fill format_int conv (get_doc_id format_int conv seq) seq msgs (f ∷ fs) in
      (seq ≤ seq') × (length rest ≤ length fs)
unfolding fill
fill_first format_int conv seq msgs f fs =
    let doc_id = get_doc_id format_int conv seq in
    rw (str_eq_refl doc_id) (
      ground (
        arith,
        fill_rest format_int conv doc_id (seq + 1) (set msgs (get_msg_index seq) (some (info_of f)))
            fs,
      ))

module _ (format_int : ℕ → String) (injective : (a b : ℕ) → format_int a ≡ format_int b → a ≡ b)
    (conv : String) (c : Collection) (laws : IsCollection c) where
  -- The run came to its end, with the fields written, or was stopped by an error.
  abbrev pub Ends : ℕ → List Field → c.Docs → c.Docs × Outcome → Type 0
  Ends seq fs s r =
      ((r.1 ≡ done) × (c.slot r.0 ≡ write_all format_int conv seq fs (c.slot s)))
      ⊎ ((e : Error) × (r.1 ≡ stopped e) × Fails c e)

  abbrev rounds : Bool → List Field → ℕ
  rounds try_update fs = 2 * length fs + (if try_update then 0 else 1)

  -- A new document stands for its fields.
  new_doc :
      (seq : ℕ) (f : Field) (fs : List Field) (s : c.Docs)
      → 1 ≤ seq
      → c.has_doc s (get_doc_id format_int conv seq) ≡ false
      → let doc_id = get_doc_id format_int conv seq in
        let (msgs, seq', rest) =
          fill format_int conv doc_id seq (replicate single_goc_msg_num none) (f ∷ fs) in
        write_all format_int conv seq (f ∷ fs) (c.slot s)
        ≡ write_all format_int conv seq' rest (write_doc (c.slot s) doc_id (map normalise msgs))
  new_doc seq f fs s h absent =
      let doc_id = get_doc_id format_int conv seq in
      let blank : List (Option MsgInfo) = replicate single_goc_msg_num none in
      let nothing : write_doc (c.slot s) doc_id (map normalise blank) ≡ c.slot s =
        (fun_ext λ d. fun_ext λ i. ground (
          arith,
          eq_iff doc_id d,
          laws.no_doc s doc_id i absent,
          slot_of-replicate single_goc_msg_num i,
        )) in
      ap (write_all format_int conv seq (f ∷ fs)) (sym nothing)
      ∙ fill-write_all format_int injective conv (c.slot s) doc_id seq blank (f ∷ fs) h
          (length-replicate {A = Option MsgInfo} single_goc_msg_num none)
          (λ _ j _. slot_of-replicate single_goc_msg_num j)

  via :
      (seq seq' : ℕ) (fs fs' : List Field) (s s' : c.Docs) (r : c.Docs × Outcome)
      → write_all format_int conv seq' fs' (c.slot s') ≡ write_all format_int conv seq fs (c.slot s)
      → Ends seq' fs' s' r
      → Ends seq fs s r
  via seq seq' fs fs' s s' r same (inl (ended, written)) = inl (ended, written ∙ same)
  via seq seq' fs fs' s s' r same (inr failure) = inr failure

  module _ (again : Rounds format_int conv c) (fuel : ℕ)
      (ih : (try_update : Bool) (seq : ℕ) (fs : List Field) (s : c.Docs)
        → 1 ≤ seq
        → rounds try_update fs < fuel
        → Ends seq fs s (again try_update seq fs s))
      (seq : ℕ) (f : Field) (fs : List Field) (s : c.Docs) (h : 1 ≤ seq) where
    -- A round that inserts, where the document is missing or the update mode is still to come.
    insert_round-Ends :
        (c.has_doc s (get_doc_id format_int conv seq) ≡ false) ⊎ (rounds true (f ∷ fs) < fuel)
        → rounds false fs < fuel
        → Ends seq (f ∷ fs) s (insert_round format_int conv c again seq f fs s)
    unfolding insert_round
    insert_round-Ends missing enough = after (c.create s doc_id (map normalise msgs)) refl
      where
        doc_id : String
        doc_id = get_doc_id format_int conv seq

        block : List (Option MsgInfo) × ℕ × List Field
        block = fill format_int conv doc_id seq (replicate single_goc_msg_num none) (f ∷ fs)

        msgs : List (Option MsgInfo)
        msgs = block.0

        after :
            (r : c.Docs × Creation)
            → c.create s doc_id (map normalise msgs) ≡ r
            → Ends seq (f ∷ fs) s (
                on_create format_int conv c
                  (again false block.1 block.2)
                  (again true seq (f ∷ fs))
                  r)
        after (s', created) e =
            let (absent, stored) = laws.create_new s s' doc_id (map normalise msgs) e in
            let (forward, shorter) =
              fill_first format_int conv seq (replicate single_goc_msg_num none) f fs in
            via seq block.1 (f ∷ fs) block.2 s s' _
              (ap (write_all format_int conv block.1 block.2) (fun_ext λ d. fun_ext (stored d))
                ∙ sym (new_doc seq f fs s h absent))
              (ih false block.1 block.2 s' (omega arith) (omega arith))
        after (s', duplicate_key) e =
            let (same, present) = laws.create_duplicate s s' doc_id (map normalise msgs) e in
            elim missing [
              | inl absent ↦ absurd (ground arith)
              | inr more ↦
                  via seq seq (f ∷ fs) (f ∷ fs) s s' _
                    (ap (λ t. write_all format_int conv seq (f ∷ fs) (c.slot t)) same)
                    (ih true seq (f ∷ fs) s' h more)
            ]
        after (s', failed x) e = inr (x, refl, inr (s, s', doc_id, map normalise msgs, e))

    update_round-Ends :
        rounds true (f ∷ fs) < suc fuel
        → Ends seq (f ∷ fs) s (update_round format_int conv c again seq f fs s)
    unfolding update_round
    update_round-Ends enough =
        after (c.update_msg s (get_doc_id format_int conv seq) (get_msg_index seq) f) refl
      where
        doc_id : String
        doc_id = get_doc_id format_int conv seq

        after :
            (r : c.Docs × Result Error Bool)
            → c.update_msg s doc_id (get_msg_index seq) f ≡ r
            → Ends seq (f ∷ fs) s (
                on_update format_int conv c
                  (again true (seq + 1) fs)
                  (insert_round format_int conv c again seq f fs)
                  r)
        after (s', ok true) e =
            let stored = laws.matched s s' doc_id (get_msg_index seq) f e in
            via seq (seq + 1) (f ∷ fs) fs s s' _
              (ap (write_all format_int conv (seq + 1) fs) (fun_ext λ d. fun_ext (stored d)))
              (ih true (seq + 1) fs s' (omega arith) (omega arith))
        after (s', ok false) e =
            let (same, absent) = laws.unmatched s s' doc_id (get_msg_index seq) f e in
            rw same (insert_round-Ends (inl absent) (omega arith))
        after (s', err x) e = inr (x, refl, inl (s, s', doc_id, get_msg_index seq, f, e))

  insert_loop-Ends :
      (fuel : ℕ) (try_update : Bool) (seq : ℕ) (fs : List Field) (s : c.Docs)
      → 1 ≤ seq
      → rounds try_update fs < fuel
      → Ends seq fs s (insert_loop format_int conv c fuel try_update seq fs s)
  unfolding insert_loop
  insert_loop-Ends zero try_update seq fs s h enough = absurd (omega arith)
  insert_loop-Ends (suc fuel) try_update seq [] s h enough = inl (refl, refl)
  insert_loop-Ends (suc fuel) true seq (f ∷ fs) s h enough =
      update_round-Ends _ fuel (insert_loop-Ends fuel) seq f fs s h enough
  insert_loop-Ends (suc fuel) false seq (f ∷ fs) s h enough =
      insert_round-Ends _ fuel (insert_loop-Ends fuel) seq f fs s h (inr (omega arith))
        (omega arith)

  -- With fields that pass the type check, `BatchInsertBlock` comes to an end: either an error that
  -- the database returned stopped it, or every field lies in the slot of its sequence number and all
  -- other slots of all documents are as they were.
  pub batch_insert_block_writes :
      (fs : List Field) (key first_seq : ℕ) (s : c.Docs)
      → 1 ≤ first_seq
      → check_fields key first_seq fs ≡ ok tt
      → Ends first_seq fs s (batch_insert_block format_int conv c fs key first_seq s)
  unfolding batch_insert_block
  batch_insert_block_writes [] key first_seq s h valid = inl (refl, refl)
  batch_insert_block_writes (f ∷ fs) key first_seq s h valid =
      rw (valid, batch_insert_block) (insert_loop-Ends _ true first_seq (f ∷ fs) s h (omega arith))
