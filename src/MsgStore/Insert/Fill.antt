-- ===== src/MsgStore/Insert/Fill.antt =====
-- Filling a new document does to the stored slots what writing its fields one by one does.
use root_open_im_server.Base.{
  ℕ, zero, suc, ◌+◌, ◌-◌, ◌/◌, ◌≤◌, ◌<◌, String, List, [], ◌∷◌, map, Option, none, some, str_eq,
  eq_iff, ◌==◌, if◌then◌else◌, ◌≡◌, refl, sym, ap, ◌∙◌, arith, set, replicate, length, Bool-cases,
  inl, inr,
}
use mathlib.Core.Path.{fun_ext}
use text.Mathlib.TextLemmas.{append_cancel_left}
use root_open_im_server.MsgStore.Doc.{MsgInfo, empty_info, get_doc_id, get_msg_index}
use root_open_im_server.MsgStore.Collection.{Field, set_field, slot_of, write_slot, write_doc}
use root_open_im_server.MsgStore.Insert.{info_of, normalise, fill}

abbrev pub View : Type 0
View = String → ℕ → MsgInfo

slot_of-set :
    (msgs : List (Option MsgInfo)) (i j : ℕ) (s : MsgInfo)
    → i < length msgs
    → slot_of (map normalise (set msgs i (some s))) j
      ≡ (if i == j then s else slot_of (map normalise msgs) j)
slot_of-set [] i j s h = absurd (omega arith)
slot_of-set (m ∷ ms) zero zero s h = refl
slot_of-set (m ∷ ms) zero (suc j) s h = ground arith
slot_of-set (m ∷ ms) (suc i) zero s h = ground arith
slot_of-set (m ∷ ms) (suc i) (suc j) s h = ground (arith, slot_of-set ms i j s)

length-set :
    (msgs : List (Option MsgInfo)) (i : ℕ) (s : Option MsgInfo)
    → length (set msgs i s) ≡ length msgs
length-set [] i s = refl
length-set (m ∷ ms) zero s = refl
length-set (m ∷ ms) (suc i) s = ap suc (length-set ms i s)

pub slot_of-replicate : (n i : ℕ) → slot_of (map normalise (replicate n none)) i ≡ empty_info
slot_of-replicate zero i = refl
slot_of-replicate (suc n) zero = refl
slot_of-replicate (suc n) (suc i) = slot_of-replicate n i

pub length-replicate {ℓ} : {A : Type ℓ} (n : ℕ) (a : A) → length (replicate n a) ≡ n
length-replicate zero a = refl
length-replicate (suc n) a = ap suc (length-replicate n a)

set_field_empty : (f : Field) → set_field f empty_info ≡ info_of f
set_field_empty f = ground arith

module _ (format_int : ℕ → String) (conversation_id : String) where
  abbrev pub doc_id_of : ℕ → String
  doc_id_of = get_doc_id format_int conversation_id

  -- The specification: the fields are written one by one, from sequence number `seq` on.
  abbrev pub write_all : ℕ → List Field → View → View
  write_all seq [] view = view
  write_all seq (f ∷ fs) view =
      write_all (seq + 1) fs (write_slot view (doc_id_of seq) (get_msg_index seq) f)

module _ (format_int : ℕ → String) (injective : (a b : ℕ) → format_int a ≡ format_int b → a ≡ b)
    (conversation_id : String) where
  abbrev id_of : ℕ → String
  id_of = doc_id_of format_int conversation_id

  abbrev writes : ℕ → List Field → View → View
  writes = write_all format_int conversation_id

  -- Messages share a document exactly if they share a block of a hundred.
  pub doc_id_block : (a b : ℕ) → id_of a ≡ id_of b → (a - 1) / 100 ≡ (b - 1) / 100
  unfolding get_doc_id
  doc_id_block a b e = injective _ _ (append_cancel_left _ _ _ (append_cancel_left _ _ _ e))

  next_index :
      (seq : ℕ)
      → 1 ≤ seq
      → id_of (seq + 1) ≡ id_of seq
      → get_msg_index (seq + 1) ≡ get_msg_index seq + 1
  unfolding get_msg_index
  next_index seq h e = omega (arith, doc_id_block (seq + 1) seq e)

  index-lt : (seq : ℕ) → get_msg_index seq < 100
  unfolding get_msg_index
  index-lt seq = omega arith

  abbrev overlay : View → String → List (Option MsgInfo) → View
  overlay view doc_id msgs = write_doc view doc_id (map normalise msgs)

  place-overlay :
      (view : View) (doc_id : String) (seq : ℕ) (msgs : List (Option MsgInfo)) (f : Field)
      → id_of seq ≡ doc_id
      → length msgs ≡ 100
      → slot_of (map normalise msgs) (get_msg_index seq) ≡ empty_info
      → write_slot (overlay view doc_id msgs) (id_of seq) (get_msg_index seq) f
        ≡ overlay view doc_id (set msgs (get_msg_index seq) (some (info_of f)))
  place-overlay view doc_id seq msgs f e l free = fun_ext λ d. fun_ext λ i.
      ground
        (arith, index-lt seq, set_field_empty f, slot_of-set msgs (get_msg_index seq) i (info_of f))

  -- All slots of the document from the next message's on are free.
  abbrev FreeFrom : String → ℕ → List (Option MsgInfo) → Type 0
  FreeFrom doc_id seq msgs =
      id_of seq ≡ doc_id
      → (j : ℕ) → get_msg_index seq ≤ j
      → slot_of (map normalise msgs) j ≡ empty_info

  FreeFrom-set :
      (doc_id : String) (seq : ℕ) (msgs : List (Option MsgInfo)) (f : Field)
      → 1 ≤ seq
      → length msgs ≡ 100
      → id_of seq ≡ doc_id
      → FreeFrom doc_id seq msgs
      → FreeFrom doc_id (seq + 1) (set msgs (get_msg_index seq) (some (info_of f)))
  FreeFrom-set doc_id seq msgs f h l here free e j le = ground (
    arith,
    index-lt seq,
    next_index seq h (e ∙ sym here),
    free here j,
    slot_of-set msgs (get_msg_index seq) j (info_of f),
  )

  abbrev filled :
      String → ℕ → List (Option MsgInfo) → List Field → List (Option MsgInfo) × ℕ × List Field
  filled = fill format_int conversation_id

  -- Writing the fields over the partly filled document is writing the rest over the filled one.
  pub fill-write_all :
      (view : View) (doc_id : String) (seq : ℕ) (msgs : List (Option MsgInfo)) (fs : List Field)
      → 1 ≤ seq
      → length msgs ≡ 100
      → FreeFrom doc_id seq msgs
      → writes seq fs (overlay view doc_id msgs)
        ≡ writes
            (filled doc_id seq msgs fs).1
            (filled doc_id seq msgs fs).2
            (overlay view doc_id (filled doc_id seq msgs fs).0)
  unfolding fill
  fill-write_all view doc_id seq msgs [] h l free = refl
  fill-write_all view doc_id seq msgs (f ∷ fs) h l free =
      elim (Bool-cases (str_eq (id_of seq) doc_id)) [
        | inr other ↦ rw other
        | inl same ↦
            let here = (eq_iff (id_of seq) doc_id).0 same in
            let index = get_msg_index seq in
            rw (same, place-overlay view doc_id seq msgs f here l (free here index (omega arith)))
              (fill-write_all view doc_id (seq + 1) (set msgs index (some (info_of f))) fs
                (omega arith) (length-set msgs index (some (info_of f)) ∙ l)
                (FreeFrom-set doc_id seq msgs f h l here free))
      ]
