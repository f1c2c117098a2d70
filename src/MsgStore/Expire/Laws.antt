-- ===== src/MsgStore/Expire/Laws.antt =====
-- That the recursion of pkg/common/db/controller/msg.go over a conversation's documents ends, and
-- what it deletes.
use mathlib.Core.Path.{subst}
use root_open_im_server.Base.{
  ℕ, zero, suc, ◌+◌, ◌*◌, ◌<◌, String, false, List, [], ◌∷◌, ◌++◌, map, Option, none, some, str_eq,
  eq_iff, ◌≡◌, ◌≢◌, inl, inr, refl, ap, sym, arith, is_empty, get_elem?, Option-cases, Bool-cases,
  ltb→lt,
}
use root_open_im_server.Base.Result.{Result, ok, err, Result-cases}
use root_open_im_server.Common.Errors.{Error}
use root_open_im_server.MsgStore.Doc.{MsgData, MsgInfo}
use root_open_im_server.MsgStore.Expire.{
  MsgDoc, Emptied, Progress, returned, last_info, is_expired, expired_slots, empty_slots,
  delete_doc, visit, finish, delete_msg_recursion, Cleared, set_min_seq_after,
  delete_conversation_msgs_and_set_min_seq,
}

abbrev pub Each : {A : Type 0} → (A → Type 0) → List A → Type 0
Each P [] = Unit
Each P (x ∷ xs) = P x × Each P xs

Each-append_one :
    {A : Type 0} (P : A → Type 0) (xs : List A) (x : A) → Each P xs → P x → Each P (xs ++ x ∷ [])
Each-append_one P [] x h k = (k, tt)
Each-append_one P (y ∷ ys) x (k, h) l = (k, Each-append_one P ys x h l)

shift : (i j : ℕ) → i + suc j ≡ i + 1 + j
shift i j = omega arith

zero_right : (i : ℕ) → i + 0 ≡ i
zero_right i = omega arith

zero_left : (i : ℕ) → i ≡ 0 + i
zero_left i = omega arith

last_info-none : (xs : List MsgInfo) → last_info xs ≡ none → xs ≡ []
unfolding last_info
last_info-none [] h = refl
last_info-none (x ∷ []) h = absurd (ground arith)
last_info-none (x ∷ y ∷ xs) h = absurd (ground (arith, last_info-none (y ∷ xs) h))

module _ (doc_at : ℕ → Result Error MsgDoc) (clock : ℕ → ℕ → ℕ)
    (delete_docs : List String → Option Error) (remain_time : ℕ) where
  -- Slot i of a document read holds a message that was out of date when it was looked at.
  abbrev pub IsSlotExpired : ℕ → MsgDoc → ℕ → Type 0
  IsSlotExpired index doc i =
      (info : MsgInfo) × (m : MsgData) × (get_elem? doc.msgs i ≡ some info)
      × (info.msg ≡ some m)
      × (m.send_time + remain_time * 1000 < clock index (i + 1))

  abbrev pub IsSafeEmptied : Emptied → Type 0
  IsSafeEmptied e =
      (index : ℕ) × (doc : MsgDoc) × (doc_at index ≡ ok doc)
      × (doc.doc_id ≡ e.doc_id)
      × Each (IsSlotExpired index doc) e.indexes

  -- The document is one that was read, and its last slot held a message that was out of date.
  abbrev pub IsSafeDeleted : String → Type 0
  IsSafeDeleted d =
      (index : ℕ) × (doc : MsgDoc) × (info : MsgInfo) × (m : MsgData) × (doc_at index ≡ ok doc)
      × (doc.doc_id ≡ d)
      × (last_info doc.msgs ≡ some info)
      × (info.msg ≡ some m)
      × (m.send_time + remain_time * 1000 < clock index 0)

  abbrev pub IsSafe : Progress → Type 0
  IsSafe p = Each IsSafeDeleted p.del_doc_ids × Each IsSafeEmptied p.emptied

  expired_slots-expired :
      (index i : ℕ) (doc : MsgDoc) (infos : List MsgInfo)
      → ((j : ℕ) → get_elem? infos j ≡ get_elem? doc.msgs (i + j))
      → Each
          (IsSlotExpired index doc)
          (map (λ x. x.0) (expired_slots doc_at clock delete_docs remain_time index i infos))
  unfolding expired_slots is_expired
  expired_slots-expired index i doc [] h = tt
  expired_slots-expired index i doc (info ∷ infos) h =
      let at_next : (j : ℕ) → get_elem? infos j ≡ get_elem? doc.msgs (i + 1 + j) =
        λ j. subst (λ k. get_elem? infos j ≡ get_elem? doc.msgs k) (shift i j) (h (suc j)) in
      let first : some info ≡ get_elem? doc.msgs i =
        subst (λ k. some info ≡ get_elem? doc.msgs k) (zero_right i) (h 0) in
      let rest = expired_slots-expired index (i + 1) doc infos at_next in
      elim (Option-cases info.msg) [
        | inl e ↦ rw (e) rest
        | inr (m, e) ↦
            elim (Bool-cases
              (is_expired doc_at clock delete_docs remain_time (clock index (i + 1)) m)) [
                | inl b ↦ rw (e, b) ((info, m, sym first, e, ltb→lt _ _ b), rest)
                | inr b ↦ rw (e, b) rest
              ]
      ]

  empty_slots-IsSafe :
      (index : ℕ) (doc : MsgDoc) (p : Progress)
      → doc_at index ≡ ok doc
      → IsSafe p
      → IsSafe (empty_slots doc_at clock delete_docs remain_time index doc p)
  unfolding empty_slots
  empty_slots-IsSafe index doc p found safe =
      let slots = expired_slots doc_at clock delete_docs remain_time index 0 doc.msgs in
      let late =
        expired_slots-expired index 0 doc doc.msgs (λ j. ap (get_elem? doc.msgs) (zero_left j)) in
      elim (Bool-cases (is_empty slots)) [
        | inl e ↦ rw (e) safe
        | inr e ↦ rw (e) (safe.0, ((index, doc, found, refl, late), safe.1))
      ]

  delete_doc-IsSafe :
      (index : ℕ) (doc : MsgDoc) (p : Progress) (info : MsgInfo) (m : MsgData)
      → doc_at index ≡ ok doc
      → last_info doc.msgs ≡ some info
      → info.msg ≡ some m
      → IsSafe p
      → IsSafe (delete_doc doc_at clock delete_docs remain_time index doc p m)
  unfolding delete_doc is_expired
  delete_doc-IsSafe index doc p info m found last full safe =
      elim (Bool-cases (is_expired doc_at clock delete_docs remain_time (clock index 0) m)) [
        | inl e ↦ rw (e) (
          Each-append_one IsSafeDeleted p.del_doc_ids doc.doc_id safe.0
              (index, doc, info, m, found, refl, last, full, ltb→lt _ _ e),
          safe.1,
        )
        | inr e ↦ rw (e) (empty_slots-IsSafe index doc p found safe)
      ]

  visit-IsSafe :
      (index : ℕ) (doc : MsgDoc) (p : Progress)
      → doc_at index ≡ ok doc
      → doc.msgs ≢ []
      → IsSafe p
      → (q : Progress) × (visit doc_at clock delete_docs remain_time index doc p ≡ some q)
        × IsSafe q
  unfolding visit
  visit-IsSafe index doc p found slots safe = elim (Option-cases (last_info doc.msgs)) [
    | inl e ↦ absurd (slots (last_info-none doc.msgs e))
    | inr (info, last) ↦ elim (Option-cases info.msg) [
      | inl e ↦ (
        empty_slots doc_at clock delete_docs remain_time index doc p,
        rw (last, e, visit) refl,
        empty_slots-IsSafe index doc p found safe,
      )
      | inr (m, e) ↦ (
        delete_doc doc_at clock delete_docs remain_time index doc p m,
        rw (last, e, visit) refl,
        delete_doc-IsSafe index doc p info m found last e safe,
      )
    ]
  ]

  finish_returns :
      (p : Progress)
      → (r : Result Error ℕ) × (finish doc_at clock delete_docs remain_time p ≡ returned (p, r))
  unfolding finish
  finish_returns p = elim (Option-cases (delete_docs p.del_doc_ids)) [
    | inl e ↦ (ok (p.min_seq + 1), rw (e, finish) refl)
    | inr (x, e) ↦ (err x, rw (e, finish) refl)
  ]

  -- A document with an id is not the one that the recursion ends at, so there is a later one.
  not_last :
      (n index : ℕ) (doc : MsgDoc)
      → doc_at index ≡ ok doc
      → ((d : MsgDoc) → doc_at (index + n) ≡ ok d → d.doc_id ≡ "")
      → str_eq doc.doc_id "" ≡ false
      → (k : ℕ) × (n ≡ suc k)
  not_last zero index doc found ends e =
      let here = ends doc (subst (λ j. doc_at j ≡ ok doc) (sym (zero_right index)) found) in
      absurd (ground (arith, eq_iff doc.doc_id "", here))
  not_last (suc k) index doc found ends e = (k, refl)

  delete_msg_recursion-ends :
      (fuel n index : ℕ) (p : Progress)
      → n < fuel
      → ((doc : MsgDoc) → doc_at (index + n) ≡ ok doc → doc.doc_id ≡ "")
      → ((i : ℕ) (doc : MsgDoc) → doc_at i ≡ ok doc → doc.msgs ≢ [])
      → IsSafe p
      → (q : Progress) × (r : Result Error ℕ) × (delete_msg_recursion doc_at clock delete_docs
            remain_time fuel index p
          ≡ returned (q, r))
        × IsSafe q
  unfolding delete_msg_recursion
  delete_msg_recursion-ends zero n index p enough ends slots safe = absurd (omega arith)
  delete_msg_recursion-ends (suc fuel) n index p enough ends slots safe =
      let (r, here) = finish_returns p in
      elim (Result-cases (doc_at index)) [
        | inr (e, found) ↦ (p, r, rw (found, delete_msg_recursion) here, safe)
        | inl (doc, found) ↦ elim (Bool-cases (str_eq doc.doc_id "")) [
          | inl e ↦ (p, r, rw (found, e, delete_msg_recursion) here, safe)
          | inr e ↦
              let (q, moved, held) = visit-IsSafe index doc p found (slots index doc found) safe in
              let (k, later) = not_last n index doc found ends e in
              let ends_later : (d : MsgDoc) → doc_at (index + 1 + k) ≡ ok d → d.doc_id ≡ "" =
                subst (λ j. (d : MsgDoc) → doc_at j ≡ ok d → d.doc_id ≡ "") (omega (arith, later))
                  ends in
              let (q', r', ends', held') =
                delete_msg_recursion-ends fuel k (index + 1) q (omega (arith, later)) ends_later
                  slots held in
              (q', r', rw (found, e, moved, delete_msg_recursion) ends', held')
        ]
      ]

  set_min_seq_after-progress :
      (set_min_seq : ℕ → Option Error) (q : Progress) (r : Result Error ℕ)
      → (set_min_seq_after doc_at clock delete_docs remain_time set_min_seq q r).progress ≡ q
  unfolding set_min_seq_after
  set_min_seq_after-progress set_min_seq q (err e) = refl
  set_min_seq_after-progress set_min_seq q (ok n) = ground arith

  -- DeleteConversationMsgsAndSetMinSeq, with fuel for one document more than there are, ends without
  -- a panic when each document that is read has at least one slot. Each slot that it empties then
  -- held a message sent more than the remaining time before it was looked at, and so did the last
  -- slot of each document that it deletes.
  pub clearing_ends :
      (set_min_seq : ℕ → Option Error) (fuel n : ℕ)
      → n < fuel
      → ((doc : MsgDoc) → doc_at n ≡ ok doc → doc.doc_id ≡ "")
      → ((i : ℕ) (doc : MsgDoc) → doc_at i ≡ ok doc → doc.msgs ≢ [])
      → (c : Cleared) × (delete_conversation_msgs_and_set_min_seq doc_at clock delete_docs
            remain_time set_min_seq fuel
          ≡ returned c)
        × IsSafe c.progress
  unfolding delete_conversation_msgs_and_set_min_seq set_min_seq_after
  clearing_ends set_min_seq fuel n enough ends slots =
      let p : Progress = record { min_seq = 0; del_doc_ids = []; emptied = [] } in
      let ends_here : (d : MsgDoc) → doc_at (0 + n) ≡ ok d → d.doc_id ≡ "" =
        subst (λ j. (d : MsgDoc) → doc_at j ≡ ok d → d.doc_id ≡ "") (zero_left n) ends in
      let (q, r, ended, safe) =
        delete_msg_recursion-ends fuel n 0 p enough ends_here slots (tt, tt) in
      (
        set_min_seq_after doc_at clock delete_docs remain_time set_min_seq q r,
        rw (ended, delete_conversation_msgs_and_set_min_seq) refl,
        subst IsSafe (sym (set_min_seq_after-progress set_min_seq q r)) safe,
      )
