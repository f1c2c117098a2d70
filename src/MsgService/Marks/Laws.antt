-- ===== src/MsgService/Marks/Laws.antt =====
-- Read marks only go up, and what a conversation's mark covers.
use root_open_im_server.Base.{
  ℕ, zero, suc, ◌+◌, ◌-◌, ◌≤◌, String, ◌||◌, ◌&&◌, List, [], ◌∷◌, ◌++◌, Option, some, ◌==◌, ltb,
  leb, contains_nat, ◌≡◌, ◌⊎◌, refl, ◌∙◌, arith, inl, inr, Bool-cases, Option-cases,
}
use root_open_im_server.Base.Result.{Result, ok, err, Result-cases}
use root_open_im_server.Common.Errors.{Error}
use root_open_im_server.Common.Constants.{
  single_chat_type, super_group_chat_type, notification_chat_type,
}
use root_open_im_server.MsgService.Read.{
  ReadStore, Conversation, Answer, or_zero, raise_has_read_seq,
}
use root_open_im_server.MsgService.Marks.{
  numbers_from, add_missing, seqs_to_mark, mark_all, mark_single_conversation,
  mark_shared_conversation, mark_by_type, then_callback, mark_conversation_as_read, read_seq,
  read_seqs,
}

contains_nat-append_one :
    (n v : ℕ) (ns : List ℕ) → contains_nat n (ns ++ v ∷ []) ≡ (contains_nat n ns || (n == v))
contains_nat-append_one n v [] = ground arith
contains_nat-append_one n v (m ∷ ns) = ground (arith, contains_nat-append_one n v ns)

contains_nat-numbers_from :
    (n k i : ℕ) → contains_nat n (numbers_from i k) ≡ (leb i n && ltb n (i + k))
contains_nat-numbers_from n zero i = ground arith
contains_nat-numbers_from n (suc k) i = ground (arith, contains_nat-numbers_from n k (i + 1))

contains_nat-add_missing :
    (n : ℕ) (vs ns : List ℕ)
    → contains_nat n (add_missing ns vs) ≡ (contains_nat n ns || contains_nat n vs)
contains_nat-add_missing n [] ns = ground arith
contains_nat-add_missing n (v ∷ vs) ns = ground (
  arith,
  contains_nat-add_missing n vs ns,
  contains_nat-add_missing n vs (ns ++ v ∷ []),
  contains_nat-append_one n v ns,
)

-- In a single chat, the messages that are marked are those after the last one read and up to the
-- requested number, and those that are named.
pub contains_nat-seqs_to_mark :
    (n has_read_seq req_seq : ℕ) (req_seqs : List ℕ)
    → contains_nat n (seqs_to_mark has_read_seq req_seq req_seqs)
      ≡ ((ltb has_read_seq n && leb n req_seq) || contains_nat n req_seqs)
unfolding seqs_to_mark
contains_nat-seqs_to_mark n has_read_seq req_seq req_seqs = ground (
  arith,
  contains_nat-add_missing n req_seqs (numbers_from (has_read_seq + 1) (req_seq - has_read_seq)),
  contains_nat-numbers_from n (req_seq - has_read_seq) (has_read_seq + 1),
)

-- A write reaches its own key or, where it fails, none; marking messages touches no key.
pub record IsReadStore (c : ReadStore) : Type 0 where
  pub set_own :
      (s : c.State) (u conv : String) (n : ℕ) (v d : String)
      → (c.get_has_read_seq (c.set_has_read_seq s u conv n).0 v d ≡ c.get_has_read_seq s v d)
        ⊎ ((v ≡ u)
            × (d ≡ conv)
            × (c.get_has_read_seq (c.set_has_read_seq s u conv n).0 v d ≡ ok (some n)))
  pub mark_none :
      (s : c.State) (u conv : String) (ns : List ℕ) (v d : String)
      → c.get_has_read_seq (c.mark_single_chat_msgs_as_read s u conv ns).0 v d
        ≡ c.get_has_read_seq s v d

module _ (c : ReadStore) (laws : IsReadStore c) (v d : String) where
  -- The read mark of the user `v` in the conversation `d` is not lower than before.
  abbrev pub Grows : c.State → c.State → Type 0
  Grows s s' =
      (n : ℕ)
      → c.get_has_read_seq s v d ≡ ok (some n)
      → (n' : ℕ) × (n ≤ n') × (c.get_has_read_seq s' v d ≡ ok (some n'))

  same-Grows : (s s' : c.State) → c.get_has_read_seq s' v d ≡ c.get_has_read_seq s v d → Grows s s'
  same-Grows s s' e = λ n h. (n, omega arith, e ∙ h)

  raise-Grows :
      (s0 s : c.State) (u conv : String) (current : Option ℕ) (n : ℕ)
      → c.get_has_read_seq s0 u conv ≡ ok current
      → c.get_has_read_seq s v d ≡ c.get_has_read_seq s0 v d
      → Grows s0 (raise_has_read_seq c u conv (or_zero current) n s).0
  unfolding raise_has_read_seq
  raise-Grows s0 s u conv current n known e = λ old h. elim (Bool-cases (ltb (or_zero current) n)) [
    | inr lower ↦ (old, omega arith, rw lower (e ∙ h))
    | inl higher ↦ elim (laws.set_own s u conv n v d) [
      | inl untouched ↦ (old, omega arith, rw higher (untouched ∙ e ∙ h))
      | inr (own_user, own_conv, written) ↦
          (n, ground (arith, known, h, own_user, own_conv), rw higher written)
    ]
  ]

  mark_all-same :
      (s : c.State) (u conv : String) (ns : List ℕ)
      → c.get_has_read_seq (mark_all c u conv ns s).0 v d ≡ c.get_has_read_seq s v d
  mark_all-same s u conv [] = refl
  mark_all-same s u conv (n ∷ ns) = laws.mark_none s u conv (n ∷ ns) v d

  -- `ReadSeqs`, one request.
  read_seq-Grows : (u conv : String) (n : ℕ) (s : c.State) → Grows s (read_seq c u conv n s).0
  unfolding read_seq
  read_seq-Grows u conv n s = elim (Result-cases (c.get_has_read_seq s u conv)) [
    | inr (e, failed) ↦ rw (failed, read_seq) (same-Grows s s refl)
    | inl (current, known) ↦
        let s' = (raise_has_read_seq c u conv (or_zero current) n s).0 in
        elim (Option-cases (raise_has_read_seq c u conv (or_zero current) n s).1) [
          | inl done ↦ rw (known, done, read_seq) (raise-Grows s s u conv current n known refl)
          | inr (e, failed) ↦
              rw (known, failed, read_seq) (raise-Grows s s u conv current n known refl)
        ]
  ]

  -- `ReadSeqs` never takes a read mark back, whatever numbers it is given.
  pub read_seqs-Grows :
      (reqs : List (String × String × ℕ)) (s : c.State) → Grows s (read_seqs c reqs s).0
  unfolding read_seqs
  read_seqs-Grows [] s = same-Grows s s refl
  read_seqs-Grows ((u, conv, n) ∷ reqs) s = λ old h.
      let (mid, le1, at_mid) = read_seq-Grows u conv n s old h in
      let (end, le2, at_end) = read_seqs-Grows reqs (read_seq c u conv n s).0 mid at_mid in
      (end, omega arith, at_end)

  mark_shared-Grows :
      (u conv : String) (current : Option ℕ) (n : ℕ) (s : c.State)
      → c.get_has_read_seq s u conv ≡ ok current
      → Grows s (mark_shared_conversation c u conv (or_zero current) n s).0
  unfolding mark_shared_conversation
  mark_shared-Grows u conv current n s known =
      elim (Option-cases (raise_has_read_seq c u conv (or_zero current) n s).1) [
        | inl done ↦
            rw (done, mark_shared_conversation) (raise-Grows s s u conv current n known refl)
        | inr (e, failed) ↦
            rw (failed, mark_shared_conversation) (raise-Grows s s u conv current n known refl)
      ]

  mark_single-Grows :
      (u conv : String) (k : Conversation) (current : Option ℕ) (n : ℕ) (ns : List ℕ) (s : c.State)
      → c.get_has_read_seq s u conv ≡ ok current
      → Grows s (mark_single_conversation c u conv k (or_zero current) n ns s).0
  unfolding mark_single_conversation
  mark_single-Grows u conv k current n ns s known =
      let seqs = seqs_to_mark (or_zero current) n ns in
      let s1 = (mark_all c u conv seqs s).0 in
      let same : c.get_has_read_seq s1 v d ≡ c.get_has_read_seq s v d =
        mark_all-same s u conv seqs in
      elim (Option-cases (mark_all c u conv seqs s).1) [
        | inr (e, failed) ↦ rw (failed, mark_single_conversation) (same-Grows s s1 same)
        | inl marked ↦ elim (Option-cases (raise_has_read_seq c u conv (or_zero current) n s1).1) [
          | inl done ↦
              rw (marked, done, mark_single_conversation)
                (raise-Grows s s1 u conv current n known same)
          | inr (e, failed) ↦
              rw (marked, failed, mark_single_conversation)
                (raise-Grows s s1 u conv current n known same)
        ]
      ]

  then_callback_state :
      (r : Result Error (Unit {0})) (a : Answer c.State) → (then_callback c r a).0 ≡ a.0
  then_callback_state r (s, receipts, err e) = refl
  then_callback_state r (s, receipts, ok _) = refl

  -- `MarkConversationAsRead` never takes a read mark back, of this user or another, in this
  -- conversation or another, whether it ends with an error or not.
  pub mark_conversation_as_read-Grows :
      (u conv : String) (n : ℕ) (ns : List ℕ) (s : c.State)
      → Grows s (mark_conversation_as_read c u conv n ns s).0
  unfolding mark_conversation_as_read mark_by_type
  mark_conversation_as_read-Grows u conv n ns s = elim (Result-cases (c.get_conversation u conv)) [
    | inr (e, failed) ↦ rw (failed, mark_conversation_as_read) (same-Grows s s refl)
    | inl (k, found) ↦ elim (Result-cases (c.get_has_read_seq s u conv)) [
      | inr (e, failed) ↦ rw (found, failed, mark_conversation_as_read) (same-Grows s s refl)
      | inl (current, known) ↦
          rw (found, known, mark_conversation_as_read, then_callback_state)
            (elim (Bool-cases (k.conversation_type == single_chat_type)) [
              | inl single ↦
                  rw (single, mark_by_type) (mark_single-Grows u conv k current n ns s known)
              | inr other ↦
                  elim (Bool-cases (
                    k.conversation_type == super_group_chat_type
                    || k.conversation_type == notification_chat_type)) [
                      | inl shared ↦
                          rw (other, shared, mark_by_type)
                            (mark_shared-Grows u conv current n s known)
                      | inr unknown ↦ rw (other, unknown, mark_by_type) (same-Grows s s refl)
                    ]
            ])
    ]
  ]
