-- ===== src/MsgService/Delete/Laws.antt =====
-- How far a deletion reaches, and where a cleared conversation starts again.
use root_open_im_server.Base.{
  ℕ, suc, String, Bool, true, false, List, [], ◌∷◌, ◌++◌, map, Option, none, some, any, ◌≡◌, ◌⊎◌,
  refl, sym, ap, ◌∙◌, arith, inl, inr, Bool-cases,
}
use root_open_im_server.Base.Dict.{lookup}
use root_open_im_server.Base.Result.{ok, Result-cases}
use root_open_im_server.Common.Access.{check_access_v3}
use root_open_im_server.Common.Constants.{clear_conversation_notification}
use root_open_im_server.MsgService.Delete.{
  Seqs, Effect, delete_msgs_physical_by_seqs, delete_user_msgs_by_seqs,
  delete_conversation_msgs_and_set_min_seq, set_user_conversations_min_seqs, set_min_seqs,
  user_set_has_read_seqs, notify, done, SyncOpt, Known, Deletion, get_min_seqs,
  validate_delete_sync_opt, to_members, to_self, clear_up_to, clear_conversation,
  clear_conversations_msg, user_clear_all_msg, delete_msgs,
}

-- An effect on what other users see.
abbrev pub is_shared : Effect → Bool
is_shared (delete_msgs_physical_by_seqs c ns) = true
is_shared (delete_user_msgs_by_seqs u c ns) = false
is_shared (delete_conversation_msgs_and_set_min_seq c remain) = true
is_shared (set_user_conversations_min_seqs u m) = false
is_shared (set_min_seqs m) = true
is_shared (user_set_has_read_seqs u m) = false
is_shared (notify a b t s) = false

-- The minimum that the effects write for a conversation, for the user or for all.
abbrev pub written_min : String → List Effect → Option ℕ
written_min k [] = none
written_min k (set_user_conversations_min_seqs u m ∷ es) = lookup k m
written_min k (set_min_seqs m ∷ es) = lookup k m
written_min k (delete_msgs_physical_by_seqs c ns ∷ es) = written_min k es
written_min k (delete_user_msgs_by_seqs u c ns ∷ es) = written_min k es
written_min k (delete_conversation_msgs_and_set_min_seq c remain ∷ es) = written_min k es
written_min k (user_set_has_read_seqs u m ∷ es) = written_min k es
written_min k (notify a b t s ∷ es) = written_min k es

-- The read number that they write.
abbrev pub written_read : String → List Effect → Option ℕ
written_read k [] = none
written_read k (user_set_has_read_seqs u m ∷ es) = lookup k m
written_read k (set_user_conversations_min_seqs u m ∷ es) = written_read k es
written_read k (set_min_seqs m ∷ es) = written_read k es
written_read k (delete_msgs_physical_by_seqs c ns ∷ es) = written_read k es
written_read k (delete_user_msgs_by_seqs u c ns ∷ es) = written_read k es
written_read k (delete_conversation_msgs_and_set_min_seq c remain ∷ es) = written_read k es
written_read k (notify a b t s ∷ es) = written_read k es

lookup-get_min_seqs :
    (k : String) (n : ℕ) (m : Seqs) → lookup k m ≡ some n → lookup k (get_min_seqs m) ≡ some (suc n)
unfolding get_min_seqs
lookup-get_min_seqs k n [] h = absurd (ground arith)
lookup-get_min_seqs k n ((j, v) ∷ m) h = ground (arith, lookup-get_min_seqs k n m)

module _ (env : Deletion) where
  written_read-to_members :
      (k u : String) (t : ℕ) (known : List Known) (es : List Effect)
      → written_read k (to_members env u t known ++ es) ≡ written_read k es
  written_read-to_members k u t [] es = refl
  written_read-to_members k u t (x ∷ known) es = written_read-to_members k u t known es

  any-to_members :
      (u : String) (t : ℕ) (known : List Known) (es : List Effect)
      → any is_shared (to_members env u t known ++ es) ≡ any is_shared es
  any-to_members u t [] es = refl
  any-to_members u t (x ∷ known) es = any-to_members u t known es

  written_read-to_self :
      (k u : String) (t : ℕ) (b : Bool) (es : List Effect)
      → written_read k (to_self env b u t ++ es) ≡ written_read k es
  written_read-to_self k u t true es = refl
  written_read-to_self k u t false es = refl

  clear_up_to_starts_again :
      (u : String) (opt : Option SyncOpt) (known : List Known) (m : Seqs) (k : String) (n : ℕ)
      → lookup k m ≡ some n
      → (clear_up_to env u opt known m).1 ≡ done
      → (written_min k (clear_up_to env u opt known m).0 ≡ some (suc n))
        × (written_read k (clear_up_to env u opt known m).0 ≡ some n)
  unfolding clear_up_to
  clear_up_to_starts_again u opt known m k n at_n h =
      elim (Bool-cases (validate_delete_sync_opt opt).1) [
        | inl other ↦ elim (Result-cases (env.set_mins (get_min_seqs m))) [
          | inr (e, refused) ↦ absurd (ground arith)
          | inl (_, written) ↦
              rw (other, written, clear_up_to)
                (
                  lookup-get_min_seqs k n m at_n,
                  written_read-to_members k u clear_conversation_notification known
                        (user_set_has_read_seqs u m ∷ [])
                      ∙ at_n,
                )
        ]
        | inr own ↦ elim (Result-cases (env.set_user_mins u (get_min_seqs m))) [
          | inr (e, refused) ↦ absurd (ground arith)
          | inl (_, written) ↦
              rw (own, written, clear_up_to)
                (
                  lookup-get_min_seqs k n m at_n,
                  written_read-to_self k u clear_conversation_notification
                        (validate_delete_sync_opt opt).0 (user_set_has_read_seqs u m ∷ [])
                      ∙ at_n,
                )
        ]
      ]

  -- A conversation that is cleared without an error, for its user or for all, starts again right
  -- behind its last message, and counts as read up to that message.
  pub clear_conversation_starts_again :
      (ids : List String) (u : String) (opt : Option SyncOpt) (known : List Known) (m : Seqs)
      (k : String) (n : ℕ)
      → env.get_conversations ids ≡ ok known
      → env.get_max_seqs (map (λ x. x.conversation_id) known) ≡ ok m
      → lookup k m ≡ some n
      → (clear_conversation env ids u opt).1 ≡ done
      → (written_min k (clear_conversation env ids u opt).0 ≡ some (suc n))
        × (written_read k (clear_conversation env ids u opt).0 ≡ some n)
  unfolding clear_conversation
  clear_conversation_starts_again ids u opt known m k n found maxima at_n h =
      let same : clear_conversation env ids u opt ≡ clear_up_to env u opt known m =
        rw (found, maxima, clear_conversation) refl in
      rw same (clear_up_to_starts_again u opt known m k n at_n (ap (λ t. t.1) (sym same) ∙ h))

  -- Only with access to the user's account, and only where the request says that the others are
  -- concerned, does `DeleteMsgs` delete for everybody.
  pub delete_msgs_scope :
      (u conv : String) (ns : List ℕ) (opt : Option SyncOpt)
      → any is_shared (delete_msgs env u conv ns opt).0 ≡ true
      → (check_access_v3 env.actor u ≡ ok tt) × ((validate_delete_sync_opt opt).1 ≡ true)
  unfolding delete_msgs
  delete_msgs_scope u conv ns opt h = elim (Result-cases (check_access_v3 env.actor u)) [
    | inr (e, refused) ↦ absurd (ground arith)
    | inl (_, access) ↦ elim (Bool-cases (validate_delete_sync_opt opt).1) [
      | inl other ↦ (access, other)
      | inr own ↦ absurd (ground arith)
    ]
  ]

  clear_conversation_scope :
      (ids : List String) (u : String) (opt : Option SyncOpt)
      → any is_shared (clear_conversation env ids u opt).0 ≡ true
      → (validate_delete_sync_opt opt).1 ≡ true
  unfolding clear_conversation clear_up_to
  clear_conversation_scope ids u opt h = elim (Bool-cases (validate_delete_sync_opt opt).1) [
    | inl other ↦ other
    | inr own ↦ elim (Bool-cases (validate_delete_sync_opt opt).0) [
      | inl self ↦ absurd (ground arith)
      | inr quiet ↦ absurd (ground arith)
    ]
  ]

  -- ClearConversationsMsg and UserClearAllMsg touch what others see only with access to the user's
  -- account and where the request says that the others are concerned.
  pub clear_scope :
      (ids : List String) (u : String) (opt : Option SyncOpt)
      → (any is_shared (clear_conversations_msg env ids u opt).0 ≡ true)
        ⊎ (any is_shared (user_clear_all_msg env u opt).0 ≡ true)
      → (check_access_v3 env.actor u ≡ ok tt) × ((validate_delete_sync_opt opt).1 ≡ true)
  unfolding clear_conversations_msg user_clear_all_msg
  clear_scope ids u opt h = elim (Result-cases (check_access_v3 env.actor u)) [
    | inr (e, refused) ↦ absurd (ground arith)
    | inl (_, access) ↦ elim (Result-cases (env.get_conversation_ids u)) [
      | inr (e, refused) ↦ (access, ground (arith, clear_conversation_scope ids u opt))
      | inl (all, found) ↦ (
        access,
        ground (arith, clear_conversation_scope ids u opt, clear_conversation_scope all u opt),
      )
    ]
  ]
