-- ===== src/MsgStore/Sequence/Numbers.antt =====
-- The numbers that a batch gets.
use root_open_im_server.Base.{
  Option-cases, Bool-cases, ltb→lt, ltb, ℕ, zero, suc, ◌+◌, ◌≤◌, ◌<◌, String, Bool, true, false,
  List, [], ◌∷◌, Option, none, some, if◌then◌else◌, length, get_elem?, str_eq, ◌≡◌, refl, arith,
  inl, inr, ◌⊎◌,
}
use root_open_im_server.Base.Dict.{lookup, insert, lookup-insert}
use root_open_im_server.Base.Result.{ok, err, Result-cases}
use root_open_im_server.Common.Errors.{Error, dependency}
use root_open_im_server.MsgStore.Doc.{MsgData}
use root_open_im_server.MsgStore.Sequence.{
  SeqCache, Batch, number, user_seqs, insert_batch, batch_insert_chat2cache, batch_insert_in_place,
  accepted, too_large, insert_known, refused,
}

get_elem?-number :
    (ms : List MsgData) (k n : ℕ) (m : MsgData)
    → get_elem? ms k ≡ some m
    → get_elem? (number n ms) k ≡ some (record m { seq = n + k + 1 })
unfolding number
get_elem?-number [] k n m h = ground arith
get_elem?-number (x ∷ ms) zero n m h = ground arith
get_elem?-number (x ∷ ms) (suc k) n m h = ground (arith, get_elem?-number ms k (n + 1) m)

pub length-number : (ms : List MsgData) (n : ℕ) → length (number n ms) ≡ length ms
unfolding number
length-number [] n = refl
length-number (m ∷ ms) n = omega (arith, length-number ms (n + 1))

-- The last number of a sender among the messages of a batch.
abbrev pub last_seq_of : String → List MsgData → Option ℕ
last_seq_of u [] = none
last_seq_of u (m ∷ ms) = elim (last_seq_of u ms) [
  | some n ↦ some n
  | none ↦ if str_eq m.send_id u then some m.seq else none
]

abbrev or_else : Option ℕ → Option ℕ → Option ℕ
or_else (some n) d = some n
or_else none d = d

lookup-user_seqs :
    (u : String) (ms : List MsgData) (t : List (String × ℕ))
    → lookup u (user_seqs t ms) ≡ or_else (last_seq_of u ms) (lookup u t)
unfolding user_seqs
lookup-user_seqs u [] t = refl
lookup-user_seqs u (m ∷ ms) t =
    ground
      (arith, lookup-user_seqs u ms (insert m.send_id m.seq t), lookup-insert m.send_id u m.seq t)

-- What the batch's senders have read: each has read up to the last of its own messages, and
-- nobody else is in the map.
pub lookup-user_seqs_nil :
    (u : String) (ms : List MsgData) → lookup u (user_seqs [] ms) ≡ last_seq_of u ms
lookup-user_seqs_nil u ms = ground (arith, lookup-user_seqs u ms [])

module _ (c : SeqCache) (conv : String) (msgs : List MsgData) (s : c.State) where
  insert_batch_ok :
      (last : ℕ) (is_new : Bool) (b : Batch)
      → (accepted c (insert_batch c conv last is_new msgs s)).1 ≡ ok b
      → (b.last_max_seq ≡ last) × (b.is_new ≡ is_new) × (b.msgs ≡ number last msgs)
  unfolding insert_batch
  insert_batch_ok last is_new b h = ground arith

  -- A batch that is accepted has 1 to 100 messages. They keep their order, and the k-th message
  -- gets the number last_max_seq + k + 1, where last_max_seq is the stored maximum, or 0 in a new
  -- conversation.
  pub batch_insert_chat2cache_numbers :
      (b : Batch) (k : ℕ) (m : MsgData)
      → (batch_insert_chat2cache c conv msgs s).1 ≡ ok b
      → get_elem? msgs k ≡ some m
      → (1 ≤ length msgs)
        × (length msgs ≤ 100)
        × (length b.msgs ≡ length msgs)
        × (get_elem? b.msgs k ≡ some (record m { seq = b.last_max_seq + k + 1 }))
        × (((b.is_new ≡ true) × (b.last_max_seq ≡ 0) × (c.get_max_seq s conv ≡ ok none))
            ⊎ ((b.is_new ≡ false) × (c.get_max_seq s conv ≡ ok (some b.last_max_seq))))
  unfolding batch_insert_chat2cache batch_insert_in_place
  batch_insert_chat2cache_numbers b k m h e = elim (Result-cases (c.get_max_seq s conv)) [
    | inr (x, failed) ↦ absurd (ground arith)
    | inl (none, absent) ↦
        ground (arith, insert_batch_ok 0 true b, length-number msgs 0, get_elem?-number msgs k 0 m)
    | inl (some n, present) ↦
        ground (arith, insert_batch_ok n false b, length-number msgs n, get_elem?-number msgs k n m)
  ]

  -- Where the maximum was not stored.
  abbrev pub StoreFailed : Error → Type 0
  StoreFailed e = (t : c.State) × (n : ℕ) × ((c.set_max_seq t conv n).1 ≡ some e)

  -- Why messages are refused: the maximum cannot be read, or there are too many of them or none.
  abbrev pub Refuses : Error → Type 0
  Refuses e =
      (c.get_max_seq s conv ≡ err e) ⊎ ((100 < length msgs) × (e ≡ too_large)) ⊎ (length msgs ≡ 0)

  -- The messages are refused, or numbered, also where the store then fails.
  abbrev pub IsAnswer : c.State × Batch × Option Error → Type 0
  IsAnswer (t, b, failure) =
      ((e : Error) × (failure ≡ some e) × Refuses e)
      ⊎ ((b.msgs ≡ number b.last_max_seq msgs)
          × ((failure ≡ none) ⊎ ((e : Error) × (failure ≡ some e) × StoreFailed e)))

  insert_batch-IsAnswer :
      (last : ℕ) (is_new : Bool) → IsAnswer (insert_batch c conv last is_new msgs s)
  unfolding insert_batch
  insert_batch-IsAnswer last is_new =
      let stored =
        c.set_max_seq (c.set_message_to_cache s conv (number last msgs)).0 conv
          (last + length msgs) in
      elim (Option-cases stored.1) [
        | inl healthy ↦ inr (refl, inl healthy)
        | inr (e, broken) ↦ inr (refl, inr (e, broken, (_, _, broken)))
      ]

  insert_known-IsAnswer : (current : Option ℕ) → IsAnswer (insert_known c conv msgs s current)
  insert_known-IsAnswer none = insert_batch-IsAnswer 0 true
  insert_known-IsAnswer (some n) = insert_batch-IsAnswer n false

  -- What a call comes to, once the maximum is read.
  in_place-unread :
      (e : Error)
      → c.get_max_seq s conv ≡ err e
      → batch_insert_in_place c conv msgs s ≡ refused c msgs s e
  unfolding batch_insert_in_place
  in_place-unread e failed = rw (failed, batch_insert_in_place) refl

  in_place-read :
      (current : Option ℕ)
      → c.get_max_seq s conv ≡ ok current
      → batch_insert_in_place c conv msgs s ≡ (
          if ltb 100 (length msgs)
          then refused c msgs s too_large
          else if ltb (length msgs) 1
          then refused c msgs s (dependency "too short as 0")
          else insert_known c conv msgs s current)
  unfolding batch_insert_in_place
  in_place-read current present = rw (present, batch_insert_in_place) refl

  pub batch_insert_in_place-IsAnswer : IsAnswer (batch_insert_in_place c conv msgs s)
  batch_insert_in_place-IsAnswer = elim (Result-cases (c.get_max_seq s conv)) [
    | inr (x, failed) ↦ rw (in_place-unread x failed) (inl (x, refl, inl failed))
    | inl (current, present) ↦
        rw (in_place-read current present) (elim (Bool-cases (ltb 100 (length msgs))) [
          | inl large ↦ rw large (inl (_, refl, inr (inl (ltb→lt _ _ large, refl))))
          | inr small ↦ rw small (elim (Bool-cases (ltb (length msgs) 1)) [
            | inl short ↦ rw short (inl (_, refl, inr (inr (ground (arith, ltb→lt _ _ short)))))
            | inr enough ↦ rw enough (insert_known-IsAnswer current)
          ])
        ])
  ]
