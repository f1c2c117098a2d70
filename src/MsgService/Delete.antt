-- ===== src/MsgService/Delete.antt =====
-- Deleting and clearing, internal/rpc/msg/delete.go. The message database, the conversation service
-- and the notifications answer through `Deletion`; the calls that change something are effects, in
-- the order of the code, also where the call fails. A notification's failure is not looked at.
pub mod Laws
use root_open_im_server.Base.{
  ℕ, suc, String, Bool, true, false, not, List, [], ◌∷◌, ◌++◌, map, Option, none, some,
  if◌then◌else◌,
}
use root_open_im_server.Base.Int.{ℤ, subtract}
use root_open_im_server.Base.Result.{Result, ok, err}
use root_open_im_server.Common.Errors.{Error}
use root_open_im_server.Common.Access.{Actor, check_access_v3, check_admin}
use root_open_im_server.Common.Constants.{
  single_chat_type, delete_msgs_notification, clear_conversation_notification,
}
use root_open_im_server.MsgService.Read.{Conversation, conversation_and_get_recv_id}

abbrev pub Seqs : Type 0
Seqs = List (String × ℕ)

pub data Effect : Type 0 where
  delete_msgs_physical_by_seqs : String → List ℕ → Effect
  delete_user_msgs_by_seqs : String → String → List ℕ → Effect
  -- Conversation and remaining time, in seconds.
  delete_conversation_msgs_and_set_min_seq : String → ℤ → Effect
  set_user_conversations_min_seqs : String → Seqs → Effect
  set_min_seqs : Seqs → Effect
  user_set_has_read_seqs : String → Seqs → Effect
  -- Sender, receiver, content type, session type.
  notify : String → String → ℕ → ℕ → Effect

pub data Outcome : Type 0 where
  done : Outcome
  failed : Error → Outcome
  panicked : Outcome

-- `DeleteSyncOpt`.
pub record SyncOpt : Type 0 where
  pub is_sync_self : Bool
  pub is_sync_other : Bool

-- A conversation with its id.
pub record Known : Type 0 where
  pub conversation_id : String
  pub conversation : Conversation

pub record Deletion : Type 0 where
  pub actor : Actor
  -- `GetCurrentTimestampBySecond`.
  pub now : ℕ
  pub delete_physical : String → List ℕ → Result Error (Unit {0})
  pub delete_user : String → String → List ℕ → Result Error (Unit {0})
  pub set_user_mins : String → Seqs → Result Error (Unit {0})
  pub set_mins : Seqs → Result Error (Unit {0})
  pub set_reads : String → Seqs → Result Error (Unit {0})
  pub get_conversations : List String → Result Error (List Known)
  pub get_conversation_ids : String → Result Error (List String)
  pub get_max_seqs : List String → Result Error Seqs

-- The messages to come start behind the last one.
unfoldable pub get_min_seqs : Seqs → Seqs
get_min_seqs [] = []
get_min_seqs ((k, v) ∷ m) = (k, suc v) ∷ get_min_seqs m

-- Whether the user's other clients, and whether the other users are concerned.
unfoldable pub validate_delete_sync_opt : Option SyncOpt → Bool × Bool
validate_delete_sync_opt none = (false, false)
validate_delete_sync_opt (some opt) = (opt.is_sync_self, opt.is_sync_other)

abbrev pub outcome_of : Result Error (Unit {0}) → Outcome
outcome_of (ok _) = done
outcome_of (err e) = failed e

module _ (env : Deletion) where
  -- One call, and what follows where it succeeds.
  abbrev pub call : Effect → Result Error (Unit {0}) → List Effect × Outcome → List Effect × Outcome
  call effect (ok _) rest = let (effects, outcome) = rest in (effect ∷ effects, outcome)
  call effect (err e) rest = (effect ∷ [], failed e)

  abbrev pub to_members : String → ℕ → List Known → List Effect
  to_members user_id content_type [] = []
  to_members user_id content_type (k ∷ ks) =
      notify user_id (conversation_and_get_recv_id k.conversation user_id) content_type
        k.conversation.conversation_type
      ∷ to_members user_id content_type ks

  abbrev pub to_self : Bool → String → ℕ → List Effect
  to_self true user_id content_type = notify user_id user_id content_type single_chat_type ∷ []
  to_self false user_id content_type = []

  -- The end of `clearConversation`.
  abbrev pub mark_read : String → Seqs → List Effect → List Effect × Outcome
  mark_read user_id max_seqs notices = (
    notices ++ user_set_has_read_seqs user_id max_seqs ∷ [],
    outcome_of (env.set_reads user_id max_seqs),
  )

  unfoldable pub clear_up_to : String → Option SyncOpt → List Known → Seqs → List Effect × Outcome
  clear_up_to user_id opt known max_seqs =
      let (is_sync_self, is_sync_other) = validate_delete_sync_opt opt in
      let mins = get_min_seqs max_seqs in
      if not is_sync_other
      then call (set_user_conversations_min_seqs user_id mins) (env.set_user_mins user_id mins) (
          mark_read user_id max_seqs (to_self is_sync_self user_id clear_conversation_notification))
      else call (set_min_seqs mins) (env.set_mins mins)
          (mark_read user_id max_seqs (to_members user_id clear_conversation_notification known))

  unfoldable pub clear_conversation : List String → String → Option SyncOpt → List Effect × Outcome
  clear_conversation conversation_ids user_id opt = elim (env.get_conversations conversation_ids) [
    | err e ↦ ([], failed e)
    | ok known ↦ elim (env.get_max_seqs (map (λ k. k.conversation_id) known)) [
      | err e ↦ ([], failed e)
      | ok max_seqs ↦ clear_up_to user_id opt known max_seqs
    ]
  ]

  unfoldable pub clear_conversations_msg :
      List String → String → Option SyncOpt → List Effect × Outcome
  clear_conversations_msg conversation_ids user_id opt = elim (check_access_v3 env.actor user_id) [
    | err e ↦ ([], failed e)
    | ok _ ↦ clear_conversation conversation_ids user_id opt
  ]

  unfoldable pub user_clear_all_msg : String → Option SyncOpt → List Effect × Outcome
  user_clear_all_msg user_id opt = elim (check_access_v3 env.actor user_id) [
    | err e ↦ ([], failed e)
    | ok _ ↦ elim (env.get_conversation_ids user_id) [
      | err e ↦ ([], failed e)
      | ok conversation_ids ↦ clear_conversation conversation_ids user_id opt
    ]
  ]

  -- `conversations[0]` of an empty answer is out of range.
  abbrev pub tell_first : String → Result Error (List Known) → List Effect × Outcome
  tell_first user_id (err e) = ([], failed e)
  tell_first user_id (ok []) = ([], panicked)
  tell_first user_id (ok (k ∷ ks)) = (to_members user_id delete_msgs_notification (k ∷ []), done)

  unfoldable pub delete_msgs : String → String → List ℕ → Option SyncOpt → List Effect × Outcome
  delete_msgs user_id conversation_id seqs opt =
      let (is_sync_self, is_sync_other) = validate_delete_sync_opt opt in
      elim (check_access_v3 env.actor user_id) [
        | err e ↦ ([], failed e)
        | ok _ ↦
            if is_sync_other
            then call (delete_msgs_physical_by_seqs conversation_id seqs)
                (env.delete_physical conversation_id seqs)
                (tell_first user_id (env.get_conversations (conversation_id ∷ [])))
            else call (delete_user_msgs_by_seqs user_id conversation_id seqs)
                (env.delete_user user_id conversation_id seqs)
                (to_self is_sync_self user_id delete_msgs_notification, done)
      ]

  -- No access is checked here.
  unfoldable pub delete_msg_physical_by_seq : String → List ℕ → List Effect × Outcome
  delete_msg_physical_by_seq conversation_id seqs = (
    delete_msgs_physical_by_seqs conversation_id seqs ∷ [],
    outcome_of (env.delete_physical conversation_id seqs),
  )

  -- What is older than the timestamp goes. Failures are only logged.
  unfoldable pub delete_msg_physical : List String → ℤ → List Effect × Outcome
  delete_msg_physical conversation_ids timestamp = elim (check_admin env.actor) [
    | err e ↦ ([], failed e)
    | ok _ ↦ (
      map (λ c. delete_conversation_msgs_and_set_min_seq c (subtract env.now timestamp))
          conversation_ids,
      done,
    )
  ]
