-- ===== src/MsgProcessor/Ids/Laws.antt =====
-- How the conversation ids of a message agree with one another.
use Prim.Native.Nat.{Ordering, compare as compare_nat}
use Prim.Native.Char.{Char, code}
use Prim.Native.String.{compare, then as cmp_then, ◌++◌}
use Prim.Native.String.compare as string_compare
use text.Mathlib.Text.{starts_with}
use text.Mathlib.TextEquality.{starts_with_iff, path_by_compare}
use text.Mathlib.TextLemmas.{head-eq_of_cons-eq, cons-append}
use root_open_im_server.Base.{
  ℕ, String, true, false, if◌then◌else◌, ◌≡◌, ◌≢◌, ◌⊎◌, refl, sym, ap, ◌∙◌, arith, Bool-cases, inl,
  inr,
}
use root_open_im_server.Common.Constants.{
  single_chat_type, group_chat_type, super_group_chat_type, notification_chat_type,
}
use root_open_im_server.MsgStore.Doc.{MsgData}
use root_open_im_server.MsgProcessor.Ids.{
  sorted_pair, get_notification_conversation_id_by_msg, get_chat_conversation_id_by_msg,
  get_conversation_id_by_msg, is_notification, is_notification_by_msg, parse_conversation_id,
}

flip : Ordering → Ordering
flip Ordering.lt = Ordering.gt
flip Ordering.eq = Ordering.eq
flip Ordering.gt = Ordering.lt

flip-cmp_then : (o p : Ordering) → flip (cmp_then o p) ≡ cmp_then (flip o) (flip p)
unfolding flip
flip-cmp_then o p = ground arith

compare_nat_swap : (a b : ℕ) → compare_nat b a ≡ flip (compare_nat a b)
unfolding flip
compare_nat_swap a b = ground arith

compare_swap : (s t : String) → compare t s ≡ flip (compare s t)
unfolding flip
compare_swap String.[] String.[] = refl
compare_swap String.[] (String.◌∷◌ d t) =
    rw (string_compare.cons-nil d t, string_compare.nil-cons d t)
compare_swap (String.◌∷◌ c s) String.[] =
    rw (string_compare.cons-nil c s, string_compare.nil-cons c s)
compare_swap (String.◌∷◌ c s) (String.◌∷◌ d t) =
    rw
      (
        string_compare.cons-cons c d s t,
        string_compare.cons-cons d c t s,
        compare_swap s t,
        compare_nat_swap (code c) (code d),
      )
      (sym (flip-cmp_then _ _))

-- The same session, the other way.
abbrev pub reply : MsgData → MsgData
reply m = record m { send_id = m.recv_id; recv_id = m.send_id }

sorted_pair-reply : (m : MsgData) → sorted_pair (reply m) ≡ sorted_pair m
unfolding flip
sorted_pair-reply m =
    ground (arith, compare_swap m.send_id m.recv_id, path_by_compare m.send_id m.recv_id)

not_n : (c : Char) (s : String) → code c ≢ b'n' → starts_with (String.◌∷◌ c s) "n_" ≡ false
not_n c s h = elim (Bool-cases (starts_with (String.◌∷◌ c s) "n_")) [
  | inr no_prefix ↦ no_prefix
  | inl prefix ↦
      let (u, e) = (starts_with_iff (String.◌∷◌ c s) "n_").0 prefix in
      absurd (h (sym (ap code (head-eq_of_cons-eq (sym (cons-append "n" "_" u) ∙ e)))))
]

starts_with-append : (t s : String) → starts_with (t ++ s) t ≡ true
starts_with-append t s = (starts_with_iff (t ++ s) t).1 (s, refl)

-- An id with another prefix is no notification's.
prefix_not_n :
    (c : Char) (t s : String) → code c ≢ b'n' → starts_with (String.◌∷◌ c t ++ s) "n_" ≡ false
prefix_not_n c t s h = rw (cons-append c t s) (not_n c (t ++ s) h)

-- Between two users the conversation is the same in both directions, for chats and notifications.
pub get_conversation_id_by_msg-reply :
    (m : MsgData)
    → m.session_type ≡ single_chat_type
    → get_conversation_id_by_msg (reply m) ≡ get_conversation_id_by_msg m
unfolding get_conversation_id_by_msg
get_conversation_id_by_msg-reply m h = rw (sorted_pair-reply m) (ground arith)

-- The conversation id of a message is the id of its chat or of its notifications, as its option
-- says, for every session type.
pub get_conversation_id_by_msg_cases :
    (m : MsgData)
    → get_conversation_id_by_msg m ≡ (
        if is_notification_by_msg m
        then get_notification_conversation_id_by_msg m
        else get_chat_conversation_id_by_msg m)
unfolding get_conversation_id_by_msg get_notification_conversation_id_by_msg
    get_chat_conversation_id_by_msg is_notification_by_msg
get_conversation_id_by_msg_cases m = ground arith

abbrev pub IsSession : ℕ → Type 0
IsSession t =
    (t ≡ single_chat_type)
    ⊎ (t ≡ group_chat_type)
    ⊎ (t ≡ super_group_chat_type)
    ⊎ (t ≡ notification_chat_type)

-- The id alone tells a notification from a chat: it starts with "n_" exactly if the message's
-- option says that it is a notification.
pub is_notification-get_conversation_id_by_msg :
    (m : MsgData)
    → IsSession m.session_type
    → is_notification (get_conversation_id_by_msg m) ≡ is_notification_by_msg m
unfolding get_conversation_id_by_msg is_notification is_notification_by_msg
is_notification-get_conversation_id_by_msg m h =
    let pair = sorted_pair m in
    let direction = m.send_id ++ ("_" ++ m.recv_id) in
    ground (
      arith,
      starts_with-append "n_" pair,
      starts_with-append "n_" m.group_id,
      starts_with-append "n_" direction,
      prefix_not_n "s" "i_" pair (λ e. omega arith),
      prefix_not_n "g" "_" m.group_id (λ e. omega arith),
      prefix_not_n "s" "g_" m.group_id (λ e. omega arith),
      prefix_not_n "s" "n_" direction (λ e. omega arith),
    )

-- `ParseConversationID` gives the flag and the id of the two other functions, for every session
-- type but the old group chat, which it does not know.
pub parse_conversation_id_lem :
    (m : MsgData)
    → (m.session_type ≡ single_chat_type)
      ⊎ (m.session_type ≡ super_group_chat_type)
      ⊎ (m.session_type ≡ notification_chat_type)
    → parse_conversation_id m ≡ (is_notification_by_msg m, get_conversation_id_by_msg m)
unfolding parse_conversation_id get_conversation_id_by_msg is_notification_by_msg
parse_conversation_id_lem m h = ground arith
