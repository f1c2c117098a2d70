-- ===== src/MsgProcessor/Ids.antt =====
-- Conversation ids, pkg/msgprocessor/conversation.go.
pub mod Laws
pub mod Split
use Prim.Native.Nat.{Ordering}
use Prim.Native.Char.{Char, code}
use Prim.Native.String.{compare, ◌++◌}
use text.Mathlib.Text.{starts_with}
use root_open_im_server.Base.{
  ℕ, ◌≤◌, String, Bool, true, false, not, List, [], ◌∷◌, ◌==◌, if◌then◌else◌, length, ltb, ◌||◌,
}
use root_open_im_server.Common.Constants.{
  single_chat_type, group_chat_type, super_group_chat_type, notification_chat_type,
}
use root_open_im_server.MsgStore.Doc.{MsgData}
use root_open_im_server.MsgProcessor.Options.{is_not_notification}

-- `sort.Strings`, as insertion into a sorted list.
abbrev pub insert_sorted : String → List String → List String
insert_sorted s [] = s ∷ []
insert_sorted s (t ∷ ts) = elim (compare s t) [
  | Ordering.gt ↦ t ∷ insert_sorted s ts
  | _ ↦ s ∷ t ∷ ts
]

abbrev pub sort_strings : List String → List String
sort_strings [] = []
sort_strings (s ∷ ss) = insert_sorted s (sort_strings ss)

-- `strings.Join(l, "_")`.
abbrev pub join : List String → String
join [] = ""
join (s ∷ []) = s
join (s ∷ t ∷ ts) = s ++ ("_" ++ join (t ∷ ts))

abbrev pub sorted_pair : MsgData → String
sorted_pair m = join (sort_strings (m.send_id ∷ m.recv_id ∷ []))

unfoldable pub get_notification_conversation_id_by_msg : MsgData → String
get_notification_conversation_id_by_msg m =
    if m.session_type == single_chat_type
    then "n_" ++ sorted_pair m
    else if m.session_type == group_chat_type
    then "n_" ++ m.group_id
    else if m.session_type == super_group_chat_type
    then "n_" ++ m.group_id
    else if m.session_type == notification_chat_type
    then "n_" ++ (m.send_id ++ ("_" ++ m.recv_id))
    else ""

unfoldable pub get_chat_conversation_id_by_msg : MsgData → String
get_chat_conversation_id_by_msg m =
    if m.session_type == single_chat_type
    then "si_" ++ sorted_pair m
    else if m.session_type == group_chat_type
    then "g_" ++ m.group_id
    else if m.session_type == super_group_chat_type
    then "sg_" ++ m.group_id
    else if m.session_type == notification_chat_type
    then "sn_" ++ (m.send_id ++ ("_" ++ m.recv_id))
    else ""

unfoldable pub gen_conversation_unique_key : MsgData → String
gen_conversation_unique_key m =
    if m.session_type == single_chat_type || m.session_type == notification_chat_type
    then sorted_pair m
    else if m.session_type == super_group_chat_type
    then m.group_id
    else ""

unfoldable pub get_conversation_id_by_msg : MsgData → String
get_conversation_id_by_msg m =
    let chat = is_not_notification m.options in
    if m.session_type == single_chat_type
    then (if not chat then "n_" ++ sorted_pair m else "si_" ++ sorted_pair m)
    else if m.session_type == group_chat_type
    then (if not chat then "n_" ++ m.group_id else "g_" ++ m.group_id)
    else if m.session_type == super_group_chat_type
    then (if not chat then "n_" ++ m.group_id else "sg_" ++ m.group_id)
    else if m.session_type == notification_chat_type
    then (if not chat
        then "n_" ++ (m.send_id ++ ("_" ++ m.recv_id))
        else "sn_" ++ (m.send_id ++ ("_" ++ m.recv_id)))
    else ""

-- `ids[0]` of a list with one or two entries.
abbrev pub first : List String → String
first [] = ""
first (s ∷ ss) = s

unfoldable pub get_conversation_id_by_session_type : ℕ → List String → String
get_conversation_id_by_session_type session_type ids =
    let sorted = sort_strings ids in
    if ltb 2 (length ids) || ltb (length ids) 1
    then ""
    else if session_type == single_chat_type
    then "si_" ++ join sorted
    else if session_type == group_chat_type
    then "g_" ++ first sorted
    else if session_type == super_group_chat_type
    then "sg_" ++ first sorted
    else if session_type == notification_chat_type
    then "sn_" ++ first sorted
    else ""

-- `strings.Split(s, "_")`.
abbrev pub onto_first : Char → List String → List String
onto_first c [] = []
onto_first c (s ∷ ss) = String.◌∷◌ c s ∷ ss

abbrev pub split : String → List String
split String.[] = "" ∷ []
split (String.◌∷◌ c s) =
    let rest = split s in if code c == b'_' then "" ∷ rest else onto_first c rest

abbrev pub with_notification_prefix : List String → String
with_notification_prefix [] = ""
with_notification_prefix (s ∷ []) = ""
with_notification_prefix (s ∷ t ∷ ts) = join ("n" ∷ t ∷ ts)

unfoldable pub get_notification_conversation_id_by_conversation_id : String → String
get_notification_conversation_id_by_conversation_id conversation_id =
    with_notification_prefix (split conversation_id)

unfoldable pub get_notification_conversation_id : ℕ → List String → String
get_notification_conversation_id session_type ids =
    let sorted = sort_strings ids in
    if ltb 2 (length ids) || ltb (length ids) 1
    then ""
    else if session_type == single_chat_type
    then "n_" ++ join sorted
    else if session_type == super_group_chat_type
    then "n_" ++ first sorted
    else ""

unfoldable pub is_notification : String → Bool
is_notification conversation_id = starts_with conversation_id "n_"

unfoldable pub is_notification_by_msg : MsgData → Bool
is_notification_by_msg m = not (is_not_notification m.options)

unfoldable pub parse_conversation_id : MsgData → Bool × String
parse_conversation_id m =
    let chat = is_not_notification m.options in
    if m.session_type == single_chat_type
    then (if not chat then (true, "n_" ++ sorted_pair m) else (false, "si_" ++ sorted_pair m))
    else if m.session_type == super_group_chat_type
    then (if not chat then (true, "n_" ++ m.group_id) else (false, "sg_" ++ m.group_id))
    else if m.session_type == notification_chat_type
    then (if not chat
        then (true, "n_" ++ (m.send_id ++ ("_" ++ m.recv_id)))
        else (false, "sn_" ++ (m.send_id ++ ("_" ++ m.recv_id))))
    else (false, "")
