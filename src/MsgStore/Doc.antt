-- ===== src/MsgStore/Doc.antt =====
-- The documents that hold a conversation's messages, pkg/common/db/table/unrelation/msg.go: message
-- `seq` lies in slot (seq - 1) % 100 of the document numbered (seq - 1) / 100. Sequence numbers
-- start at 1; at 0 the code's slot would be -1, which the statements below exclude.
use root_open_im_server.Base.{
  ℕ, ◌-◌, ◌/◌, ◌%◌, String, Bool, false, List, [], ◌∷◌, ◌++◌, Option, none, some,
}
use root_open_im_server.Base.Dict.{lookup, insert}
use Prim.Native.String.{◌++◌ as append_text}

pub record OfflinePush : Type 0 where
  pub title : String
  pub desc : String
  pub ex : String
  pub ios_push_sound : String
  pub ios_badge_count : Bool

pub record MsgData : Type 0 where
  pub send_id : String
  pub recv_id : String
  pub group_id : String
  pub client_msg_id : String
  pub server_msg_id : String
  pub sender_platform_id : ℕ
  pub sender_nickname : String
  pub sender_face_url : String
  pub session_type : ℕ
  pub msg_from : ℕ
  pub content_type : ℕ
  pub content : String
  pub seq : ℕ
  pub send_time : ℕ
  pub create_time : ℕ
  pub status : ℕ
  pub is_read : Bool
  pub options : List (String × Bool)
  pub offline_push : Option OfflinePush
  pub at_user_id_list : List String
  pub attached_info : String
  pub ex : String

pub record Revoke : Type 0 where
  pub role : ℕ
  pub user_id : String
  pub nickname : String
  pub time : ℕ

-- `MsgInfoModel`.
pub record MsgInfo : Type 0 where
  pub msg : Option MsgData
  pub revoke : Option Revoke
  pub del_list : List String
  pub is_read : Bool

-- `MsgInfoModel{}`, with `DelList` made an empty list.
abbrev pub empty_info : MsgInfo
empty_info = record { msg = none; revoke = none; del_list = []; is_read = false }

abbrev pub single_goc_msg_num : ℕ
single_goc_msg_num = 100

-- `format_int` is `strconv.FormatInt(n, 10)`.
module _ (format_int : ℕ → String) where
  abbrev pub index_gen : String → ℕ → String
  index_gen conversation_id seq_suffix =
      append_text conversation_id (append_text ":" (format_int seq_suffix))

  unfoldable pub get_doc_id : String → ℕ → String
  get_doc_id conversation_id seq = index_gen conversation_id ((seq - 1) / single_goc_msg_num)

  abbrev add_seq : String → ℕ → List (String × List ℕ) → List (String × List ℕ)
  add_seq doc_id seq t = elim (lookup doc_id t) [
    | none ↦ insert doc_id (seq ∷ []) t
    | some value ↦ insert doc_id (value ++ seq ∷ []) t
  ]

  abbrev group_seqs : String → List (String × List ℕ) → List ℕ → List (String × List ℕ)
  group_seqs conversation_id t [] = t
  group_seqs conversation_id t (seq ∷ seqs) =
      group_seqs conversation_id (add_seq (get_doc_id conversation_id seq) seq t) seqs

  unfoldable pub get_doc_id_seqs_map : String → List ℕ → List (String × List ℕ)
  get_doc_id_seqs_map conversation_id seqs = group_seqs conversation_id [] seqs

unfoldable pub get_msg_index : ℕ → ℕ
get_msg_index seq = (seq - 1) % single_goc_msg_num
