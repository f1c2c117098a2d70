-- ===== src/Common/Constants.antt =====
-- Protocol constants of pkg/proto/constant/constant.go.
use root_open_im_server.Base.{ℕ, String}

abbrev pub single_chat_type : ℕ
single_chat_type = 1

abbrev pub group_chat_type : ℕ
group_chat_type = 2

abbrev pub super_group_chat_type : ℕ
super_group_chat_type = 3

abbrev pub notification_chat_type : ℕ
notification_chat_type = 4

abbrev pub normal_token : ℕ
normal_token = 0

abbrev pub kicked_token : ℕ
kicked_token = 2

abbrev pub default_not_kick : ℕ
default_not_kick = 0

abbrev pub all_login_but_same_term_kick : ℕ
all_login_but_same_term_kick = 1

abbrev pub pc_and_other : ℕ
pc_and_other = 5

abbrev pub group_owner : ℕ
group_owner = 100

abbrev pub group_admin : ℕ
group_admin = 60

abbrev pub group_ordinary_users : ℕ
group_ordinary_users = 20

abbrev pub im_ordinary_user : ℕ
im_ordinary_user = 0

abbrev pub app_admin : ℕ
app_admin = 2

abbrev pub text : ℕ
text = 101

abbrev pub picture : ℕ
picture = 102

abbrev pub voice : ℕ
voice = 103

abbrev pub video : ℕ
video = 104

abbrev pub file : ℕ
file = 105

abbrev pub at_text : ℕ
at_text = 106

abbrev pub merger : ℕ
merger = 107

abbrev pub card : ℕ
card = 108

abbrev pub location : ℕ
location = 109

abbrev pub custom : ℕ
custom = 110

abbrev pub revoke_type : ℕ
revoke_type = 111

abbrev pub typing : ℕ
typing = 113

abbrev pub quote : ℕ
quote = 114

abbrev pub notification_begin : ℕ
notification_begin = 1000

abbrev pub group_dismissed_notification : ℕ
group_dismissed_notification = 1511

abbrev pub msg_revoke_notification : ℕ
msg_revoke_notification = 2101

abbrev pub clear_conversation_notification : ℕ
clear_conversation_notification = 2101

abbrev pub delete_msgs_notification : ℕ
delete_msgs_notification = 2102

abbrev pub has_read_receipt : ℕ
has_read_receipt = 2200

abbrev pub notification_end : ℕ
notification_end = 5000

abbrev pub user_msg_type : ℕ
user_msg_type = 100

abbrev pub sys_msg_type : ℕ
sys_msg_type = 200

abbrev pub receive_message : ℕ
receive_message = 0

abbrev pub not_receive_message : ℕ
not_receive_message = 1

abbrev pub receive_not_notify_message : ℕ
receive_not_notify_message = 2

abbrev pub group_status_dismissed : ℕ
group_status_dismissed = 2

abbrev pub group_status_muted : ℕ
group_status_muted = 3

abbrev pub super_group : ℕ
super_group = 1

abbrev pub at_me : ℕ
at_me = 1

abbrev pub at_all : ℕ
at_all = 2

abbrev pub at_all_at_me : ℕ
at_all_at_me = 3

abbrev pub at_all_string : String
at_all_string = "AtAllTag"

abbrev pub reaction_message_modifier : ℕ
reaction_message_modifier = 121

abbrev pub reaction_message_deleter : ℕ
reaction_message_deleter = 122

abbrev pub group_ok : ℕ
group_ok = 0

abbrev pub working_group : ℕ
working_group = 2

abbrev pub all_need_verification : ℕ
all_need_verification = 1

abbrev pub directly : ℕ
directly = 2

abbrev pub join_by_invitation : ℕ
join_by_invitation = 2

abbrev pub group_notification : ℕ
group_notification = 4
