-- ===== src/Common/Errors.antt =====
-- The error values of pkg/tools/errs/predefine.go that the modelled code returns.
use root_open_im_server.Base.{String, Bool, true, false}

pub data Error : Type 0 where
  args no_permission internal_server network : Error
  record_not_found not_in_group_yet dismissed_already : Error
  group_type_not_support group_request_handled : Error
  token_invalid token_unknown token_kicked token_not_exist : Error
  blocked_by_peer not_peers_friend relationship_already can_not_add_yourself : Error
  muted_in_group muted_group msg_already_revoke message_has_read_disable : Error
  conn_over_max_num_limit conn_args_err send_msg_limit : Error
  msg_sensitive_word_failed : Error
  group_id_existed user_id_not_found data_error : Error
  -- An error without a code, and one that a dependency (database, cache, remote service, token library) returned.
  dependency : String → Error

-- `errs.ErrRecordNotFound.Is(err)`.
abbrev pub is_record_not_found : Error → Bool
is_record_not_found record_not_found = true
is_record_not_found _ = false
