-- ===== src/Status.antt =====
-- src/Status.h and src/Status.cc: the status codes and their errno values.
use kvfs_ra_testing.Base.{ℕ, ◌≡◌, refl, Bool, true, false}

-- `STATUS_X` is `x` here, in the order of the values 0 to 30.
pub data Status : Type 0 where
  ok : Status
  unknown_tablet table_doesnt_exist object_doesnt_exist object_exists : Status
  wrong_version no_table_space message_too_short unimplemented_request : Status
  request_format_error response_format_error couldnt_connect : Status
  backup_bad_segment_id backup_open_rejected backup_segment_overflow : Status
  backup_malformed_segment segment_recovery_failed retry service_not_available : Status
  timeout server_not_up internal_error invalid_object tablet_doesnt_exist : Status
  partition_before_read wrong_server caller_not_in_cluster request_too_large : Status
  unknown_indexlet unknown_index invalid_parameter : Status

-- errno.h
abbrev pub enoent : ℕ
enoent = 2

abbrev pub eio : ℕ
eio = 5

abbrev pub eacces : ℕ
eacces = 13

abbrev pub eexist : ℕ
eexist = 17

abbrev pub enotdir : ℕ
enotdir = 20

abbrev pub einval : ℕ
einval = 22

unfoldable pub status_to_errno : Status → ℕ
status_to_errno ok = 0
status_to_errno object_doesnt_exist = enoent
status_to_errno object_exists = eexist
status_to_errno internal_error = eio
status_to_errno invalid_parameter = einval
status_to_errno _ = eio

-- `status == STATUS_OK`
unfoldable pub is_ok : Status → Bool
is_ok ok = true
is_ok _ = false

pub is_ok-ok : (s : Status) → s ≡ ok → is_ok s ≡ true
unfolding is_ok
is_ok-ok s e = rw e refl

pub is_ok-error : (s : Status) → s ≡ internal_error → is_ok s ≡ false
unfolding is_ok
is_ok-error s e = rw e refl
