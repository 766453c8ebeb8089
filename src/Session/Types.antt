-- ===== src/Session/Types.antt =====
-- src/services/world/runtime/i_world_runtime.h: the enums and result structures of the sessions.
use new_server.Prelude.{ℕ, Bool, not, List, [], ◌==◌, nat_eq, bytes_eq}

pub record WorldAuthedSession : Type 0 where
  pub account_id : ℕ
  pub char_id : ℕ
  pub sid : ℕ
  pub serial : ℕ
  pub reconnect_token : List ℕ

-- `WorldAuthedSession{}`
abbrev pub no_session : WorldAuthedSession
no_session = record { account_id = 0; char_id = 0; sid = 0; serial = 0; reconnect_token = [] }

pub data WorldEnterStage : Type 0 where
  none enter_pending in_world closing : WorldEnterStage

pub data BeginEnterWorldSessionResultKind : Type 0 where
  invalid_input started already_pending already_in_world closing : BeginEnterWorldSessionResultKind

pub record BeginEnterWorldSessionResult : Type 0 where
  pub kind : BeginEnterWorldSessionResultKind
  pub stage : WorldEnterStage

pub data BindAuthedWorldSessionResultKind : Type 0 where
  invalid_input inserted replaced_char_session replaced_account_session replaced_both
        already_bound_same_session :
      BindAuthedWorldSessionResultKind

pub data UnbindAuthedWorldSessionResultKind : Type 0 where
  invalid_input not_found_by_sid serial_mismatch removed : UnbindAuthedWorldSessionResultKind

pub data DuplicateSessionCause : Type 0 where
  none duplicate_char_session duplicate_account_session duplicate_char_and_account_session :
      DuplicateSessionCause

pub data SessionKickStatCategory : Type 0 where
  none duplicate_char duplicate_account duplicate_both duplicate_deduplicated_same_session other :
      SessionKickStatCategory

pub data WorldSessionCloseReason : Type 0 where
  none network_disconnect explicit_soft_logout explicit_hard_logout duplicate_kick server_shutdown :
      WorldSessionCloseReason

pub record BindAuthedWorldSessionResult : Type 0 where
  pub kind : BindAuthedWorldSessionResultKind
  pub duplicate_cause : DuplicateSessionCause
  pub current_session : WorldAuthedSession
  pub old_char_session : WorldAuthedSession
  pub old_account_session : WorldAuthedSession

abbrev pub has_old_char_session : BindAuthedWorldSessionResult → Bool
has_old_char_session r = not (r.old_char_session.sid == 0)

abbrev pub has_old_account_session : BindAuthedWorldSessionResult → Bool
has_old_account_session r = not (r.old_account_session.sid == 0)

pub record UnbindAuthedWorldSessionResult : Type 0 where
  pub kind : UnbindAuthedWorldSessionResultKind
  pub session : WorldAuthedSession
