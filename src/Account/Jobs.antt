-- ===== src/Account/Jobs.antt =====
-- The database jobs of the account service and their results
-- (src/services/account/db/account_auth_job.h, src/db/core/dqs_payloads.h and dqs_results.h).
use new_server.Prelude.{ℕ, min, Bool, false, List, [], map, length, take, if◌then◌else◌}
use new_server.Account.Types.{
  k_character_name_max_len, k_character_list_max_count, CharacterSummary, c_string,
}

abbrev pub k_login_id_max_len : ℕ
k_login_id_max_len = 32

abbrev pub k_login_pw_max_len : ℕ
k_login_pw_max_len = 64

abbrev k_login_session_max_len : ℕ
k_login_session_max_len = 64

abbrev k_auth_fail_reason_max_len : ℕ
k_auth_fail_reason_max_len = 64

pub record AccountAuthRequest : Type 0 where
  pub sid : ℕ
  pub serial : ℕ
  pub trace_id : ℕ
  pub request_id : ℕ
  pub login_id : List ℕ
  pub password : List ℕ

pub record AccountCharacterListRequest : Type 0 where
  pub sid : ℕ
  pub serial : ℕ
  pub trace_id : ℕ
  pub request_id : ℕ
  pub account_id : ℕ

pub data ResultCode : Type 0 where
  success : ResultCode
  db_error : ResultCode
  invalid_data : ResultCode
  conflict : ResultCode

pub record AccountAuthResult : Type 0 where
  pub trace_id : ℕ
  pub sid : ℕ
  pub serial : ℕ
  pub request_id : ℕ
  pub ok : Bool
  pub account_id : ℕ
  pub login_session : List ℕ
  pub fail_reason : List ℕ
  pub result : ResultCode

pub record AccountCharacterListResult : Type 0 where
  pub trace_id : ℕ
  pub sid : ℕ
  pub serial : ℕ
  pub request_id : ℕ
  pub account_id : ℕ
  pub ok : Bool
  pub count : ℕ
  pub fail_reason : List ℕ
  pub characters : List CharacterSummary
  pub result : ResultCode

-- What a query returned, in the fields that are read.
pub record AccountAuthRequestResult : Type 0 where
  pub ok : Bool
  pub account_id : ℕ
  pub fail_reason : List ℕ

pub record AccountCharacterListRequestResult : Type 0 where
  pub ok : Bool
  pub characters : List CharacterSummary
  pub fail_reason : List ℕ

unfoldable pub make_pending_account_auth_result : AccountAuthRequest → AccountAuthResult
make_pending_account_auth_result payload = record {
  trace_id = payload.trace_id;
  sid = payload.sid;
  serial = payload.serial;
  request_id = payload.request_id;
  ok = false;
  account_id = 0;
  login_session = [];
  fail_reason = [];
  result = success;
}

-- The random session token is the last argument.
unfoldable pub apply_account_auth_request_result :
    AccountAuthRequestResult → AccountAuthResult → List ℕ → AccountAuthResult
apply_account_auth_request_result db rr token = record rr {
  ok = db.ok;
  account_id = db.account_id;
  login_session = if db.ok then c_string k_login_session_max_len token else rr.login_session;
  fail_reason = c_string k_auth_fail_reason_max_len db.fail_reason;
}

unfoldable pub set_account_auth_db_error : AccountAuthResult → List ℕ → AccountAuthResult
set_account_auth_db_error rr reason = record rr {
  result = db_error;
  fail_reason = c_string k_auth_fail_reason_max_len reason;
}

unfoldable pub make_pending_account_character_list_result :
    AccountCharacterListRequest → AccountCharacterListResult
make_pending_account_character_list_result payload = record {
  trace_id = payload.trace_id;
  sid = payload.sid;
  serial = payload.serial;
  request_id = payload.request_id;
  account_id = payload.account_id;
  ok = false;
  count = 0;
  fail_reason = [];
  characters = [];
  result = success;
}

unfoldable pub copy_character : CharacterSummary → CharacterSummary
copy_character c = record c { char_name = c_string k_character_name_max_len c.char_name }

unfoldable pub apply_account_character_list_request_result :
    AccountCharacterListRequestResult → AccountCharacterListResult → AccountCharacterListResult
apply_account_character_list_request_result db rr = record rr {
  ok = db.ok;
  count = min (length db.characters) k_character_list_max_count;
  characters = map copy_character (take k_character_list_max_count db.characters);
  fail_reason = c_string k_auth_fail_reason_max_len db.fail_reason;
}

unfoldable pub set_account_character_list_db_error :
    AccountCharacterListResult → List ℕ → AccountCharacterListResult
set_account_character_list_db_error rr reason = record rr {
  result = db_error;
  fail_reason = c_string k_auth_fail_reason_max_len reason;
}
