-- ===== src/Session/Tables/Same.antt =====
-- Two states with the same sessions and reverse indexes.
use new_server.Prelude.{ℕ, ◌≡◌, refl, sym, ap, ◌∙◌, Option, none, some}
use new_server.Session.Types.{WorldAuthedSession}
use new_server.Session.Tables.{WorldSessions, find_by_key}
use new_server.Session.Tables.Consistent.{Owns, IsConsistent}

pub record SameTables (w w' : WorldSessions) : Type 0 where
  pub sids : w'.authed_sessions_by_sid ≡ w.authed_sessions_by_sid
  pub chars : w'.authed_session_key_by_char_id ≡ w.authed_session_key_by_char_id
  pub accounts : w'.authed_session_key_by_account_id ≡ w.authed_session_key_by_account_id

pub SameTables-refl : (w : WorldSessions) → SameTables w w
SameTables-refl w = record { sids = refl; chars = refl; accounts = refl }

module _ {w w' : WorldSessions} (same : SameTables w w') where
  Owns-same : (s : ℕ) (x : WorldAuthedSession) → Owns w s x → Owns w' s x
  Owns-same s x o = record {
    at_sid = o.at_sid;
    key = o.key;
    has_char = o.has_char;
    has_account = o.has_account;
    char_index = ap (λ f. f x.char_id) same.chars ∙ o.char_index;
    account_index = ap (λ f. f x.account_id) same.accounts ∙ o.account_index;
  }

  find-same : (k : Option ℕ) → find_by_key w' k ≡ find_by_key w k
  unfolding find_by_key
  find-same none = refl
  find-same (some k) = rw (same.sids, find_by_key) refl

  pub SameTables-IsConsistent : IsConsistent w → IsConsistent w'
  SameTables-IsConsistent v = record {
    owns = λ s x h. Owns-same s x (v.owns s x (sym (ap (λ f. f s) same.sids) ∙ h));
    char_names = λ c k h.
        let old = v.char_names c k (sym (ap (λ f. f c) same.chars) ∙ h) in
        (old.0, find-same (some k) ∙ old.1, old.2);
    account_names = λ a k h.
        let old = v.account_names a k (sym (ap (λ f. f a) same.accounts) ∙ h) in
        (old.0, find-same (some k) ∙ old.1, old.2);
  }
