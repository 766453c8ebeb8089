-- ===== src/Session/Lifecycle/Logout.antt =====
-- A socket that closes after an explicit logout.
use new_server.Prelude.{ℕ, ◌≡◌, refl, sym, ap, ◌∙◌, ◌↔◌, ◌⊎◌, inl, inr, true, false, some}
use new_server.Session.Key.{is_valid_session_key}
use new_server.Session.Types.{WorldSessionCloseReason, WorldAuthedSession}
use new_server.Session.Tables.Consistent.{IsConsistent}
use new_server.Session.Tables.Same.{SameTables-IsConsistent}
use new_server.Session.Close.{close_reason_of}
use new_server.Session.Unbind.{unbind_authenticated_world_session_by_sid}
use new_server.Session.Unbind.Removal.{unbind-IsConsistent, unbind_exact}
use new_server.Session.Lifecycle.{
  WorldRuntime, allow_grace, on_line_closed, handle_world_session_closed, run_close_job,
  process_world_session_closed_on_io,
}
use new_server.Session.Lifecycle.Grace.{handle-SameBound, reason_in_job}

process-sessions :
    (rt : WorldRuntime) (sid serial : ℕ)
    → is_valid_session_key sid serial ≡ true
    → (process_world_session_closed_on_io rt sid serial).0.sessions
      ≡ (unbind_authenticated_world_session_by_sid rt.sessions sid serial).0
unfolding process_world_session_closed_on_io
process-sessions rt sid serial valid = rw valid refl

closed-sessions :
    (rt : WorldRuntime) (sid serial : ℕ)
    → is_valid_session_key sid serial ≡ true
    → allow_grace (close_reason_of rt.sessions sid serial) ≡ false
    → (on_line_closed rt sid serial).0.sessions
      ≡ (unbind_authenticated_world_session_by_sid
          (handle_world_session_closed rt sid serial).0.sessions
          sid
          serial).0
unfolding on_line_closed run_close_job handle_world_session_closed
closed-sessions rt sid serial valid explicit =
    let h = handle_world_session_closed rt sid serial in
    let reason : allow_grace h.1.close_reason ≡ false =
      ap allow_grace (reason_in_job rt sid serial) ∙ explicit in
    rw reason (process-sessions h.0 sid serial valid)

allow_grace-explicit :
    (r : WorldSessionCloseReason)
    → (r ≡ WorldSessionCloseReason.explicit_soft_logout)
      ⊎ (r ≡ WorldSessionCloseReason.explicit_hard_logout)
    → allow_grace r ≡ false
unfolding allow_grace
allow_grace-explicit r (inl e) = ap allow_grace e
allow_grace-explicit r (inr e) = ap allow_grace e

-- On consistent tables, for a valid key whose recorded reason is an explicit logout: when the socket
-- closes, the tables stay consistent and exactly the sessions are left that do not have both the sid
-- and the serial.
pub logout_unbinds :
    (rt : WorldRuntime) (sid serial : ℕ)
    → IsConsistent rt.sessions
    → is_valid_session_key sid serial ≡ true
    → (close_reason_of rt.sessions sid serial ≡ WorldSessionCloseReason.explicit_soft_logout)
      ⊎ (close_reason_of rt.sessions sid serial ≡ WorldSessionCloseReason.explicit_hard_logout)
    → (IsConsistent (on_line_closed rt sid serial).0.sessions)
      × ((s : ℕ) (y : WorldAuthedSession)
          → ((on_line_closed rt sid serial).0.sessions.authed_sessions_by_sid s ≡ some y) ↔ (
              (rt.sessions.authed_sessions_by_sid s ≡ some y)
              × ¬ ((s ≡ sid) × (y.serial ≡ serial))))
logout_unbinds rt sid serial v valid explicit =
    let h = (handle_world_session_closed rt sid serial).0.sessions in
    let same = (handle-SameBound rt sid serial).0 in
    let vh = SameTables-IsConsistent (same.tables) v in
    rw
      (closed-sessions rt sid serial valid
        (allow_grace-explicit (close_reason_of rt.sessions sid serial) explicit))
      (
        unbind-IsConsistent h sid serial vh,
        λ s y.
            let u = unbind_exact h sid serial s y vh in
            let at = ap (λ f. f s) same.tables.sids in
            (λ hy. (sym at ∙ (u.0 hy).0, (u.0 hy).1), λ t. u.1 (at ∙ t.0, t.1)),
      )
