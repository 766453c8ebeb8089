-- ===== src/Session/Lifecycle/Grace.antt =====
-- A socket that closes without an explicit logout: the grace timer and the session.
use new_server.Prelude.{
  ℕ, ◌≡◌, refl, ap, ◌∙◌, ◌≢◌, inl, inr, true, none, some, arith, Map, put, ◌==◌, Bool-cases, nat_eq,
}
use new_server.Session.Types.{WorldSessionCloseReason}
use new_server.Session.Close.{
  TimerReport, on_delayed_close_timer, DelayedCloses, holds_timer, close_key,
  arm_reserved_delayed_world_close, DelayedCloseEntry, try_reserve_delayed_world_close,
  DelayedCloseKey, close_reason_of,
}
use new_server.Session.Key.{pack_session_key, is_valid_session_key}
use new_server.Session.Tables.{WorldSessions}
use new_server.Session.Tables.Same.{SameTables, SameTables-refl}
use new_server.Session.Types.{WorldSessionCloseReason}
use new_server.Session.Stage.{mark_enter_world_session_closing}
use new_server.Session.Close.{
  close_key_eq, close_key, DelayedCloseKey, DelayedCloseEntry, close_reason_of,
  try_reserve_delayed_world_close, arm_reserved_delayed_world_close,
}
use new_server.Session.Pending.{abort_stage, abort_enter_world_flow_by_session}
use new_server.Session.Lifecycle.{
  forget_stage, on_close_timer, on_line_closed, allow_grace, CloseJob, run_close_job, WorldRuntime,
  close_stage, handle_world_session_closed,
}

-- The tables and the reasons of two states are the same.
pub record SameBound (w w' : WorldSessions) : Type 0 where
  pub tables : SameTables w w'
  pub reasons : w'.session_close_reason_by_session_key ≡ w.session_close_reason_by_session_key

SameBound-refl : (w : WorldSessions) → SameBound w w
SameBound-refl w = record { tables = SameTables-refl w; reasons = refl }

SameBound-trans : (a b c : WorldSessions) → SameBound a b → SameBound b c → SameBound a c
SameBound-trans a b c h k = record {
  tables = record {
    sids = k.tables.sids ∙ h.tables.sids;
    chars = k.tables.chars ∙ h.tables.chars;
    accounts = k.tables.accounts ∙ h.tables.accounts;
  };
  reasons = k.reasons ∙ h.reasons;
}

close_stage-SameBound :
    (w : WorldSessions) (sid serial : ℕ) → SameBound w (close_stage w sid serial)
unfolding close_stage forget_stage mark_enter_world_session_closing
close_stage-SameBound w sid serial = elim (Bool-cases (is_valid_session_key sid serial)) [
  | inl e ↦
      rw e
        (record { tables = record { sids = refl; chars = refl; accounts = refl }; reasons = refl })
  | inr e ↦
      rw e
        (record { tables = record { sids = refl; chars = refl; accounts = refl }; reasons = refl })
]

-- The handler itself unbinds nothing.
pub handle-SameBound :
    (rt : WorldRuntime) (sid serial : ℕ)
    → (SameBound rt.sessions (handle_world_session_closed rt sid serial).0.sessions)
      × ((handle_world_session_closed rt sid serial).0.closes ≡ rt.closes)
unfolding handle_world_session_closed abort_enter_world_flow_by_session abort_stage
handle-SameBound rt sid serial = elim (Bool-cases (is_valid_session_key sid serial)) [
  | inl e ↦ rw e (
    SameBound-trans rt.sessions (abort_stage rt.sessions sid serial) _
        (record { tables = record { sids = refl; chars = refl; accounts = refl }; reasons = refl })
        (close_stage-SameBound (abort_stage rt.sessions sid serial) sid serial),
    refl,
  )
  | inr e ↦ rw e (close_stage-SameBound rt.sessions sid serial, refl)
]

same-close_reason :
    (w w' : WorldSessions) (sid serial : ℕ)
    → SameBound w w'
    → close_reason_of w' sid serial ≡ close_reason_of w sid serial
unfolding close_reason_of
same-close_reason w w' sid serial same =
    ap
      (λ f. elim (f (pack_session_key sid serial)) [
        | none ↦ WorldSessionCloseReason.network_disconnect
        | some reason ↦ reason
      ])
      same.reasons

-- The entry that a close arms.
abbrev pub armed_entry : ℕ → ℕ → ℕ → ℕ → WorldSessionCloseReason → DelayedCloseEntry
armed_entry timer sid serial char_id reason = record {
  timer = some timer;
  armed = true;
  log_ctx = record {
    trace_id = 0;
    char_id = char_id;
    sid = sid;
    serial = serial;
    close_reason = reason;
  };
}

beq_refl : (n : ℕ) → (n == n) ≡ true
beq_refl n = ground arith

put_close_key :
    (m : Map DelayedCloseKey DelayedCloseEntry) (k : DelayedCloseKey) (x : DelayedCloseEntry)
    → put m k x k ≡ some x
put_close_key m k x = rw (beq_refl k.sid, beq_refl k.serial) refl

reserve-next_timer :
    (c : DelayedCloses) (sid serial : ℕ)
    → is_valid_session_key sid serial ≡ true
    → c.delayed_world_close_entries (close_key sid serial) ≡ none
    → (try_reserve_delayed_world_close c sid serial).0.next_timer ≡ c.next_timer
unfolding try_reserve_delayed_world_close
reserve-next_timer c sid serial valid free = rw (valid, free) refl

-- The job under grace: the close waits for its timer and no actor is told.
run-grace :
    (rt : WorldRuntime) (job : CloseJob)
    → is_valid_session_key job.sid job.serial ≡ true
    → allow_grace job.close_reason ≡ true
    → rt.closes.delayed_world_close_entries (close_key job.sid job.serial) ≡ none
    → ((run_close_job rt job).0.sessions ≡ rt.sessions)
      × ((run_close_job rt job).1 ≡ none)
      × ((run_close_job rt job).0.closes.delayed_world_close_entries (close_key job.sid job.serial)
          ≡ some (
              armed_entry rt.closes.next_timer job.sid job.serial job.close_char_id
                (close_reason_of rt.sessions job.sid job.serial)))
unfolding run_close_job try_reserve_delayed_world_close arm_reserved_delayed_world_close
run-grace rt job valid grace free =
    rw (grace, valid, free, beq_refl job.sid, beq_refl job.serial)
      (
        refl,
        refl,
        put_close_key
              (try_reserve_delayed_world_close rt.closes job.sid
                job.serial).0.delayed_world_close_entries
              (close_key job.sid job.serial)
              (armed_entry
                (try_reserve_delayed_world_close rt.closes job.sid job.serial).0.next_timer job.sid
                job.serial job.close_char_id (close_reason_of rt.sessions job.sid job.serial))
            ∙ ap
                (λ t. some (
                  armed_entry t job.sid job.serial job.close_char_id
                    (close_reason_of rt.sessions job.sid job.serial)))
                (reserve-next_timer rt.closes job.sid job.serial valid free),
      )

pub reason_in_job :
    (rt : WorldRuntime) (sid serial : ℕ)
    → (handle_world_session_closed rt sid serial).1.close_reason
      ≡ close_reason_of rt.sessions sid serial
unfolding handle_world_session_closed
reason_in_job rt sid serial =
    let r = handle_world_session_closed rt sid serial in
    same-close_reason rt.sessions r.0.sessions sid serial (handle-SameBound rt sid serial).0

module _ (rt : WorldRuntime) (sid serial : ℕ) (valid : is_valid_session_key sid serial ≡ true)
    (grace : allow_grace (close_reason_of rt.sessions sid serial) ≡ true)
    (free : rt.closes.delayed_world_close_entries (close_key sid serial) ≡ none) where
  pub close-armed :
      (SameBound rt.sessions (on_line_closed rt sid serial).0.sessions)
      × ((on_line_closed rt sid serial).1 ≡ none)
      × holds_timer
          ((on_line_closed rt sid serial).0.closes.delayed_world_close_entries
            (close_key sid serial))
          rt.closes.next_timer
        ≡ true
  unfolding on_line_closed handle_world_session_closed holds_timer
  close-armed =
      let h = handle_world_session_closed rt sid serial in
      let same = handle-SameBound rt sid serial in
      let run =
        run-grace h.0 h.1 valid (rw (reason_in_job rt sid serial) grace) (rw (same.1) free) in
      (
        SameBound-trans rt.sessions h.0.sessions (on_line_closed rt sid serial).0.sessions same.0
            (rw (run.0) (SameBound-refl h.0.sessions)),
        run.1,
        ap (λ o. holds_timer o rt.closes.next_timer) run.2
            ∙ rw (same.1) (beq_refl rt.closes.next_timer),
      )

timer-erased :
    (c : DelayedCloses) (sid serial timer : ℕ)
    → holds_timer (c.delayed_world_close_entries (close_key sid serial)) timer ≡ true
    → let r = on_delayed_close_timer c sid serial timer TimerReport.fired true in
      (r.0.delayed_world_close_entries (close_key sid serial) ≡ none)
      × (r.1 ≡ some (close_key sid serial))
unfolding on_delayed_close_timer
timer-erased c sid serial timer held = rw held (rw (beq_refl sid, beq_refl serial) refl, refl)

allow_grace-other :
    (r : WorldSessionCloseReason)
    → r ≢ WorldSessionCloseReason.explicit_soft_logout
    → r ≢ WorldSessionCloseReason.explicit_hard_logout
    → allow_grace r ≡ true
unfolding allow_grace
allow_grace-other r soft hard = ground arith

-- For a valid key whose recorded reason is no explicit logout and that has no close reserved: the closed
-- socket arms a timer and tells no actor; when that timer fires, the handler asks the line to close
-- the socket once more and forgets the entry. Every session and reverse index is then still as it
-- was before the socket closed.
pub grace_keeps_bound :
    (rt : WorldRuntime) (sid serial : ℕ)
    → is_valid_session_key sid serial ≡ true
    → close_reason_of rt.sessions sid serial ≢ WorldSessionCloseReason.explicit_soft_logout
    → close_reason_of rt.sessions sid serial ≢ WorldSessionCloseReason.explicit_hard_logout
    → rt.closes.delayed_world_close_entries (close_key sid serial) ≡ none
    → let closed = on_line_closed rt sid serial in
      let fired = on_close_timer closed.0 sid serial rt.closes.next_timer TimerReport.fired true in
      (SameBound rt.sessions fired.0.sessions)
      × (closed.1 ≡ none)
      × (fired.1 ≡ some (close_key sid serial))
      × (fired.0.closes.delayed_world_close_entries (close_key sid serial) ≡ none)
unfolding on_close_timer
grace_keeps_bound rt sid serial valid soft hard free =
    let grace = allow_grace-other (close_reason_of rt.sessions sid serial) soft hard in
    let armed = close-armed rt sid serial valid grace free in
    let erased =
      timer-erased (on_line_closed rt sid serial).0.closes sid serial rt.closes.next_timer
        armed.2 in
    (armed.0, armed.1, erased.1, erased.0)
