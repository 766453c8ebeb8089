-- ===== src/Session/Close.antt =====
-- The delayed closes of src/services/world/runtime/world_runtime_session.cpp: a table of reservations,
-- each with a timer once it is armed. A timer is a number; the clock and the timer queue of the I/O
-- library stand outside, and what it reports to the handler is an argument.
use new_server.Prelude.{
  ℕ, ◌+◌, ◌≡◌, refl, ◌↔◌, Bool, true, false, ◌&&◌, Option, none, some, arith, Map, put, erase,
  if◌then◌else◌, Eq, ◌==◌, nat_eq,
}
use new_server.Session.Key.{is_valid_session_key, pack_session_key}
use new_server.Session.Types.{WorldSessionCloseReason}
use new_server.Session.Tables.{WorldSessions}

pub record DelayedCloseKey : Type 0 where
  pub sid : ℕ
  pub serial : ℕ

-- `DelayedCloseKey::operator==`
abbrev pub close_key_beq : DelayedCloseKey → DelayedCloseKey → Bool
close_key_beq a b = a.sid == b.sid && a.serial == b.serial

pub close_key_beq_iff : (a b : DelayedCloseKey) → (close_key_beq a b ≡ true) ↔ (a ≡ b)
close_key_beq_iff a b = ground arith

instance abbrev pub close_key_eq : Eq DelayedCloseKey
close_key_eq = record {
  equal = close_key_beq;
  equal_refl = λ k. (close_key_beq_iff k k).1 refl;
  equal_sound = λ k j. (close_key_beq_iff k j).0;
}

pub record SessionCloseLogContext : Type 0 where
  pub trace_id : ℕ
  pub char_id : ℕ
  pub sid : ℕ
  pub serial : ℕ
  pub close_reason : WorldSessionCloseReason

pub record DelayedCloseEntry : Type 0 where
  pub timer : Option ℕ
  pub armed : Bool
  pub log_ctx : SessionCloseLogContext

-- `DelayedCloseEntry{}`
abbrev pub new_entry : DelayedCloseEntry
new_entry = record {
  timer = none;
  armed = false;
  log_ctx = record {
    trace_id = 0;
    char_id = 0;
    sid = 0;
    serial = 0;
    close_reason = WorldSessionCloseReason.none;
  };
}

-- The entries, and the number of the next timer that is made.
pub record DelayedCloses : Type 0 where
  pub delayed_world_close_entries : Map DelayedCloseKey DelayedCloseEntry
  pub next_timer : ℕ

abbrev pub close_key : ℕ → ℕ → DelayedCloseKey
close_key sid serial = record { sid = sid; serial = serial }

unfoldable pub try_reserve_delayed_world_close : DelayedCloses → ℕ → ℕ → DelayedCloses × Bool
try_reserve_delayed_world_close c sid serial =
    if is_valid_session_key sid serial
    then (elim (c.delayed_world_close_entries (close_key sid serial)) [
      | some entry ↦ (c, false)
      | none ↦ (
        record c {
          delayed_world_close_entries =
              put c.delayed_world_close_entries (close_key sid serial) new_entry;
        },
        true,
      )
    ])
    else (c, false)

-- The reason on record for a session's close.
unfoldable pub close_reason_of : WorldSessions → ℕ → ℕ → WorldSessionCloseReason
close_reason_of w sid serial =
    elim (w.session_close_reason_by_session_key (pack_session_key sid serial)) [
      | none ↦ WorldSessionCloseReason.network_disconnect
      | some reason ↦ reason
    ]

arm_entry :
    DelayedCloses
    → DelayedCloseEntry
    → ℕ
    → WorldSessionCloseReason
    → ℕ
    → ℕ
    → ℕ
    → ℕ
    → DelayedCloses × Bool
arm_entry c entry timer reason sid serial trace_id char_id = if entry.armed then (c, false) else (
  record c {
    delayed_world_close_entries = put c.delayed_world_close_entries (close_key sid serial) (record {
      timer = some timer;
      armed = true;
      log_ctx = record {
        trace_id = trace_id;
        char_id = char_id;
        sid = sid;
        serial = serial;
        close_reason = reason;
      };
    });
  },
  true,
)

-- The timer is made first, whether or not the entry is then armed with it.
unfoldable pub arm_reserved_delayed_world_close :
    WorldSessions → DelayedCloses → ℕ → ℕ → ℕ → ℕ → DelayedCloses × Bool
unfolding arm_entry
arm_reserved_delayed_world_close w c sid serial trace_id char_id =
    let c' : DelayedCloses = record c { next_timer = c.next_timer + 1 } in
    if is_valid_session_key sid serial
    then (elim (c.delayed_world_close_entries (close_key sid serial)) [
      | none ↦ (c', false)
      | some entry ↦
          arm_entry c' entry c.next_timer (close_reason_of w sid serial) sid serial trace_id char_id
    ])
    else (c, false)

-- What the timer reports to its handler.
pub data TimerReport : Type 0 where
  fired operation_aborted failed : TimerReport

-- Whether the entry holds this timer.
unfoldable pub holds_timer : Option DelayedCloseEntry → ℕ → Bool
holds_timer none timer = false
holds_timer (some entry) timer = elim entry.timer [ none ↦ false | some t ↦ t == timer ]

-- The handler of `async_wait`: the entry goes if it is still this timer's, and a timer that fired
-- closes the socket if the line's server and handler are there.
unfoldable pub on_delayed_close_timer :
    DelayedCloses → ℕ → ℕ → ℕ → TimerReport → Bool → DelayedCloses × Option DelayedCloseKey
on_delayed_close_timer c sid serial timer report has_line =
    let key = close_key sid serial in
    (
      record c {
        delayed_world_close_entries =
            if holds_timer (c.delayed_world_close_entries key) timer
            then erase c.delayed_world_close_entries key
            else c.delayed_world_close_entries;
      },
      elim report [
        | TimerReport.fired ↦ if has_line then some key else none
        | TimerReport.operation_aborted ↦ none
        | TimerReport.failed ↦ none
      ],
    )

unfoldable pub update_reserved_delayed_world_close_context :
    DelayedCloses → ℕ → ℕ → ℕ → ℕ → DelayedCloses × Bool
update_reserved_delayed_world_close_context c sid serial trace_id char_id =
    if is_valid_session_key sid serial
    then (elim (c.delayed_world_close_entries (close_key sid serial)) [
      | none ↦ (c, false)
      | some entry ↦ (
        record c {
          delayed_world_close_entries =
              put c.delayed_world_close_entries (close_key sid serial) (record entry {
                log_ctx = record {
                  trace_id = trace_id;
                  char_id = char_id;
                  sid = sid;
                  serial = serial;
                  close_reason = entry.log_ctx.close_reason;
                };
              });
        },
        true,
      )
    ])
    else (c, false)

-- The released entry; none where there was no reservation. Its timer, if any, is cancelled.
unfoldable pub release_delayed_world_close_reservation :
    DelayedCloses → ℕ → ℕ → DelayedCloses × Option DelayedCloseEntry
release_delayed_world_close_reservation c sid serial =
    if is_valid_session_key sid serial
    then (elim (c.delayed_world_close_entries (close_key sid serial)) [
      | none ↦ (c, none)
      | some entry ↦ (
        record c {
          delayed_world_close_entries = erase c.delayed_world_close_entries (close_key sid serial);
        },
        some entry,
      )
    ])
    else (c, none)

unfoldable pub cancel_delayed_world_close : DelayedCloses → ℕ → ℕ → DelayedCloses
cancel_delayed_world_close c sid serial = (release_delayed_world_close_reservation c sid serial).0
