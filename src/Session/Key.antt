-- ===== src/Session/Key.antt =====
-- src/server_common/session/session_key.h: a (sid, serial) pair packed into one 64-bit key.
use new_server.Prelude.{
  ℕ, ◌+◌, ◌*◌, ◌/◌, ◌%◌, ◌<◌, ◌≡◌, Bool, ◌&&◌, not, arith, ◌==◌, u32_mod, nat_eq,
}

unfoldable pub is_valid_session_key : ℕ → ℕ → Bool
is_valid_session_key sid serial = not (sid == 0) && not (serial == 0)

unfoldable pub is_same_session_key : ℕ → ℕ → ℕ → ℕ → Bool
is_same_session_key lhs_sid lhs_serial rhs_sid rhs_serial =
    lhs_sid == rhs_sid && lhs_serial == rhs_serial

-- `(sid << 32) | serial`: the low half is free, so the bitwise or is a sum.
unfoldable pub pack_session_key : ℕ → ℕ → ℕ
pack_session_key sid serial = sid * u32_mod + serial

unfoldable pub unpack_session_sid : ℕ → ℕ
unpack_session_sid session_key = session_key / u32_mod % u32_mod

unfoldable pub unpack_session_serial : ℕ → ℕ
unpack_session_serial session_key = session_key % u32_mod

unfoldable pub matches_packed_session_key : ℕ → ℕ → ℕ → Bool
matches_packed_session_key packed_key sid serial = packed_key == pack_session_key sid serial

-- Both halves fit in 32 bits.
pub record IsKey (sid serial : ℕ) : Type 0 where
  pub sid_pos : 0 < sid
  pub sid_fits : sid < u32_mod
  pub serial_pos : 0 < serial
  pub serial_fits : serial < u32_mod

-- Unpacking a packed key returns its halves, where they are of 32 bits and not zero.
pub unpack-pack :
    (sid serial : ℕ)
    → IsKey sid serial
    → (unpack_session_sid (pack_session_key sid serial) ≡ sid)
      × (unpack_session_serial (pack_session_key sid serial) ≡ serial)
unfolding pack_session_key unpack_session_sid unpack_session_serial
unpack-pack sid serial k = omega arith

pub pack_injective :
    (a b c d : ℕ)
    → b < u32_mod
    → d < u32_mod
    → pack_session_key a b ≡ pack_session_key c d
    → (a ≡ c) × (b ≡ d)
unfolding pack_session_key
pack_injective a b c d hb hd e = omega arith
