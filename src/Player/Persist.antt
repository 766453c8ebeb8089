-- ===== src/Player/Persist.antt =====
-- src/services/world/common/demo_char_state.h: the 16 bytes that a player is stored as.
use new_server.Prelude.{
  ℕ, zero, suc, ◌+◌, ◌*◌, ◌/◌, ◌%◌, ◌<◌, ◌≡◌, refl, sym, ap, ◌∙◌, true, Option, none, some, List,
  [], ◌∷◌, ◌++◌, arith, length, length-append, if◌then◌else◌, ◌==◌, u32_mod, u64_mod, nat_eq,
}
use new_server.Character.State.{CharacterCoreState, make_default_character_core_state}
use new_server.Player.{PlayerActor}

infixl 5 ◌>>=◌
abbrev ◌>>=◌ {ℓ κ} : {A : Type ℓ} {B : Type κ} → Option A → (A → Option B) → Option B
none >>= f = none
some a >>= f = f a

pub record DemoCharState : Type 0 where
  pub char_id : ℕ
  pub gold : ℕ
  pub version : ℕ

unfoldable pub to_character_core_state : DemoCharState → ℕ → CharacterCoreState
to_character_core_state s account_id =
    let out = make_default_character_core_state account_id s.char_id in
    record out {
      hot = record (out.hot) {
        resources = record (out.hot.resources) { gold = s.gold };
        version = s.version;
      };
    }

unfoldable pub from_character_core_state : CharacterCoreState → DemoCharState
from_character_core_state s = record {
  char_id = s.identity.char_id;
  gold = s.hot.resources.gold;
  version = s.hot.version;
}

-- The bytes of a number in memory, lowest first.
unfoldable pub to_bytes : ℕ → ℕ → List ℕ
to_bytes zero value = []
to_bytes (suc n) value = value % 256 ∷ to_bytes n (value / 256)

-- A number from the next bytes, and the bytes after it.
unfoldable pub of_bytes : ℕ → List ℕ → Option (ℕ × List ℕ)
of_bytes zero blob = some (0, blob)
of_bytes (suc n) [] = none
of_bytes (suc n) (byte ∷ blob) = elim (of_bytes n blob) [
  | none ↦ none
  | some high ↦ some (byte + 256 * high.0, high.1)
]

unfoldable pub serialize_demo : DemoCharState → List ℕ
serialize_demo s = to_bytes 8 s.char_id ++ (to_bytes 4 s.gold ++ to_bytes 4 s.version)

-- A blob of another size than 16 bytes is refused.
unfoldable pub try_deserialize_demo : List ℕ → Option DemoCharState
try_deserialize_demo blob =
    if length blob == 16
    then (do
      char_id ← of_bytes 8 blob
      gold ← of_bytes 4 char_id.1
      version ← of_bytes 4 gold.1
      some (record { char_id = char_id.0; gold = gold.0; version = version.0 }))
    else none

unfoldable pub try_deserialize_core : List ℕ → ℕ → Option CharacterCoreState
try_deserialize_core blob account_id = elim (try_deserialize_demo blob) [
  | none ↦ none
  | some raw ↦ some (to_character_core_state raw account_id)
]

unfoldable pub serialize_persistent_state : PlayerActor → List ℕ
serialize_persistent_state p = elim p.core_state [
  | none ↦ serialize_demo (record { char_id = p.char_id; gold = p.combat.gold; version = 0 })
  | some core ↦ serialize_demo (from_character_core_state core)
]

-- 256 to the power `n`.
bytes_mod : ℕ → ℕ
bytes_mod zero = 1
bytes_mod (suc n) = 256 * bytes_mod n

high_small : (value m : ℕ) → value < 256 * m → value / 256 < m
high_small value m h = omega arith

of_bytes-to_bytes :
    (n value : ℕ) (rest : List ℕ)
    → value < bytes_mod n
    → of_bytes n (to_bytes n value ++ rest) ≡ some (value, rest)
unfolding of_bytes to_bytes bytes_mod
of_bytes-to_bytes zero value rest h = let e : 0 ≡ value = omega arith in ap (λ v. some (v, rest)) e
of_bytes-to_bytes (suc n) value rest h =
    let small : value / 256 < bytes_mod n = high_small value (bytes_mod n) h in
    rw (of_bytes-to_bytes n (value / 256) rest small) (ap (λ v. some (v, rest)) (omega arith))

length-to_bytes : (n value : ℕ) → length (to_bytes n value) ≡ n
unfolding to_bytes
length-to_bytes zero value = refl
length-to_bytes (suc n) value = ap suc (length-to_bytes n (value / 256))

-- The fields fit in their machine words.
pub record Fits (s : DemoCharState) : Type 0 where
  pub char_id : s.char_id < u64_mod
  pub gold : s.gold < u32_mod
  pub version : s.version < u32_mod

append_nil : (xs : List ℕ) → xs ++ [] ≡ xs
append_nil [] = refl
append_nil (x ∷ xs) = ap (λ ys. x ∷ ys) (append_nil xs)

of_bytes-last :
    (n value : ℕ) → value < bytes_mod n → of_bytes n (to_bytes n value) ≡ some (value, [])
of_bytes-last n value h =
    ap (of_bytes n) (sym (append_nil (to_bytes n value))) ∙ of_bytes-to_bytes n value [] h

length-serialize : (s : DemoCharState) → length (serialize_demo s) ≡ 16
unfolding serialize_demo
length-serialize s =
    let a = to_bytes 8 s.char_id in
    let b = to_bytes 4 s.gold in
    let c = to_bytes 4 s.version in
    omega (
      arith,
      length-append a (b ++ c),
      length-append b c,
      length-to_bytes 8 s.char_id,
      length-to_bytes 4 s.gold,
      length-to_bytes 4 s.version,
    )

-- For a state whose fields fit in their machine words: what was stored is read back.
pub try_deserialize-serialize :
    (s : DemoCharState) → Fits s → try_deserialize_demo (serialize_demo s) ≡ some s
unfolding try_deserialize_demo serialize_demo bytes_mod
try_deserialize-serialize s f =
    let size : (length (serialize_demo s) == 16) ≡ true = ap (λ n. n == 16) (length-serialize s) in
    let rest = to_bytes 4 s.gold ++ to_bytes 4 s.version in
    let a : of_bytes 8 (serialize_demo s) ≡ some (s.char_id, rest) =
      of_bytes-to_bytes 8 s.char_id (to_bytes 4 s.gold ++ to_bytes 4 s.version) f.char_id in
    let b = of_bytes-to_bytes 4 s.gold (to_bytes 4 s.version) f.gold in
    let c = of_bytes-last 4 s.version f.version in rw size (rw a (rw b (rw c refl)))
