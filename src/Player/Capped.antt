-- ===== src/Player/Capped.antt =====
-- An invariant of the actor: current values and their caps, the dead, and the projections of hp and
-- gold, through each method.
use new_server.Prelude.{ℕ, ◌≤◌, min, ◌≡◌, refl, sym, Bool, true, false, none, some, arith, ltb}
use new_server.Prelude.Int.{ℤ}
use new_server.Character.State.{
  CharacterCoreState, CharacterRuntimeHotState, make_default_character_core_state,
}
use new_server.Player.{
  mark_dirty, PlayerActor, mutable_core_state, with_core, mark_hot_dirty, clamp_current,
  sync_projection_from_core_state, sync_combat_projection_from_authoritative, set_in_world,
  set_alive, set_current_hp, set_current_mp, add_gold,
}
use new_server.Player.Moves.{set_world_position, clear_world_position}

pub record IsCapped (core : CharacterCoreState) : Type 0 where
  pub hp : core.hot.resources.current_hp ≤ core.combat_stats.max_hp
  pub mp : core.hot.resources.current_mp ≤ core.combat_stats.max_mp
  pub dead : core.hot.alive ≡ false → core.hot.resources.current_hp ≡ 0

-- The projections of a core state, or of none yet.
pub data IsMirrored (p : PlayerActor) : Type 0 where
  fresh : p.core_state ≡ none → p.combat.hp ≡ 100 → p.combat.gold ≡ 1000 → IsMirrored p
  kept :
      (core : CharacterCoreState)
      → p.core_state ≡ some core
      → IsCapped core
      → p.combat.hp ≡ core.hot.resources.current_hp
      → p.combat.gold ≡ core.hot.resources.gold
      → IsMirrored p

default-IsCapped :
    (account_id char_id : ℕ) → IsCapped (make_default_character_core_state account_id char_id)
unfolding make_default_character_core_state
default-IsCapped account_id char_id = record { hp = omega arith; mp = omega arith; dead = λ h. cc }

pub mutable_core_state-IsCapped : (p : PlayerActor) → IsMirrored p → IsCapped (mutable_core_state p)
unfolding mutable_core_state
mutable_core_state-IsCapped p (fresh e hp gold) =
    rw (e, mutable_core_state) (default-IsCapped 0 p.char_id)
mutable_core_state-IsCapped p (kept core e c hp gold) = rw (e, mutable_core_state) c

pub clamp_current-IsCapped :
    (core : CharacterCoreState)
    → (core.hot.alive ≡ false → core.hot.resources.current_hp ≡ 0)
    → IsCapped (clamp_current core)
unfolding clamp_current
clamp_current-IsCapped core dead = record {
  hp = omega arith;
  mp = omega arith;
  dead = λ h. (let e = dead h in omega arith);
}

min_eq : (a b : ℕ) → a ≤ b → min a b ≡ a
min_eq a b h = omega arith

-- A sync of a capped core leaves the actor mirrored.
pub sync-IsMirrored :
    (p : PlayerActor) (core : CharacterCoreState)
    → IsCapped core
    → IsMirrored (sync_projection_from_core_state (with_core p core))
unfolding sync_projection_from_core_state sync_combat_projection_from_authoritative clamp_current
sync-IsMirrored p core c =
    kept (clamp_current core) refl (clamp_current-IsCapped core c.dead)
      (sym (min_eq core.hot.resources.current_hp core.combat_stats.max_hp c.hp)) refl

pub marked-IsCapped :
    (core : CharacterCoreState) (hot : CharacterRuntimeHotState) (flag : ℕ)
    → hot.resources.current_hp ≤ core.combat_stats.max_hp
    → hot.resources.current_mp ≤ core.combat_stats.max_mp
    → (hot.alive ≡ false → hot.resources.current_hp ≡ 0)
    → IsCapped (record core { hot = mark_hot_dirty hot flag })
unfolding mark_hot_dirty
marked-IsCapped core hot flag hp mp dead = record { hp = hp; mp = mp; dead = dead }

pub not_alive : (hp : ℕ) → ltb 0 hp ≡ false → hp ≡ 0
not_alive hp h = ground arith

module _ (p : PlayerActor) (v : IsMirrored p) where
  c : IsCapped (mutable_core_state p)
  c = mutable_core_state-IsCapped p v

  pub set_in_world-IsMirrored : (in_world : Bool) → IsMirrored (set_in_world p in_world)
  unfolding set_in_world
  set_in_world-IsMirrored in_world =
      sync-IsMirrored p _ (marked-IsCapped (mutable_core_state p) _ _ c.hp c.mp c.dead)

  pub set_alive-IsMirrored : (alive : Bool) → IsMirrored (set_alive p alive)
  unfolding set_alive
  set_alive-IsMirrored true =
      sync-IsMirrored p _ (marked-IsCapped (mutable_core_state p) _ _ c.hp c.mp (λ h. cc))
  set_alive-IsMirrored false =
      sync-IsMirrored p _
        (marked-IsCapped (mutable_core_state p) _ _ (omega arith) c.mp (λ h. refl))

  pub set_current_hp-IsMirrored : (hp : ℕ) → IsMirrored (set_current_hp p hp)
  unfolding set_current_hp
  set_current_hp-IsMirrored hp = sync-IsMirrored p _ (
      marked-IsCapped (mutable_core_state p) _ _ (omega arith) c.mp
        (not_alive (min hp (mutable_core_state p).combat_stats.max_hp)))

  pub add_gold-IsMirrored : (amount : ℕ) → IsMirrored (add_gold p amount)
  unfolding add_gold
  add_gold-IsMirrored amount =
      sync-IsMirrored p _ (marked-IsCapped (mutable_core_state p) _ _ c.hp c.mp c.dead)

  pub set_world_position-IsMirrored :
      (zone_id map_id map_instance_id : ℕ) (x y z heading : ℤ)
      → IsMirrored (set_world_position p zone_id map_id map_instance_id x y z heading)
  unfolding set_world_position sync_projection_from_core_state mutable_core_state
  set_world_position-IsMirrored zone_id map_id map_instance_id x y z heading =
      sync-IsMirrored (record p { map_instance_id = map_instance_id }) _
        (marked-IsCapped (mutable_core_state p) _ _ c.hp c.mp c.dead)

  pub clear_world_position-IsMirrored : IsMirrored (clear_world_position p)
  unfolding clear_world_position sync_projection_from_core_state mutable_core_state
  clear_world_position-IsMirrored =
      sync-IsMirrored (record p { map_instance_id = 0 }) _
        (marked-IsCapped (mutable_core_state p) _ _ c.hp c.mp c.dead)

  -- The projections of the current values, where nothing is synced.
  hp_mirrored : p.combat.hp ≡ (mutable_core_state p).hot.resources.current_hp
  unfolding mutable_core_state make_default_character_core_state
  hp_mirrored = elim v [
    | fresh e hp gold ↦ rw (e, mutable_core_state) hp
    | kept core e k hp gold ↦ rw (e, mutable_core_state) hp
  ]

  gold_mirrored : p.combat.gold ≡ (mutable_core_state p).hot.resources.gold
  unfolding mutable_core_state make_default_character_core_state
  gold_mirrored = elim v [
    | fresh e hp gold ↦ rw (e, mutable_core_state) gold
    | kept core e k hp gold ↦ rw (e, mutable_core_state) gold
  ]

  pub set_current_mp-IsMirrored : (mp : ℕ) → IsMirrored (set_current_mp p mp)
  unfolding set_current_mp mark_hot_dirty
  set_current_mp-IsMirrored mp =
      kept _ refl (marked-IsCapped (mutable_core_state p) _ _ c.hp (omega arith) c.dead) hp_mirrored
        gold_mirrored

  pub mark_dirty-IsMirrored :
      (flag : ℕ) (bump_version : Bool) → IsMirrored (mark_dirty p flag bump_version)
  unfolding mark_dirty mark_hot_dirty
  mark_dirty-IsMirrored flag true =
      kept _ refl (marked-IsCapped (mutable_core_state p) _ flag c.hp c.mp c.dead) hp_mirrored
        gold_mirrored
  mark_dirty-IsMirrored flag false =
      kept _ refl (record { hp = c.hp; mp = c.mp; dead = c.dead }) hp_mirrored gold_mirrored

  pub resync-IsMirrored : IsMirrored (sync_projection_from_core_state p)
  unfolding sync_projection_from_core_state sync_combat_projection_from_authoritative clamp_current
  resync-IsMirrored = elim v [
    | fresh e hp gold ↦ rw (e, sync_projection_from_core_state) (fresh e hp gold)
    | kept core e k hp gold ↦
        rw (e, sync_projection_from_core_state)
          (rw (e, sync_combat_projection_from_authoritative)
            (kept (clamp_current core) refl (clamp_current-IsCapped core k.dead)
              (sym (min_eq core.hot.resources.current_hp core.combat_stats.max_hp k.hp)) refl))
  ]
