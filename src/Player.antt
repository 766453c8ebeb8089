-- ===== src/Player.antt =====
-- src/services/world/actors/player_actor.h: the actor of one player. The core state is authoritative;
-- the fields beside it are projections of it. A method returns the new actor.
pub mod Moves
pub mod Capped
pub mod Calls
pub mod Loot
pub mod Sessions
pub mod Persist
pub mod Tests
use new_server.Prelude.{
  ℕ, ◌+◌, ◌/◌, ◌%◌, min, Bool, true, false, ◌&&◌, not, Option, none, some, List, [], Map, ltb,
  if◌then◌else◌, ◌==◌, u32_mod, nat_eq,
}
use new_server.Prelude.Int.{ℤ, pos}
use new_server.Character.State.{
  CharacterCoreState, CharacterCombatRuntimeStats, CharacterRuntimeHotState, CharacterResourceState,
  EquipSummary, dirty_resources, dirty_position, make_default_character_core_state,
}
use new_server.Character.Combat.{LegacyLevelTable, ItemTemplate, recompute_combat_stats}

-- `CharCombatState`
pub record CharCombatState : Type 0 where
  pub hp : ℕ
  pub max_hp : ℕ
  pub atk : ℕ
  pub def : ℕ
  pub gold : ℕ

pub record Vec2i : Type 0 where
  pub x : ℤ
  pub y : ℤ

-- The items are a list of ids and counts, one entry for each id.
pub record PlayerActor : Type 0 where
  pub char_id : ℕ
  pub online : Bool
  pub sid : ℕ
  pub serial : ℕ
  pub zone_id : ℕ
  pub map_template_id : ℕ
  pub map_instance_id : ℕ
  pub position : Vec2i
  pub core_state : Option CharacterCoreState
  pub combat : CharCombatState
  pub items : List (ℕ × ℕ)
  pub committed_loot_txs : List ℕ

abbrev pub invalid_sid : ℕ
invalid_sid = 4294967295

-- The constructor.
abbrev pub new_player : ℕ → PlayerActor
new_player char_id = record {
  char_id = char_id;
  online = false;
  sid = invalid_sid;
  serial = 0;
  zone_id = 1;
  map_template_id = 1001;
  map_instance_id = 0;
  position = record { x = pos 0; y = pos 0 };
  core_state = none;
  combat = record { hp = 100; max_hp = 100; atk = 20; def = 3; gold = 1000 };
  items = [];
  committed_loot_txs = [];
}

-- What `MutableCoreState` refers to.
unfoldable pub mutable_core_state : PlayerActor → CharacterCoreState
mutable_core_state p = elim p.core_state [
  | none ↦ make_default_character_core_state 0 p.char_id
  | some core ↦ core
]

abbrev pub with_core : PlayerActor → CharacterCoreState → PlayerActor
with_core p core = record p { core_state = some core }

-- The core with its current values cut at the caps of its stats.
unfoldable pub clamp_current : CharacterCoreState → CharacterCoreState
clamp_current core =
    let resources = core.hot.resources in
    let stats = core.combat_stats in
    record core {
      hot = record (core.hot) {
        resources = record resources {
          max_hp = stats.max_hp;
          max_mp = stats.max_mp;
          current_hp = min resources.current_hp stats.max_hp;
          current_mp = min resources.current_mp stats.max_mp;
        };
      };
    }

unfoldable pub sync_combat_projection_from_authoritative : PlayerActor → PlayerActor
sync_combat_projection_from_authoritative p = elim p.core_state [
  | none ↦ p
  | some core ↦ record p {
    core_state = some (clamp_current core);
    combat = record (p.combat) {
      max_hp = core.combat_stats.max_hp;
      atk = core.combat_stats.atk;
      def = core.combat_stats.def;
    };
  }
]

unfoldable pub sync_projection_from_core_state : PlayerActor → PlayerActor
sync_projection_from_core_state p = elim p.core_state [
  | none ↦ p
  | some core ↦
      let hot = core.hot in
      sync_combat_projection_from_authoritative (record p {
        zone_id = hot.position.zone_id;
        map_template_id = hot.position.map_id;
        position = record { x = hot.position.x; y = hot.position.y };
        online = hot.in_world && not (p.sid == invalid_sid);
        combat = record (p.combat) { hp = hot.resources.current_hp; gold = hot.resources.gold };
      })
]

-- `ApplyCombatRuntimeStats`
unfoldable pub apply_combat_runtime_stats :
    PlayerActor → CharacterCombatRuntimeStats → Bool → PlayerActor
apply_combat_runtime_stats p stats clamp =
    let core : CharacterCoreState = record (mutable_core_state p) { combat_stats = stats } in
    let resources = core.hot.resources in
    let hp = min resources.current_hp stats.max_hp in
    let clamped : CharacterCoreState = record core {
      hot = record (core.hot) {
        resources = record resources {
          current_hp = hp;
          current_mp = min resources.current_mp stats.max_mp;
        };
        alive = ltb 0 hp;
      };
    } in
    sync_projection_from_core_state
      (sync_combat_projection_from_authoritative (with_core p (if clamp then clamped else core)))

unfoldable pub recompute_combat_runtime_stats :
    LegacyLevelTable → Map ℕ ItemTemplate → PlayerActor → PlayerActor
recompute_combat_runtime_stats levels items p =
    let core = mutable_core_state p in
    apply_combat_runtime_stats (with_core p core) (recompute_combat_stats levels items core) true

unfoldable pub on_equipment_summary_changed :
    LegacyLevelTable → Map ℕ ItemTemplate → PlayerActor → EquipSummary → PlayerActor
on_equipment_summary_changed levels items p equip =
    recompute_combat_runtime_stats levels items
      (with_core p (record (mutable_core_state p) { equip = equip }))

unfoldable pub on_combat_identity_changed :
    LegacyLevelTable → Map ℕ ItemTemplate → PlayerActor → ℕ → ℕ → PlayerActor
on_combat_identity_changed levels items p job tribe =
    let core = mutable_core_state p in
    recompute_combat_runtime_stats levels items
      (with_core p (record core { identity = record (core.identity) { job = job; tribe = tribe } }))

-- `|=` of one bit, 1 or 2: every caller here passes one.
unfoldable pub or_flag : ℕ → ℕ → ℕ
or_flag flags bit = if flags / bit % 2 == 1 then flags else flags + bit

-- `MarkHotDirty` on a hot state, with the version that goes up and wraps.
unfoldable pub mark_hot_dirty : CharacterRuntimeHotState → ℕ → CharacterRuntimeHotState
mark_hot_dirty hot flag = record hot {
  dirty_flags = or_flag hot.dirty_flags flag;
  version = (hot.version + 1) % u32_mod;
}

-- The writes of a method to the hot state, marked.
abbrev pub write_hot : PlayerActor → CharacterRuntimeHotState → ℕ → PlayerActor
write_hot p hot flag = with_core p (record (mutable_core_state p) { hot = mark_hot_dirty hot flag })

-- `MarkHotDirty` on its own.
unfoldable pub mark_dirty : PlayerActor → ℕ → Bool → PlayerActor
mark_dirty p flag bump_version =
    let hot = (mutable_core_state p).hot in
    let marked = mark_hot_dirty hot flag in
    with_core p (record (mutable_core_state p) {
      hot = if bump_version then marked else record marked { version = hot.version };
    })

unfoldable pub set_in_world : PlayerActor → Bool → PlayerActor
set_in_world p in_world =
    let hot = (mutable_core_state p).hot in
    sync_projection_from_core_state
      (write_hot p (record hot { in_world = in_world }) dirty_position)

unfoldable pub set_alive : PlayerActor → Bool → PlayerActor
set_alive p alive =
    let hot = (mutable_core_state p).hot in
    let resources : CharacterResourceState =
      if alive then hot.resources else record (hot.resources) { current_hp = 0 } in
    sync_projection_from_core_state
      (write_hot p (record hot { alive = alive; resources = resources }) dirty_resources)

unfoldable pub set_current_hp : PlayerActor → ℕ → PlayerActor
set_current_hp p hp =
    let core = mutable_core_state p in
    let capped = min hp core.combat_stats.max_hp in
    sync_projection_from_core_state (
      write_hot p
        (record (core.hot) {
          resources = record (core.hot.resources) { current_hp = capped };
          alive = ltb 0 capped;
        })
        dirty_resources)

-- The mana has no projection, so nothing is synced.
unfoldable pub set_current_mp : PlayerActor → ℕ → PlayerActor
set_current_mp p mp =
    let core = mutable_core_state p in
    write_hot p
      (record (core.hot) {
        resources = record (core.hot.resources) { current_mp = min mp core.combat_stats.max_mp };
      })
      dirty_resources

unfoldable pub add_gold : PlayerActor → ℕ → PlayerActor
add_gold p amount =
    let hot = (mutable_core_state p).hot in
    sync_projection_from_core_state (
      write_hot p
        (record hot {
          resources = record (hot.resources) { gold = (hot.resources.gold + amount) % u32_mod };
        })
        dirty_resources)
