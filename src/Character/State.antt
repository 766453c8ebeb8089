-- ===== src/Character/State.antt =====
-- The structures of src/services/world/common: character_identity.h, character_presentation.h,
-- character_combat_runtime_stats.h, character_runtime_hot_state.h and character_core_state.h.
use new_server.Prelude.Int.{ℤ, pos}
use new_server.Prelude.{ℕ, Bool, true, false, ◌&&◌, not, List, [], ◌==◌, nat_eq}

pub record CharacterIdentity : Type 0 where
  pub char_id : ℕ
  pub account_id : ℕ
  pub char_name : List ℕ
  pub level : ℕ
  pub job : ℕ
  pub tribe : ℕ

-- `CharacterIdentity::valid`
unfoldable pub valid : CharacterIdentity → Bool
valid identity = not (identity.char_id == 0) && not (identity.account_id == 0)

pub record AppearanceSummary : Type 0 where
  pub appearance_code : ℕ
  pub gender : ℕ
  pub face_style : ℕ
  pub hair_style : ℕ
  pub hair_color : ℕ

pub record EquipSummary : Type 0 where
  pub weapon_template_id : ℕ
  pub armor_template_id : ℕ
  pub costume_template_id : ℕ
  pub accessory_template_id : ℕ

pub record CharacterCombatRuntimeStats : Type 0 where
  pub max_hp : ℕ
  pub max_mp : ℕ
  pub atk : ℕ
  pub def : ℕ

pub record CharacterPosition : Type 0 where
  pub map_id : ℕ
  pub zone_id : ℕ
  pub x : ℤ
  pub y : ℤ
  pub z : ℤ
  pub heading : ℤ

pub record CharacterResourceState : Type 0 where
  pub current_hp : ℕ
  pub max_hp : ℕ
  pub current_mp : ℕ
  pub max_mp : ℕ
  pub gold : ℕ

-- `CharacterDirtyFlags`: the bits of a 32-bit word.
abbrev pub dirty_none : ℕ
dirty_none = 0

abbrev pub dirty_resources : ℕ
dirty_resources = 1

abbrev pub dirty_position : ℕ
dirty_position = 2

pub record CharacterRuntimeHotState : Type 0 where
  pub resources : CharacterResourceState
  pub position : CharacterPosition
  pub alive : Bool
  pub in_world : Bool
  pub version : ℕ
  pub dirty_flags : ℕ

pub record CharacterCoreState : Type 0 where
  pub identity : CharacterIdentity
  pub appearance : AppearanceSummary
  pub equip : EquipSummary
  pub combat_stats : CharacterCombatRuntimeStats
  pub hot : CharacterRuntimeHotState

abbrev pub make_default_character_combat_runtime_stats : CharacterCombatRuntimeStats
make_default_character_combat_runtime_stats = record {
  max_hp = 100;
  max_mp = 100;
  atk = 20;
  def = 3;
}

-- The default members, then the assignments of `MakeDefaultCharacterCoreState`.
unfoldable pub make_default_character_core_state : ℕ → ℕ → CharacterCoreState
make_default_character_core_state account_id char_id = record {
  identity = record {
    char_id = char_id;
    account_id = account_id;
    char_name = [];
    level = 1;
    job = 0;
    tribe = 0;
  };
  appearance = record {
    appearance_code = 0;
    gender = 0;
    face_style = 0;
    hair_style = 0;
    hair_color = 0;
  };
  equip = record {
    weapon_template_id = 0;
    armor_template_id = 0;
    costume_template_id = 0;
    accessory_template_id = 0;
  };
  combat_stats = make_default_character_combat_runtime_stats;
  hot = record {
    resources = record {
      current_hp = 100;
      max_hp = 100;
      current_mp = 100;
      max_mp = 100;
      gold = 1000;
    };
    position = record { map_id = 1; zone_id = 1; x = pos 0; y = pos 0; z = pos 0; heading = pos 0 };
    alive = true;
    in_world = false;
    version = 0;
    dirty_flags = dirty_none;
  };
}
