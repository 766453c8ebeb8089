-- ===== src/Character/Combat.antt =====
-- src/services/world/common/character_combat_stat_calculator.cpp and item_stat_provider.cpp: the combat
-- stats of a character from its level, job, tribe and equipment. Sums wrap at 32 bits.
pub mod Worn
pub mod Bounds
use new_server.Prelude.{
  ℕ, ◌+◌, ◌-◌, ◌*◌, ◌/◌, ◌%◌, max, Bool, true, false, ◌||◌, not, Option, none, some, List, [], ◌∷◌,
  length, Map, ltb, leb, if◌then◌else◌, ◌==◌, u32_mod, nat_eq,
}
use new_server.Prelude.Int.{ℤ, pos, pos_part, ltb_ℤ}
use new_server.Character.State.{CharacterCoreState, CharacterCombatRuntimeStats, EquipSummary}

-- The three entries of an array that a tribe picks from.
pub record ByTribe : Type 0 where
  pub first : ℕ
  pub second : ℕ
  pub third : ℕ

pub record LegacyLevelEntry : Type 0 where
  pub valid : Bool
  pub attack : ByTribe
  pub defense : ByTribe
  pub life : ByTribe
  pub mana : ByTribe

pub record LegacyLevelTable : Type 0 where
  pub loaded : Bool
  pub entries : List LegacyLevelEntry

get_elem? {ℓ} : {A : Type ℓ} → List A → ℕ → Option A
get_elem? [] n = none
get_elem? (x ∷ xs) n = let rest = get_elem? xs (n - 1) in if n == 0 then some x else rest

valid_entry : Option LegacyLevelEntry → Option LegacyLevelEntry
valid_entry none = none
valid_entry (some row) = if row.valid then some row else none

-- `LegacyLevelTable::Find`
unfoldable pub find_level : LegacyLevelTable → ℕ → Option LegacyLevelEntry
unfolding get_elem? valid_entry
find_level table level =
    if not table.loaded || level == 0 || leb (length table.entries) level
    then none
    else valid_entry (get_elem? table.entries level)

-- An index above 2 is the first tribe.
unfoldable pub of_tribe : ByTribe → ℕ → ℕ
of_tribe a tribe = if tribe == 1 then a.second else if tribe == 2 then a.third else a.first

unfoldable pub job_attack_bonus : ℕ → ℕ
job_attack_bonus job = if job == 1 then 4 else if job == 2 then 2 else if job == 3 then 1 else 0

unfoldable pub job_defense_bonus : ℕ → ℕ
job_defense_bonus job = if job == 1 then 1 else if job == 2 then 2 else if job == 3 then 4 else 0

unfoldable pub job_hp_bonus : ℕ → ℕ
job_hp_bonus job = if job == 1 then 20 else if job == 2 then 10 else if job == 3 then 15 else 0

unfoldable pub job_mp_bonus : ℕ → ℕ
job_mp_bonus job = if job == 1 then 5 else if job == 2 then 20 else if job == 3 then 10 else 0

unfoldable pub tribe_attack_bonus : ℕ → ℕ
tribe_attack_bonus tribe = if tribe == 0 then 0 else 1

unfoldable pub level_attack_bonus : LegacyLevelTable → ℕ → ℕ → ℕ
level_attack_bonus table level tribe = elim (find_level table level) [
  | some row ↦ of_tribe row.attack tribe
  | none ↦ if ltb 0 level then level - 1 else 0
]

unfoldable pub level_defense_bonus : LegacyLevelTable → ℕ → ℕ → ℕ
level_defense_bonus table level tribe = elim (find_level table level) [
  | some row ↦ of_tribe row.defense tribe
  | none ↦ if ltb 0 level then (level - 1) / 2 else 0
]

unfoldable pub level_life_bonus : LegacyLevelTable → ℕ → ℕ → ℕ
level_life_bonus table level tribe = elim (find_level table level) [
  | some row ↦ of_tribe row.life tribe
  | none ↦ if ltb 0 level then (level - 1) * 6 % u32_mod else 0
]

unfoldable pub level_mana_bonus : LegacyLevelTable → ℕ → ℕ → ℕ
level_mana_bonus table level tribe = elim (find_level table level) [
  | some row ↦ of_tribe row.mana tribe
  | none ↦ if ltb 0 level then (level - 1) * 4 % u32_mod else 0
]

pub record ItemTemplate : Type 0 where
  pub item_id : ℕ
  pub equip_part : ℤ
  pub equip_tribe : ℤ
  pub attack : ℤ
  pub defense : ℤ
  pub life : ℤ
  pub mana : ℤ
  pub vitality : ℤ
  pub ki : ℤ

pub record ItemStatBonus : Type 0 where
  pub matched_template : Bool
  pub attack : ℕ
  pub defense : ℕ
  pub life : ℕ
  pub mana : ℕ

abbrev pub no_bonus : ItemStatBonus
no_bonus = record { matched_template = false; attack = 0; defense = 0; life = 0; mana = 0 }

-- `value > 0 ? value : 0`
pub positive : ℤ → ℕ
positive value = if ltb_ℤ (pos 0) value then pos_part value else 0

-- The templates of the repository, by item id.
unfoldable pub accumulate_from_template : Map ℕ ItemTemplate → ItemStatBonus → ℕ → ItemStatBonus
unfolding positive
accumulate_from_template items out item_id = if item_id == 0 then out else elim (items item_id) [
  | none ↦ out
  | some templ ↦ record {
    matched_template = true;
    attack = (out.attack + positive templ.attack) % u32_mod;
    defense = (out.defense + positive templ.defense) % u32_mod;
    life = (out.life + positive templ.life) % u32_mod;
    mana = (out.mana + positive templ.mana) % u32_mod;
  }
]

unfoldable pub build_item_stat_bonus : Map ℕ ItemTemplate → EquipSummary → ItemStatBonus
build_item_stat_bonus items equip =
    let weapon = accumulate_from_template items no_bonus equip.weapon_template_id in
    let armor = accumulate_from_template items weapon equip.armor_template_id in
    let costume = accumulate_from_template items armor equip.costume_template_id in
    accumulate_from_template items costume equip.accessory_template_id

unfoldable pub fallback_equip_attack_bonus : EquipSummary → ℕ
fallback_equip_attack_bonus equip =
    (if equip.weapon_template_id == 0 then 0 else 5)
    + (if equip.accessory_template_id == 0 then 0 else 1)

unfoldable pub fallback_equip_defense_bonus : EquipSummary → ℕ
fallback_equip_defense_bonus equip =
    (if equip.armor_template_id == 0 then 0 else 4)
    + (if equip.costume_template_id == 0 then 0 else 1)

unfoldable pub fallback_equip_hp_bonus : EquipSummary → ℕ
fallback_equip_hp_bonus equip = if equip.armor_template_id == 0 then 0 else 25

unfoldable pub fallback_equip_mp_bonus : EquipSummary → ℕ
fallback_equip_mp_bonus equip = if equip.accessory_template_id == 0 then 0 else 15

unfoldable pub recompute_combat_stats :
    LegacyLevelTable → Map ℕ ItemTemplate → CharacterCoreState → CharacterCombatRuntimeStats
recompute_combat_stats levels items core =
    let safe_level = max 1 core.identity.level in
    let tribe = core.identity.tribe in
    let job = core.identity.job in
    let bonus = build_item_stat_bonus items core.equip in
    let matched = bonus.matched_template in
    record {
      max_hp =
          (100
            + level_life_bonus levels safe_level tribe
            + job_hp_bonus job
            + (if matched then bonus.life else fallback_equip_hp_bonus core.equip))
          % u32_mod;
      max_mp =
          (100
            + level_mana_bonus levels safe_level tribe
            + job_mp_bonus job
            + (if matched then bonus.mana else fallback_equip_mp_bonus core.equip))
          % u32_mod;
      atk =
          (20
            + level_attack_bonus levels safe_level tribe
            + job_attack_bonus job
            + tribe_attack_bonus tribe
            + (if matched then bonus.attack else fallback_equip_attack_bonus core.equip))
          % u32_mod;
      def =
          (3
            + level_defense_bonus levels safe_level tribe
            + job_defense_bonus job
            + (if matched then bonus.defense else fallback_equip_defense_bonus core.equip))
          % u32_mod;
    }
