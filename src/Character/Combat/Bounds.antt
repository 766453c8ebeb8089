-- ===== src/Character/Combat/Bounds.antt =====
-- The combat stats without a table or templates, and their bounds.
use new_server.Prelude.{
  ℕ, ◌+◌, ◌-◌, ◌*◌, ◌/◌, ◌≤◌, ◌<◌, max, ◌≡◌, false, List, [], ◌∷◌, arith, Map, if◌then◌else◌, ◌==◌,
  nat_eq,
}
use new_server.Character.State.{CharacterCoreState, EquipSummary}
use new_server.Character.Combat.{
  build_item_stat_bonus, ItemTemplate, find_level, LegacyLevelTable, fallback_equip_defense_bonus,
  level_defense_bonus, job_defense_bonus, level_attack_bonus, job_attack_bonus,
  fallback_equip_attack_bonus, job_mp_bonus, fallback_equip_mp_bonus, level_mana_bonus,
  job_hp_bonus, recompute_combat_stats, tribe_attack_bonus, fallback_equip_hp_bonus,
  level_life_bonus,
}

job_bounds :
    (job : ℕ)
    → (job_hp_bonus job ≤ 20)
      × (job_mp_bonus job ≤ 20)
      × (job_attack_bonus job ≤ 4)
      × (job_defense_bonus job ≤ 4)
unfolding job_hp_bonus job_mp_bonus job_attack_bonus job_defense_bonus
job_bounds job = ground arith

tribe_bound : (tribe : ℕ) → tribe_attack_bonus tribe ≤ 1
unfolding tribe_attack_bonus
tribe_bound tribe = ground arith

equip_bounds :
    (equip : EquipSummary)
    → (fallback_equip_hp_bonus equip ≤ 25)
      × (fallback_equip_mp_bonus equip ≤ 15)
      × (fallback_equip_attack_bonus equip ≤ 6)
      × (fallback_equip_defense_bonus equip ≤ 5)
unfolding fallback_equip_hp_bonus fallback_equip_mp_bonus fallback_equip_attack_bonus
    fallback_equip_defense_bonus
equip_bounds equip = ground arith

level_bonus-unloaded :
    (levels : LegacyLevelTable) (level tribe : ℕ)
    → levels.loaded ≡ false
    → level ≤ 100000000
    → 0 < level
    → (level_life_bonus levels level tribe ≡ (level - 1) * 6)
      × (level_mana_bonus levels level tribe ≡ (level - 1) * 4)
      × (level_attack_bonus levels level tribe ≡ level - 1)
      × (level_defense_bonus levels level tribe ≡ (level - 1) / 2)
unfolding level_life_bonus level_mana_bonus level_attack_bonus level_defense_bonus find_level
level_bonus-unloaded levels level tribe unloaded small has =
    rw (unloaded, find_level) (ground arith, ground arith, ground arith, ground arith)

-- The row of a job in a table, 0 past its end.
unfoldable pub entry : List ℕ → ℕ → ℕ
entry [] n = 0
entry (x ∷ xs) n = let rest = entry xs (n - 1) in if n == 0 then x else rest

job_tables :
    (job : ℕ)
    → (job_hp_bonus job ≡ entry (0 ∷ 20 ∷ 10 ∷ 15 ∷ []) job)
      × (job_mp_bonus job ≡ entry (0 ∷ 5 ∷ 20 ∷ 10 ∷ []) job)
      × (job_attack_bonus job ≡ entry (0 ∷ 4 ∷ 2 ∷ 1 ∷ []) job)
      × (job_defense_bonus job ≡ entry (0 ∷ 1 ∷ 2 ∷ 4 ∷ []) job)
unfolding job_hp_bonus job_mp_bonus job_attack_bonus job_defense_bonus entry
job_tables job = (ground arith, ground arith, ground arith, ground arith)

-- Where no level table is loaded, none of the four slots holds a known item and the level is at most
-- 100,000,000: each stat is the plain sum of its base, 6, 4, 1 or a half for each level above 1, the
-- row of the job, 1 attack for a tribe other than 0 and the fixed bonuses of the slots in use; no sum
-- wraps.
pub recompute-bare :
    (levels : LegacyLevelTable) (items : Map ℕ ItemTemplate) (core : CharacterCoreState)
    → levels.loaded ≡ false
    → core.identity.level ≤ 100000000
    → (build_item_stat_bonus items core.equip).matched_template ≡ false
    → let stats = recompute_combat_stats levels items core in
      let gained = core.identity.level - 1 in
      let job = core.identity.job in
      let e = core.equip in
      let worn : ℕ → ℕ → ℕ = λ item_id bonus. if item_id == 0 then 0 else bonus in
      (stats.max_hp
        ≡ 100 + gained * 6 + entry (0 ∷ 20 ∷ 10 ∷ 15 ∷ []) job + worn e.armor_template_id 25)
      × (stats.max_mp
          ≡ 100 + gained * 4 + entry (0 ∷ 5 ∷ 20 ∷ 10 ∷ []) job + worn e.accessory_template_id 15)
      × (stats.atk
          ≡ 20
            + gained
            + entry (0 ∷ 4 ∷ 2 ∷ 1 ∷ []) job
            + worn core.identity.tribe 1
            + (worn e.weapon_template_id 5 + worn e.accessory_template_id 1))
      × (stats.def
          ≡ 3
            + gained / 2
            + entry (0 ∷ 1 ∷ 2 ∷ 4 ∷ []) job
            + (worn e.armor_template_id 4 + worn e.costume_template_id 1))
unfolding recompute_combat_stats fallback_equip_hp_bonus fallback_equip_mp_bonus
    fallback_equip_attack_bonus fallback_equip_defense_bonus tribe_attack_bonus
recompute-bare levels items core unloaded small unmatched =
    let level = max 1 core.identity.level in
    let jobs = job_bounds core.identity.job in
    let table = job_tables core.identity.job in
    let worn = equip_bounds core.equip in
    let small' : level ≤ 100000000 = omega arith in
    let has : 0 < level = omega arith in
    let gain : level - 1 ≡ core.identity.level - 1 = omega arith in
    let bonus = level_bonus-unloaded levels level core.identity.tribe unloaded small' has in
    let tribe = tribe_bound core.identity.tribe in
    rw
      (
        unmatched,
        bonus.0,
        bonus.1,
        bonus.2,
        bonus.3,
        gain,
        ← table.0,
        ← table.1,
        ← table.2,
        ← table.3,
      )
      (
        omega (arith, jobs.0, worn.0),
        omega (arith, jobs.1, worn.1),
        omega (arith, jobs.2, worn.2, tribe),
        omega (arith, jobs.3, worn.3),
      )
