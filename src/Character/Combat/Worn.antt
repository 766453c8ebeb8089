-- ===== src/Character/Combat/Worn.antt =====
-- What the items that a character wears add to its combat stats.
use new_server.Prelude.{
  ℕ, ◌+◌, ◌%◌, ◌<◌, max, ◌≡◌, refl, ap, ◌∙◌, inl, inr, Bool, true, false, ◌&&◌, ◌||◌, not, none,
  some, arith, Map, if◌then◌else◌, ◌==◌, Bool-cases, Option-cases, u32_mod, nat_eq,
}
use new_server.Character.State.{CharacterCoreState, EquipSummary}
use new_server.Character.Combat.{
  job_defense_bonus, level_defense_bonus, tribe_attack_bonus, job_attack_bonus, level_attack_bonus,
  job_mp_bonus, level_mana_bonus, job_hp_bonus, level_life_bonus, LegacyLevelTable,
  fallback_equip_defense_bonus, fallback_equip_attack_bonus, fallback_equip_mp_bonus,
  fallback_equip_hp_bonus, recompute_combat_stats, positive, no_bonus, ItemStatBonus, ItemTemplate,
  accumulate_from_template, build_item_stat_bonus,
}
use new_server.Prelude.Int.{ℤ, pos, negsuc, pos_part}

-- Whether an item is worn and the repository knows it.
unfoldable pub is_known : Map ℕ ItemTemplate → ℕ → Bool
is_known items item_id = not (item_id == 0) && elim (items item_id) [ none ↦ false | some t ↦ true ]

or_false : (b : Bool) → b ≡ (b || false)
or_false true = refl
or_false false = refl

or_true : (b : Bool) → true ≡ (b || true)
or_true true = refl
or_true false = refl

accumulate-matched :
    (items : Map ℕ ItemTemplate) (out : ItemStatBonus) (item_id : ℕ)
    → (accumulate_from_template items out item_id).matched_template
      ≡ (out.matched_template || is_known items item_id)
unfolding accumulate_from_template is_known
accumulate-matched items out item_id = elim (Bool-cases (item_id == 0)) [
  | inl e ↦ rw e (or_false out.matched_template)
  | inr e ↦ elim (Option-cases (items item_id)) [
    | inl h ↦ rw (e, h, accumulate_from_template, is_known) (or_false out.matched_template)
    | inr (t, h) ↦ rw (e, h, accumulate_from_template, is_known) (or_true out.matched_template)
  ]
]

build-matched :
    (items : Map ℕ ItemTemplate) (equip : EquipSummary)
    → (build_item_stat_bonus items equip).matched_template ≡ (
        ((is_known items equip.weapon_template_id || is_known items equip.armor_template_id)
          || is_known items equip.costume_template_id)
        || is_known items equip.accessory_template_id)
unfolding build_item_stat_bonus
build-matched items equip =
    let weapon = accumulate_from_template items no_bonus equip.weapon_template_id in
    let armor = accumulate_from_template items weapon equip.armor_template_id in
    let costume = accumulate_from_template items armor equip.costume_template_id in
    let known = is_known items in
    accumulate-matched items costume equip.accessory_template_id
    ∙ ap (λ b. b || known equip.accessory_template_id)
        (accumulate-matched items armor equip.costume_template_id
          ∙ ap (λ b. b || known equip.costume_template_id)
              (accumulate-matched items weapon equip.armor_template_id
                ∙ ap (λ b. b || known equip.armor_template_id)
                    (accumulate-matched items no_bonus equip.weapon_template_id)))

-- What a template adds to a stat: nothing where its value is negative.
unfoldable pub slot : Map ℕ ItemTemplate → (ItemTemplate → ℤ) → ℕ → ℕ
slot items part item_id =
    if item_id == 0 then 0 else elim (items item_id) [ none ↦ 0 | some t ↦ pos_part (part t) ]

-- The four slots together.
abbrev pub all_slots : Map ℕ ItemTemplate → (ItemTemplate → ℤ) → EquipSummary → ℕ
all_slots items part equip =
    slot items part equip.weapon_template_id
    + slot items part equip.armor_template_id
    + slot items part equip.costume_template_id
    + slot items part equip.accessory_template_id

positive_part : (v : ℤ) → positive v ≡ pos_part v
unfolding positive
positive_part (pos n) = ground arith
positive_part (negsuc n) = ground arith

module _ (items : Map ℕ ItemTemplate) where
  -- One slot adds its part to a stat that fits in 32 bits.
  abbrev Adds : (ItemStatBonus → ℕ) → (ItemTemplate → ℤ) → Type 0
  Adds stat part =
      (out : ItemStatBonus) (item_id : ℕ)
      → stat out < u32_mod
      → stat (accumulate_from_template items out item_id)
        ≡ (stat out + slot items part item_id) % u32_mod

  slot_added :
      (stat : ItemStatBonus → ℕ) (part : ItemTemplate → ℤ)
      → ((out : ItemStatBonus) (item_id : ℕ) (t : ItemTemplate)
          → (item_id == 0) ≡ false
          → items item_id ≡ some t
          → stat (accumulate_from_template items out item_id)
            ≡ (stat out + positive (part t)) % u32_mod)
      → Adds stat part
  unfolding accumulate_from_template slot
  slot_added stat part known out item_id fits = elim (Bool-cases (item_id == 0)) [
    | inl e ↦ rw e (omega (arith, fits))
    | inr e ↦ elim (Option-cases (items item_id)) [
      | inl h ↦ rw (e, h, accumulate_from_template, slot) (omega (arith, fits))
      | inr (t, h) ↦
          known out item_id t e h
          ∙ rw (e, h, slot) (ap (λ n. (stat out + n) % u32_mod) (positive_part (part t)))
    ]
  ]

  attack-Adds : Adds (λ b. b.attack) (λ t. t.attack)
  unfolding accumulate_from_template
  attack-Adds = slot_added _ _ (λ out item_id t e h. rw (e, h, accumulate_from_template) refl)

  defense-Adds : Adds (λ b. b.defense) (λ t. t.defense)
  unfolding accumulate_from_template
  defense-Adds = slot_added _ _ (λ out item_id t e h. rw (e, h, accumulate_from_template) refl)

  life-Adds : Adds (λ b. b.life) (λ t. t.life)
  unfolding accumulate_from_template
  life-Adds = slot_added _ _ (λ out item_id t e h. rw (e, h, accumulate_from_template) refl)

  mana-Adds : Adds (λ b. b.mana) (λ t. t.mana)
  unfolding accumulate_from_template
  mana-Adds = slot_added _ _ (λ out item_id t e h. rw (e, h, accumulate_from_template) refl)

  build-all :
      (stat : ItemStatBonus → ℕ) (part : ItemTemplate → ℤ) (equip : EquipSummary)
      → stat no_bonus ≡ 0
      → Adds stat part
      → stat (build_item_stat_bonus items equip) ≡ all_slots items part equip % u32_mod
  unfolding build_item_stat_bonus
  build-all stat part equip starts adds =
      let weapon = accumulate_from_template items no_bonus equip.weapon_template_id in
      let armor = accumulate_from_template items weapon equip.armor_template_id in
      let costume = accumulate_from_template items armor equip.costume_template_id in
      let w = adds no_bonus equip.weapon_template_id (omega (arith, starts)) in
      let a = adds weapon equip.armor_template_id (omega (arith, w)) in
      let c = adds armor equip.costume_template_id (omega (arith, a)) in
      omega (arith, starts, w, a, c, adds costume equip.accessory_template_id (omega (arith, c)))

-- The stats of a character, whatever the level table and the templates: where one of the four slots
-- holds an item that the repository knows, the parts of the known items are added, negative ones as 0,
-- and nothing for the others; else 5 or 1 to the attack for a weapon or an accessory, 4 or 1 to the
-- defense for an armor or a costume, 25 hp for an armor and 15 mp for an accessory.
pub recompute-worn :
    (levels : LegacyLevelTable) (items : Map ℕ ItemTemplate) (core : CharacterCoreState)
    → let e = core.equip in
      let job = core.identity.job in
      let tribe = core.identity.tribe in
      let level = max 1 core.identity.level in
      let stats = recompute_combat_stats levels items core in
      let worn : ℕ → ℕ → ℕ = λ item_id bonus. if item_id == 0 then 0 else bonus in
      let known =
        ((is_known items e.weapon_template_id || is_known items e.armor_template_id)
          || is_known items e.costume_template_id)
        || is_known items e.accessory_template_id in
      let from : (ItemTemplate → ℤ) → ℕ → ℕ =
        λ part fallback. if known then all_slots items part e % u32_mod else fallback in
      (stats.max_hp
        ≡ (100
            + level_life_bonus levels level tribe
            + job_hp_bonus job
            + from (λ t. t.life) (worn e.armor_template_id 25))
          % u32_mod)
      × (stats.max_mp
          ≡ (100
              + level_mana_bonus levels level tribe
              + job_mp_bonus job
              + from (λ t. t.mana) (worn e.accessory_template_id 15))
            % u32_mod)
      × (stats.atk
          ≡ (20
              + level_attack_bonus levels level tribe
              + job_attack_bonus job
              + tribe_attack_bonus tribe
              + from (λ t. t.attack) (worn e.weapon_template_id 5 + worn e.accessory_template_id 1))
            % u32_mod)
      × (stats.def
          ≡ (3
              + level_defense_bonus levels level tribe
              + job_defense_bonus job
              + from (λ t. t.defense) (worn e.armor_template_id 4 + worn e.costume_template_id 1))
            % u32_mod)
unfolding recompute_combat_stats fallback_equip_hp_bonus fallback_equip_mp_bonus
    fallback_equip_attack_bonus fallback_equip_defense_bonus
recompute-worn levels items core =
    let e = core.equip in
    rw
      (
        build-matched items e,
        build-all items (λ b. b.life) (λ t. t.life) e refl (life-Adds items),
        build-all items (λ b. b.mana) (λ t. t.mana) e refl (mana-Adds items),
        build-all items (λ b. b.attack) (λ t. t.attack) e refl (attack-Adds items),
        build-all items (λ b. b.defense) (λ t. t.defense) e refl (defense-Adds items),
      )
      (refl, refl, refl, refl)
