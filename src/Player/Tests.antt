-- ===== src/Player/Tests.antt =====
-- Concrete players that the theorems about the actor apply to.
use new_server.Prelude.{
  ℕ, zero, suc, ◌+◌, ◌-◌, ◌*◌, ◌/◌, ◌%◌, ◌≤◌, ◌<◌, max, ◌≡◌, refl, ap, ◌≢◌, ◌⊎◌, true, false, ◌||◌,
  some, List, [], ◌∷◌, arith, length, Map, empty, put, if◌then◌else◌, ◌==◌, u32_mod, nat_eq,
}
use new_server.Prelude.Int.{ℤ, pos}
use new_server.Character.State.{CharacterCoreState, make_default_character_core_state}
use new_server.Character.Combat.{
  job_defense_bonus, level_defense_bonus, tribe_attack_bonus, job_attack_bonus, level_attack_bonus,
  job_mp_bonus, level_mana_bonus, job_hp_bonus, level_life_bonus, accumulate_from_template,
  LegacyLevelTable, ItemTemplate, build_item_stat_bonus, recompute_combat_stats,
}
use new_server.Character.Combat.Bounds.{entry, recompute-bare}
use new_server.Character.Combat.Worn.{is_known, all_slots, recompute-worn}
use new_server.Player.{PlayerActor, new_player}
use new_server.Player.Moves.{bind_session, unbind_session, has_session}
use new_server.Player.Loot.{add_item, can_add_item, commit_loot, contains_tx, has_item}
use new_server.Player.Loot.Limit.{add_item_limit}
use new_server.Player.Loot.Grants.{Granted, commit_loot-Granted}
use new_server.Player.Loot.Once.{gold_of, commit_twice, commit_paid_twice}
use new_server.Player.Capped.{IsMirrored}
use new_server.Player.Calls.{Call, run_calls, calls-IsMirrored}
use new_server.Player.Sessions.{late_disconnect}
use new_server.Player.Persist.{
  DemoCharState, Fits, serialize_demo, try_deserialize_demo, try_deserialize-serialize,
}

abbrev no_levels : LegacyLevelTable
no_levels = record { loaded = false; entries = [] }

-- The item 9 is known.
abbrev sword : ItemTemplate
sword = record {
  item_id = 9;
  equip_part = pos 1;
  equip_tribe = pos 0;
  attack = pos 12;
  defense = pos 0;
  life = pos 0;
  mana = pos 0;
  vitality = pos 0;
  ki = pos 0;
}

abbrev one_item : Map ℕ ItemTemplate
one_item = put empty 9 sword

abbrev a_player : PlayerActor
a_player = new_player 71

a_player-IsMirrored : IsMirrored a_player
a_player-IsMirrored = IsMirrored.fresh refl refl refl

abbrev some_calls : List Call
some_calls =
    Call.bind 1 5
    ∷ Call.current_hp 500
    ∷ Call.loot 8 9 2 50
    ∷ Call.alive false
    ∷ Call.unbind 1 5
    ∷ []

calls-IsMirrored_example : IsMirrored (run_calls no_levels one_item a_player some_calls)
calls-IsMirrored_example =
    calls-IsMirrored no_levels one_item a_player some_calls a_player-IsMirrored

commit_twice_example :
    commit_loot (commit_loot a_player 8 9 2 50) 8 9 2 50 ≡ commit_loot a_player 8 9 2 50
commit_twice_example = commit_twice a_player 8 9 2 50 9 2 50 (λ e. omega arith) (omega arith)

-- A set of committed transactions, all of id 1.
repeat_tx : ℕ → List ℕ
repeat_tx zero = []
repeat_tx (suc n) = 1 ∷ repeat_tx n

length-repeat_tx : (n : ℕ) → length (repeat_tx n) ≡ n
unfolding repeat_tx
length-repeat_tx zero = refl
length-repeat_tx (suc n) = ap suc (length-repeat_tx n)

fresh_tx : (n : ℕ) → contains_tx (repeat_tx n) 8 ≡ false
unfolding repeat_tx contains_tx
fresh_tx zero = refl
fresh_tx (suc n) = fresh_tx n

abbrev full_player : PlayerActor
full_player = record a_player { committed_loot_txs = repeat_tx 2048 }

commit_paid_twice_example :
    let once = commit_loot full_player 8 9 2 50 in
    let twice = commit_loot once 8 9 2 50 in
    (once.committed_loot_txs ≡ [])
    × (gold_of once ≡ (gold_of full_player + 50) % u32_mod)
    × (gold_of twice ≡ (gold_of once + 50) % u32_mod)
commit_paid_twice_example =
    commit_paid_twice full_player 8 9 2 50 (λ e. omega arith) (fresh_tx 2048)
      (omega (arith, length-repeat_tx 2048))

commit_loot-Granted_example :
    let q = commit_loot a_player 8 9 2 50 in
    ((◌≢◌ {A = ℕ} 8 0) × (contains_tx a_player.committed_loot_txs 8 ≡ true) × (q ≡ a_player))
    ⊎ (Granted a_player q 9 2 50
        × (((◌≡◌ {A = ℕ} 8 0) × (q.committed_loot_txs ≡ a_player.committed_loot_txs))
            ⊎ ((◌≢◌ {A = ℕ} 8 0)
                × (contains_tx a_player.committed_loot_txs 8 ≡ false)
                × (length a_player.committed_loot_txs < 2048
                    → contains_tx q.committed_loot_txs 8 ≡ true))))
commit_loot-Granted_example = commit_loot-Granted a_player 8 9 2 50

may_add : can_add_item a_player 9 2 ≡ true
unfolding can_add_item has_item
may_add = refl

add_item_limit_example : length (add_item a_player.items 9 2) ≤ 30
add_item_limit_example = add_item_limit a_player 9 2 (λ e. omega arith) (omega arith) may_add

late_disconnect_example :
    let q = bind_session (bind_session a_player 1 5) 2 6 in
    (unbind_session q 1 5 ≡ q)
    × (has_session q ≡ true)
    × (has_session (unbind_session q 2 6) ≡ false)
late_disconnect_example = late_disconnect a_player 1 5 2 6 (λ e. omega arith) (λ e. omega arith)

abbrev a_state : DemoCharState
a_state = record { char_id = 71; gold = 1050; version = 3 }

a_state-Fits : Fits a_state
a_state-Fits = record { char_id = omega arith; gold = omega arith; version = omega arith }

try_deserialize-serialize_example : try_deserialize_demo (serialize_demo a_state) ≡ some a_state
try_deserialize-serialize_example = try_deserialize-serialize a_state a_state-Fits

abbrev a_core : CharacterCoreState
a_core = make_default_character_core_state 70 71

abbrev worn : ℕ → ℕ → ℕ
worn item_id bonus = if item_id == 0 then 0 else bonus

-- The sword in one slot, an unknown item in another.
abbrev armed : CharacterCoreState
armed = record a_core {
  equip = record (a_core.equip) { weapon_template_id = 9; armor_template_id = 4 };
}

recompute-worn_example :
    let e = armed.equip in
    let job = armed.identity.job in
    let tribe = armed.identity.tribe in
    let level = max 1 armed.identity.level in
    let stats = recompute_combat_stats no_levels one_item armed in
    let known =
      ((is_known one_item e.weapon_template_id || is_known one_item e.armor_template_id)
        || is_known one_item e.costume_template_id)
      || is_known one_item e.accessory_template_id in
    let from : (ItemTemplate → ℤ) → ℕ → ℕ =
      λ part fallback. if known then all_slots one_item part e % u32_mod else fallback in
    (stats.max_hp
      ≡ (100
          + level_life_bonus no_levels level tribe
          + job_hp_bonus job
          + from (λ t. t.life) (worn e.armor_template_id 25))
        % u32_mod)
    × (stats.max_mp
        ≡ (100
            + level_mana_bonus no_levels level tribe
            + job_mp_bonus job
            + from (λ t. t.mana) (worn e.accessory_template_id 15))
          % u32_mod)
    × (stats.atk
        ≡ (20
            + level_attack_bonus no_levels level tribe
            + job_attack_bonus job
            + tribe_attack_bonus tribe
            + from (λ t. t.attack) (worn e.weapon_template_id 5 + worn e.accessory_template_id 1))
          % u32_mod)
    × (stats.def
        ≡ (3
            + level_defense_bonus no_levels level tribe
            + job_defense_bonus job
            + from (λ t. t.defense) (worn e.armor_template_id 4 + worn e.costume_template_id 1))
          % u32_mod)
recompute-worn_example = recompute-worn no_levels one_item armed

bare : (build_item_stat_bonus one_item a_core.equip).matched_template ≡ false
unfolding build_item_stat_bonus accumulate_from_template make_default_character_core_state
bare = refl

low_level : a_core.identity.level ≤ 100000000
unfolding make_default_character_core_state
low_level = omega arith

recompute-bare_example :
    let stats = recompute_combat_stats no_levels one_item a_core in
    let gained = a_core.identity.level - 1 in
    let job = a_core.identity.job in
    let e = a_core.equip in
    (stats.max_hp
      ≡ 100 + gained * 6 + entry (0 ∷ 20 ∷ 10 ∷ 15 ∷ []) job + worn e.armor_template_id 25)
    × (stats.max_mp
        ≡ 100 + gained * 4 + entry (0 ∷ 5 ∷ 20 ∷ 10 ∷ []) job + worn e.accessory_template_id 15)
    × (stats.atk
        ≡ 20
          + gained
          + entry (0 ∷ 4 ∷ 2 ∷ 1 ∷ []) job
          + worn a_core.identity.tribe 1
          + (worn e.weapon_template_id 5 + worn e.accessory_template_id 1))
    × (stats.def
        ≡ 3
          + gained / 2
          + entry (0 ∷ 1 ∷ 2 ∷ 4 ∷ []) job
          + (worn e.armor_template_id 4 + worn e.costume_template_id 1))
recompute-bare_example = recompute-bare no_levels one_item a_core refl low_level bare
