-- ===== src/Player/Calls.antt =====
-- The methods of the actor that write it, as calls, and sequences of them.
use new_server.Prelude.{
  ℕ, min, ◌≡◌, refl, inl, inr, Bool, true, false, ◌&&◌, ◌||◌, not, List, [], ◌∷◌, Map, ◌==◌,
  Bool-cases, nat_eq,
}
use new_server.Prelude.Int.{ℤ}
use new_server.Character.State.{CharacterCombatRuntimeStats, EquipSummary}
use new_server.Character.Combat.{LegacyLevelTable, ItemTemplate}
use new_server.Player.{
  mark_dirty, sync_projection_from_core_state, PlayerActor, mutable_core_state, mark_hot_dirty,
  sync_combat_projection_from_authoritative, apply_combat_runtime_stats,
  recompute_combat_runtime_stats, on_equipment_summary_changed, on_combat_identity_changed,
  set_in_world, set_alive, set_current_hp, set_current_mp, add_gold,
}
use new_server.Player.Moves.{set_world_position, clear_world_position, bind_session, unbind_session}
use new_server.Player.Loot.{remember_tx, contains_tx, add_item, commit_loot, grant_loot}
use new_server.Player.Capped.{
  mark_dirty-IsMirrored, resync-IsMirrored, IsMirrored, fresh, kept, mutable_core_state-IsCapped,
  clamp_current-IsCapped, sync-IsMirrored, marked-IsCapped, not_alive, set_in_world-IsMirrored,
  set_alive-IsMirrored, set_current_hp-IsMirrored, set_current_mp-IsMirrored, add_gold-IsMirrored,
  set_world_position-IsMirrored, clear_world_position-IsMirrored,
}

-- The actor whose combat projection shows the stats.
abbrev shown : PlayerActor → CharacterCombatRuntimeStats → PlayerActor
shown p stats = record p {
  combat = record (p.combat) { max_hp = stats.max_hp; atk = stats.atk; def = stats.def };
}

apply-IsMirrored :
    (p : PlayerActor) (stats : CharacterCombatRuntimeStats) (clamp : Bool)
    → ((mutable_core_state p).hot.alive ≡ false
        → (mutable_core_state p).hot.resources.current_hp ≡ 0)
    → IsMirrored (apply_combat_runtime_stats p stats clamp)
unfolding apply_combat_runtime_stats sync_combat_projection_from_authoritative
apply-IsMirrored p stats true dead = sync-IsMirrored (shown p stats) _ (
    clamp_current-IsCapped _
      (not_alive (min (mutable_core_state p).hot.resources.current_hp stats.max_hp)))
apply-IsMirrored p stats false dead =
    sync-IsMirrored (shown p stats) _ (clamp_current-IsCapped _ dead)

module _ (p : PlayerActor) (v : IsMirrored p) where
  bind_session-IsMirrored : (sid serial : ℕ) → IsMirrored (bind_session p sid serial)
  unfolding bind_session
  bind_session-IsMirrored sid serial = elim v [
    | fresh e hp gold ↦ rw (e, bind_session) (fresh e hp gold)
    | kept core e k hp gold ↦
        rw (e, bind_session)
          (sync-IsMirrored (record p { sid = sid; serial = serial; online = true }) _
            (record { hp = k.hp; mp = k.mp; dead = k.dead }))
  ]

  unbind_session-IsMirrored : (sid serial : ℕ) → IsMirrored (unbind_session p sid serial)
  unfolding unbind_session mark_hot_dirty
  unbind_session-IsMirrored sid serial =
      elim (Bool-cases (not (p.sid == sid) || not (p.serial == serial))) [
        | inl stale ↦ rw stale v
        | inr same ↦ elim v [
          | fresh e hp gold ↦ rw same (rw (e, unbind_session) (fresh e hp gold))
          | kept core e k hp gold ↦ rw same (
              rw (e, unbind_session)
                (kept _ refl (marked-IsCapped core _ _ k.hp k.mp k.dead) hp gold))
        ]
      ]

  recompute-IsMirrored :
      (levels : LegacyLevelTable) (items : Map ℕ ItemTemplate)
      → IsMirrored (recompute_combat_runtime_stats levels items p)
  unfolding recompute_combat_runtime_stats mutable_core_state
  recompute-IsMirrored levels items =
      apply-IsMirrored _ _ true (mutable_core_state-IsCapped p v).dead

  on_equipment-IsMirrored :
      (levels : LegacyLevelTable) (items : Map ℕ ItemTemplate) (equip : EquipSummary)
      → IsMirrored (on_equipment_summary_changed levels items p equip)
  unfolding on_equipment_summary_changed recompute_combat_runtime_stats mutable_core_state
  on_equipment-IsMirrored levels items equip =
      apply-IsMirrored _ _ true (mutable_core_state-IsCapped p v).dead

  on_identity-IsMirrored :
      (levels : LegacyLevelTable) (items : Map ℕ ItemTemplate) (job tribe : ℕ)
      → IsMirrored (on_combat_identity_changed levels items p job tribe)
  unfolding on_combat_identity_changed recompute_combat_runtime_stats mutable_core_state
  on_identity-IsMirrored levels items job tribe =
      apply-IsMirrored _ _ true (mutable_core_state-IsCapped p v).dead

items-IsMirrored :
    (p : PlayerActor) (items : List (ℕ × ℕ))
    → IsMirrored p
    → IsMirrored (record p { items = items })
items-IsMirrored p items (fresh e hp gold) = fresh e hp gold
items-IsMirrored p items (kept core e k hp gold) = kept core e k hp gold

txs-IsMirrored :
    (p : PlayerActor) (txs : List ℕ)
    → IsMirrored p
    → IsMirrored (record p { committed_loot_txs = txs })
txs-IsMirrored p txs (fresh e hp gold) = fresh e hp gold
txs-IsMirrored p txs (kept core e k hp gold) = kept core e k hp gold

grant-IsMirrored :
    (p : PlayerActor) (item_id count gold : ℕ)
    → IsMirrored p
    → IsMirrored (grant_loot p item_id count gold)
unfolding grant_loot
grant-IsMirrored p item_id count gold v =
    elim (Bool-cases (not (item_id == 0) && not (count == 0))) [
      | inl e ↦
          let with_items = add_item p.items item_id count in
          rw e (
            add_gold-IsMirrored (record p { items = with_items }) (items-IsMirrored p with_items v)
              gold)
      | inr e ↦ rw e (add_gold-IsMirrored p v gold)
    ]

commit-IsMirrored :
    (p : PlayerActor) (tx_id item_id count gold : ℕ)
    → IsMirrored p
    → IsMirrored (commit_loot p tx_id item_id count gold)
unfolding commit_loot
commit-IsMirrored p tx_id item_id count gold v = elim (Bool-cases (tx_id == 0)) [
  | inl e ↦ rw e (grant-IsMirrored p item_id count gold v)
  | inr e ↦ elim (Bool-cases (contains_tx p.committed_loot_txs tx_id)) [
    | inl old ↦ rw (e, old) v
    | inr new ↦
        let txs = remember_tx p.committed_loot_txs tx_id in
        rw (e, new)
          (grant-IsMirrored (record p { committed_loot_txs = txs }) item_id count gold
            (txs-IsMirrored p txs v))
  ]
]

-- A call of a method.
pub data Call : Type 0 where
  apply_stats : CharacterCombatRuntimeStats → Bool → Call
  recompute sync : Call
  dirty : ℕ → Bool → Call
  equipment_changed : EquipSummary → Call
  identity_changed : ℕ → ℕ → Call
  in_world alive : Bool → Call
  current_hp current_mp gold : ℕ → Call
  world_position : ℕ → ℕ → ℕ → ℤ → ℤ → ℤ → ℤ → Call
  no_position : Call
  bind unbind : ℕ → ℕ → Call
  loot : ℕ → ℕ → ℕ → ℕ → Call

module _ (levels : LegacyLevelTable) (items : Map ℕ ItemTemplate) where
  unfoldable pub run_call : PlayerActor → Call → PlayerActor
  run_call p (apply_stats stats clamp) = apply_combat_runtime_stats p stats clamp
  run_call p recompute = recompute_combat_runtime_stats levels items p
  run_call p sync = sync_projection_from_core_state p
  run_call p (dirty flag bump_version) = mark_dirty p flag bump_version
  run_call p (equipment_changed equip) = on_equipment_summary_changed levels items p equip
  run_call p (identity_changed job tribe) = on_combat_identity_changed levels items p job tribe
  run_call p (in_world b) = set_in_world p b
  run_call p (alive b) = set_alive p b
  run_call p (current_hp hp) = set_current_hp p hp
  run_call p (current_mp mp) = set_current_mp p mp
  run_call p (gold amount) = add_gold p amount
  run_call p (world_position z m i x y h d) = set_world_position p z m i x y h d
  run_call p no_position = clear_world_position p
  run_call p (bind sid serial) = bind_session p sid serial
  run_call p (unbind sid serial) = unbind_session p sid serial
  run_call p (loot tx_id item_id count amount) = commit_loot p tx_id item_id count amount

  unfoldable pub run_calls : PlayerActor → List Call → PlayerActor
  run_calls p [] = p
  run_calls p (call ∷ calls) = run_calls (run_call p call) calls

  run_call-IsMirrored :
      (p : PlayerActor) (call : Call) → IsMirrored p → IsMirrored (run_call p call)
  unfolding run_call
  run_call-IsMirrored p (apply_stats stats clamp) v =
      apply-IsMirrored p stats clamp (mutable_core_state-IsCapped p v).dead
  run_call-IsMirrored p recompute v = recompute-IsMirrored p v levels items
  run_call-IsMirrored p sync v = resync-IsMirrored p v
  run_call-IsMirrored p (dirty flag bump_version) v = mark_dirty-IsMirrored p v flag bump_version
  run_call-IsMirrored p (equipment_changed equip) v = on_equipment-IsMirrored p v levels items equip
  run_call-IsMirrored p (identity_changed job tribe) v =
      on_identity-IsMirrored p v levels items job tribe
  run_call-IsMirrored p (in_world b) v = set_in_world-IsMirrored p v b
  run_call-IsMirrored p (alive b) v = set_alive-IsMirrored p v b
  run_call-IsMirrored p (current_hp hp) v = set_current_hp-IsMirrored p v hp
  run_call-IsMirrored p (current_mp mp) v = set_current_mp-IsMirrored p v mp
  run_call-IsMirrored p (gold amount) v = add_gold-IsMirrored p v amount
  run_call-IsMirrored p (world_position z m i x y h d) v =
      set_world_position-IsMirrored p v z m i x y h d
  run_call-IsMirrored p no_position v = clear_world_position-IsMirrored p v
  run_call-IsMirrored p (bind sid serial) v = bind_session-IsMirrored p v sid serial
  run_call-IsMirrored p (unbind sid serial) v = unbind_session-IsMirrored p v sid serial
  run_call-IsMirrored p (loot tx_id item_id count amount) v =
      commit-IsMirrored p tx_id item_id count amount v

  -- Whatever methods are called on an actor that is mirrored: its current values stay within the
  -- caps, a dead player has no hp, and the projections of hp and gold agree with the core state.
  pub calls-IsMirrored :
      (p : PlayerActor) (calls : List Call) → IsMirrored p → IsMirrored (run_calls p calls)
  unfolding run_calls
  calls-IsMirrored p [] v = v
  calls-IsMirrored p (call ∷ calls) v =
      calls-IsMirrored (run_call p call) calls (run_call-IsMirrored p call v)
