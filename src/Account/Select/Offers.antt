-- ===== src/Account/Select/Offers.antt =====
-- Which worlds a client is offered, and what it is shown of each.
use new_server.Prelude.{
  ℕ, ◌/◌, ◌%◌, ◌≡◌, refl, ◌≢◌, ◌↔◌, inl, inr, true, false, none, some, List, [], ◌∷◌, map, arith,
  is_empty, Bool-cases, Option-cases,
}
use new_server.Account.Messages.{WorldSummary}
use new_server.Account.Registry.{WorldRegistry, is_world_selectable}
use new_server.Account.Types.{RegisteredWorldEndpoint}
use new_server.Account.Select.{selectable_routes, summary_of}

-- An endpoint that a client may be sent to: it is ready, has an address, is visible
-- and accepts players.
pub record Selectable (e : RegisteredWorldEndpoint) : Type 0 where
  pub is_ready : e.ready ≡ true
  pub has_host : e.public_host ≢ []
  pub has_port : e.public_port ≢ 0
  pub accepts_players : e.flags % 2 ≢ 0
  pub is_visible : e.flags / 2 % 2 ≢ 0

-- What a summary shows of an endpoint.
pub record Shows (e : RegisteredWorldEndpoint) (s : WorldSummary) : Type 0 where
  pub world : s.world_id ≡ e.world_id
  pub no_channel : s.channel_id ≡ 0
  pub load : s.load_score ≡ e.load_score
  pub zones : s.active_zone_count ≡ e.active_zone_count
  pub port : s.public_port ≡ e.public_port
  pub flags : s.flags ≡ e.flags

-- The summaries of a visit: one for each sid whose endpoint is selectable, in the visit's order.
pub data Offers (w : WorldRegistry) : List ℕ → List WorldSummary → Type 0 where
  nothing : Offers w [] []
  no_route :
      (sid : ℕ) (order : List ℕ) (xs : List WorldSummary)
      → w.worlds_by_sid sid ≡ none
      → Offers w order xs
      → Offers w (sid ∷ order) xs
  held_back :
      (sid : ℕ) (e : RegisteredWorldEndpoint) (order : List ℕ) (xs : List WorldSummary)
      → w.worlds_by_sid sid ≡ some e
      → ¬ Selectable e
      → Offers w order xs
      → Offers w (sid ∷ order) xs
  offered :
      (sid : ℕ) (e : RegisteredWorldEndpoint) (s : WorldSummary) (order : List ℕ)
      (xs : List WorldSummary)
      → w.worlds_by_sid sid ≡ some e
      → Selectable e
      → Shows e s
      → Offers w order xs
      → Offers w (sid ∷ order) (s ∷ xs)

is_empty-false : {A : Type 0} (xs : List A) → (is_empty xs ≡ false) ↔ (xs ≢ [])
is_empty-false [] = ((λ h. absurd cc), λ h. absurd (h refl))
is_empty-false (x ∷ xs) = ((λ h e. cc), λ h. refl)

is_world_selectable-Selectable :
    (e : RegisteredWorldEndpoint) → is_world_selectable e ≡ true → Selectable e
unfolding is_world_selectable
is_world_selectable-Selectable e h = record {
  is_ready = ground arith;
  has_host = (is_empty-false e.public_host).0 (ground arith);
  has_port = ground arith;
  accepts_players = ground arith;
  is_visible = ground arith;
}

unselectable : (e : RegisteredWorldEndpoint) → is_world_selectable e ≡ false → ¬ Selectable e
unfolding is_world_selectable
unselectable e h s =
    let some_host = (is_empty-false e.public_host).1 s.has_host in
    ground (arith, some_host, s.is_ready, s.has_port, s.accepts_players, s.is_visible)

summary-Shows : (e : RegisteredWorldEndpoint) → Shows e (summary_of e)
unfolding summary_of
summary-Shows e = record {
  world = refl;
  no_channel = refl;
  load = refl;
  zones = refl;
  port = refl;
  flags = refl;
}

pub selectable_routes-Offers :
    (w : WorldRegistry) (order : List ℕ)
    → Offers w order (map summary_of (selectable_routes w order))
unfolding selectable_routes
selectable_routes-Offers w [] = nothing
selectable_routes-Offers w (sid ∷ order) =
    let rest = selectable_routes-Offers w order in
    elim (Option-cases (w.worlds_by_sid sid)) [
      | inl e ↦ rw (e, selectable_routes) (no_route sid order _ e rest)
      | inr (r, e) ↦ elim (Bool-cases (is_world_selectable r)) [
        | inl fit ↦
            rw (e, selectable_routes)
              (rw fit (
                offered sid r (summary_of r) order _ e (is_world_selectable-Selectable r fit)
                  (summary-Shows r) rest))
        | inr unfit ↦
            rw (e, selectable_routes)
              (rw unfit (held_back sid r order _ e (unselectable r unfit) rest))
      ]
    ]
