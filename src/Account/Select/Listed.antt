-- ===== src/Account/Select/Listed.antt =====
-- The list of worlds that a client is offered.
use mathlib.Core.List.{IsChain, Permᴰ}
use mathlib.Core.List.Permᴰ
use new_server.Prelude.{
  ℕ, zero, suc, ◌≤◌, ◌<◌, min, ◌≡◌, refl, sym, ◌≢◌, ◌↔◌, ◌⊎◌, inl, inr, Bool, true, false, not,
  List, [], ◌∷◌, map, arith, length, is_empty, take, if◌then◌else◌, Bool-cases, Option-cases,
}
use new_server.Account.Select.Offers.{selectable_routes-Offers, Offers}
use new_server.Account.Login.{find_session, on_world_list_request, k_world_list_max_count}
use new_server.Account.Runtime.{AccountLineRuntime}
use new_server.Account.Registry.{WorldRegistry}
use new_server.Account.Select.{
  selectable_routes, summary_of, sort_summaries, insert_summary, summary_before,
  build_world_summary_list,
}
use new_server.Account.Messages.{
  world_not_ready, no_fail_reason, invalid_login_session, world_list_result, FailReason, Caller,
  WorldSummary,
}

-- The order of the list: by world, then by channel, then the lower load, then the more zones.
abbrev pub InOrder : WorldSummary → WorldSummary → Type 0
InOrder a b =
    (a.world_id < b.world_id)
    ⊎ ((a.world_id ≡ b.world_id)
        × ((a.channel_id < b.channel_id)
            ⊎ ((a.channel_id ≡ b.channel_id)
                × ((a.load_score < b.load_score)
                    ⊎ ((a.load_score ≡ b.load_score)
                        × (b.active_zone_count ≤ a.active_zone_count))))))

before-InOrder : (a b : WorldSummary) → summary_before a b ≡ true → InOrder a b
unfolding summary_before
before-InOrder a b h = ground arith

not_before-InOrder : (a b : WorldSummary) → summary_before a b ≡ false → InOrder b a
unfolding summary_before
not_before-InOrder a b h = ground arith

insert-IsChain :
    (s : WorldSummary) (xs : List WorldSummary)
    → IsChain InOrder xs
    → IsChain InOrder (insert_summary s xs)
unfolding insert_summary
insert-IsChain s [] c = IsChain.singleton s
insert-IsChain s (x ∷ []) c = elim (Bool-cases (summary_before x s)) [
  | inl e ↦ rw e (IsChain.cons-cons (before-InOrder x s e) (IsChain.singleton s))
  | inr e ↦ rw e (IsChain.cons-cons (not_before-InOrder x s e) c)
]
insert-IsChain s (x ∷ y ∷ ys) (IsChain.cons-cons h c) = elim (Bool-cases (summary_before x s)) [
  | inl e ↦
      let rest = insert-IsChain s (y ∷ ys) c in
      elim (Bool-cases (summary_before y s)) [
        | inl f ↦ rw (e, f) (IsChain.cons-cons h (rw f at rest))
        | inr f ↦ rw (e, f) (IsChain.cons-cons (before-InOrder x s e) (rw f at rest))
      ]
  | inr e ↦ rw e (IsChain.cons-cons (not_before-InOrder x s e) (IsChain.cons-cons h c))
]

insert-Perm : (s : WorldSummary) (xs : List WorldSummary) → Permᴰ (insert_summary s xs) (s ∷ xs)
unfolding insert_summary
insert-Perm s [] = Permᴰ.refl (s ∷ [])
insert-Perm s (x ∷ xs) = elim (Bool-cases (summary_before x s)) [
  | inl e ↦ rw e (Permᴰ.trans (Permᴰ.cons refl (insert-Perm s xs)) (Permᴰ.swap refl refl))
  | inr e ↦ rw e (Permᴰ.refl (s ∷ x ∷ xs))
]

sort-Sorted :
    (xs : List WorldSummary) → IsChain InOrder (sort_summaries xs) × Permᴰ (sort_summaries xs) xs
unfolding sort_summaries
sort-Sorted [] = (IsChain.nil, Permᴰ.nil)
sort-Sorted (x ∷ xs) =
    let (c, p) = sort-Sorted xs in
    (
      insert-IsChain x (sort_summaries xs) c,
      Permᴰ.trans (insert-Perm x (sort_summaries xs)) (Permᴰ.cons refl p),
    )

-- The list of worlds is a permutation of one summary for each registered endpoint that is ready, has
-- a host and a port and both flags set, and it goes by world, then by the lower load, then by the
-- more zones.
pub build-Sorted :
    (w : WorldRegistry) (order : List ℕ)
    → let worlds = build_world_summary_list w order in
      IsChain InOrder worlds × ((xs : List WorldSummary) × Offers w order xs × Permᴰ worlds xs)
unfolding build_world_summary_list
build-Sorted w order =
    let (chain, perm) = sort-Sorted (map summary_of (selectable_routes w order)) in
    (chain, (_, selectable_routes-Offers w order, perm))

length-take : (n : ℕ) (xs : List WorldSummary) → length (take n xs) ≡ min (length xs) n
length-take zero xs = omega arith
length-take (suc n) [] = omega arith
length-take (suc n) (x ∷ xs) = omega (arith, length-take n xs)

-- The worlds of an answer, against their count and `ok`.
carried :
    (xs : List WorldSummary)
    → (min (length xs) k_world_list_max_count ≡ length (take k_world_list_max_count xs))
      × ((not (is_empty xs) ≡ true) ↔ (take k_world_list_max_count xs ≢ []))
carried [] = (omega arith, ((λ h. cc), λ h. absurd (h refl)))
carried (x ∷ xs) = (sym (length-take k_world_list_max_count (x ∷ xs)), ((λ h e. cc), λ h. refl))

-- The answer to a request for the worlds counts the summaries that it carries, at most sixteen, and
-- is `ok` exactly where it carries one; the request changes nothing.
pub world_list_counted :
    (r : AccountLineRuntime) (order : List ℕ) (caller : Caller) (account_id : ℕ)
    (login_session : List ℕ)
    → (ok : Bool) × (worlds : List WorldSummary) × (why : FailReason) × (on_world_list_request r
          order caller account_id login_session
        ≡ (r, world_list_result caller ok account_id (length worlds) worlds why ∷ []))
      × (length worlds ≤ k_world_list_max_count)
      × ((ok ≡ true) ↔ (worlds ≢ []))
unfolding on_world_list_request
world_list_counted r order caller account_id login_session =
    elim (Option-cases (find_session r login_session account_id)) [
      | inl e ↦ (
        false,
        [],
        invalid_login_session,
        rw (e, on_world_list_request) refl,
        omega arith,
        ((λ h. cc), λ h. absurd (h refl)),
      )
      | inr (s, e) ↦
          let (n, some_there) = carried (build_world_summary_list r.worlds order) in
          let ws = build_world_summary_list r.worlds order in
          let listed = take k_world_list_max_count ws in
          (
            not (is_empty ws),
            listed,
            if not (is_empty ws) then no_fail_reason else world_not_ready,
            rw (e, on_world_list_request) (rw n refl),
            omega (arith, n),
            some_there,
          )
    ]
