-- ===== src/Zone/Sends/Flush.antt =====
-- What a flush sends, in which order, and what it leaves.
use new_server.Prelude.{
  ℕ, ◌+◌, ◌-◌, ◌%◌, ◌≤◌, ◌≡◌, refl, sym, ap, ◌∙◌, inl, inr, Bool, false, List, [], ◌∷◌, ◌++◌, arith,
  is_empty, List-cases, if◌then◌else◌, nat_beq_iff, ◌==◌, Bool-cases, Option-cases, u64_mod, nat_eq,
}
use new_server.Zone.Sends.Within.{AllWithin, IsWithin, total}
use new_server.Zone.Sends.{
  flush_pending_sends, flush_sids, ZoneSends, in_budget, bytes_of, Spent, queue_of, Drained,
  k_max_pending_bytes_per_sid, drain_queue, store_drained, PendingNetSend,
}

sub_size-exact :
    (b bytes : ℕ)
    → bytes ≤ b
    → b ≤ k_max_pending_bytes_per_sid
    → (b + u64_mod - bytes) % u64_mod ≡ b - bytes
sub_size-exact b bytes h cap = omega (arith, h, cap)

-- A queue is sent from its front.
record Drains (q : List PendingNetSend) (d : Drained) : Type 0 where
  in_order : q ≡ d.sent ++ d.left
  within : IsWithin d.left d.left_bytes

-- The messages of one session, in the order in which a flush sent them.
unfoldable pub sent_to : ℕ → List (ℕ × List PendingNetSend) → List PendingNetSend
sent_to sid [] = []
sent_to sid ((k, sent) ∷ rest) =
    let others = sent_to sid rest in if k == sid then sent ++ others else others

store-nothing :
    (z : ZoneSends) (sid k : ℕ) (d : Drained)
    → d.left ≡ []
    → d.left_bytes ≡ 0
    → let z' = store_drained z sid d in
      (queue_of z' k ≡ (if sid == k then d.left else queue_of z k))
      × (bytes_of z' k ≡ (if sid == k then d.left_bytes else bytes_of z k))
unfolding store_drained queue_of bytes_of
store-nothing z sid k d e none_left = (ground arith, ground arith)

store-something :
    (z : ZoneSends) (sid k : ℕ) (d : Drained)
    → is_empty d.left ≡ false
    → let z' = store_drained z sid d in
      (queue_of z' k ≡ (if sid == k then d.left else queue_of z k))
      × (bytes_of z' k ≡ (if sid == k then d.left_bytes else bytes_of z k))
unfolding store_drained queue_of bytes_of
store-something z sid k d e = (ground arith, ground arith)

store-queue :
    (z : ZoneSends) (sid k : ℕ) (d : Drained)
    → IsWithin d.left d.left_bytes
    → let z' = store_drained z sid d in
      (queue_of z' k ≡ (if sid == k then d.left else queue_of z k))
      × (bytes_of z' k ≡ (if sid == k then d.left_bytes else bytes_of z k))
unfolding total
store-queue z sid k d w = elim (List-cases d.left) [
  | inl e ↦ store-nothing z sid k d e (w.exact ∙ ap total e)
  | inr (x, xs, e) ↦ store-something z sid k d (ap is_empty e)
]

-- What a flush does to every queue: what was sent of it is its front, and the rest is still held back,
-- within the caps.
pub record Flushed (z : ZoneSends) (r : ZoneSends × List (ℕ × List PendingNetSend)) : Type 0 where
  pub in_order : (sid : ℕ) → queue_of z sid ≡ sent_to sid r.1 ++ queue_of r.0 sid
  pub within : AllWithin r.0

append_assoc : (xs ys zs : List PendingNetSend) → (xs ++ ys) ++ zs ≡ xs ++ (ys ++ zs)
append_assoc [] ys zs = refl
append_assoc (x ∷ xs) ys zs = ap (λ l. x ∷ l) (append_assoc xs ys zs)

-- One visit, and the visits after it.
visited :
    (z : ZoneSends) (sid : ℕ) (d : Drained) (r : ZoneSends × List (ℕ × List PendingNetSend))
    → Drains (queue_of z sid) d
    → Flushed (store_drained z sid d) r
    → Flushed z (r.0, (sid, d.sent) ∷ r.1)
unfolding sent_to
visited z sid d r drained f = record {
  in_order = λ k.
      let (stored, counted) = store-queue z sid k d drained.within in
      elim (Bool-cases (sid == k)) [
        | inl hit ↦
            let same : sid ≡ k = (nat_beq_iff sid k).0 hit in
            let left : d.left ≡ sent_to k r.1 ++ queue_of r.0 k =
              sym (rw hit at stored) ∙ f.in_order k in
            rw hit (
              ap (queue_of z) (sym same)
              ∙ drained.in_order
              ∙ ap (λ l. d.sent ++ l) left
              ∙ sym (append_assoc d.sent (sent_to k r.1) (queue_of r.0 k)))
        | inr miss ↦ rw miss (sym (rw miss at stored) ∙ f.in_order k)
      ];
  within = f.within;
}

stored-AllWithin :
    (z : ZoneSends) (sid : ℕ) (d : Drained)
    → AllWithin z
    → IsWithin d.left d.left_bytes
    → AllWithin (store_drained z sid d)
stored-AllWithin z sid d all w k =
    let (stored, counted) = store-queue z sid k d w in
    rw (stored, counted)
      (elim (Bool-cases (sid == k)) [ inl hit ↦ rw hit w | inr miss ↦ rw miss (all k) ])

module _ (sends : ℕ → Bool) (budget_msgs budget_bytes : ℕ) where
  drain-Drains :
      (q : List PendingNetSend) (b : ℕ) (c : Spent)
      → IsWithin q b
      → Drains q (drain_queue sends budget_msgs budget_bytes q b c)
  unfolding drain_queue total
  drain-Drains [] b c w = record { in_order = refl; within = w }
  drain-Drains (ps ∷ q) b c w =
      let after : Spent = record {
        n = c.n + 1;
        bytes = c.bytes + ps.h_size;
        attempts = c.attempts + 1;
      } in
      let less = (b + u64_mod - ps.h_size) % u64_mod in
      let fewer : IsWithin q less = record {
        msgs = omega (arith, w.msgs);
        exact = omega (arith, w.exact, w.capped);
        capped = omega (arith, w.exact, w.capped);
      } in
      let rest = drain-Drains q less after fewer in
      elim (Bool-cases (in_budget budget_msgs budget_bytes c)) [
        | inl e ↦ elim (Bool-cases (sends c.attempts)) [
          | inl s ↦
              rw (e, s) (record { in_order = ap (λ l. ps ∷ l) rest.in_order; within = rest.within })
          | inr s ↦ rw (e, s) (record { in_order = refl; within = w })
        ]
        | inr e ↦ rw e (record { in_order = refl; within = w })
      ]

  flush_sids-Flushed :
      (sids : List ℕ) (z : ZoneSends) (c : Spent)
      → AllWithin z
      → Flushed z (flush_sids sends budget_msgs budget_bytes z sids c)
  unfolding flush_sids sent_to
  flush_sids-Flushed [] z c all = record { in_order = λ k. refl; within = all }
  flush_sids-Flushed (sid ∷ sids) z c all = elim (Option-cases (z.pending_by_sid sid)) [
    | inl e ↦ rw (e, flush_sids) (flush_sids-Flushed sids z c all)
    | inr (q, e) ↦
        let d = drain_queue sends budget_msgs budget_bytes (queue_of z sid) (bytes_of z sid) c in
        let drained = drain-Drains (queue_of z sid) (bytes_of z sid) c (all sid) in
        let z' = store_drained z sid d in
        let all' = stored-AllWithin z sid d all drained.within in
        rw (e, flush_sids)
          (elim (Bool-cases (in_budget budget_msgs budget_bytes d.spent)) [
            | inl more ↦ rw more (
                visited z sid d (flush_sids sends budget_msgs budget_bytes z' sids d.spent) drained
                  (flush_sids-Flushed sids z' d.spent all'))
            | inr over ↦
                rw over (
                  visited z sid d (z', []) drained (record { in_order = λ k. refl; within = all' }))
          ])
  ]

  -- A flush sends, from every session's queue, messages at its front in their order, and leaves the
  -- rest of the queue as it was, within its caps and with its count of bytes exact: no message is
  -- lost or sent out of turn, whatever the sends answer and wherever the budgets end.
  pub flush-Flushed :
      (z : ZoneSends) (sids : List ℕ)
      → AllWithin z
      → Flushed z (flush_pending_sends sends budget_msgs budget_bytes z sids)
  unfolding flush_pending_sends
  flush-Flushed z sids all =
      flush_sids-Flushed sids z (record { n = 0; bytes = 0; attempts = 0 }) all
