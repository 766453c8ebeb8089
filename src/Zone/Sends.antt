-- ===== src/Zone/Sends.antt =====
-- The messages that a zone holds back for its sessions (src/services/world/actors/zone_actor.h):
-- EnqueueSend_ with its caps, and FlushPendingSends_ with its budgets. The results of TrySendLossy, by
-- the number of the attempt, and the order in which the container visits the sids are arguments.
pub mod Flush
pub mod Within
use new_server.Prelude.{
  ℕ, zero, suc, ◌+◌, ◌-◌, ◌*◌, ◌%◌, Bool, ◌&&◌, ◌||◌, not, Option, none, some, List, [], ◌∷◌, ◌++◌,
  length, is_empty, Map, put, erase, ltb, leb, if◌then◌else◌, ◌==◌, u64_mod, nat_eq,
}

abbrev pub k_max_pending_msgs_per_sid : ℕ
k_max_pending_msgs_per_sid = 5000

abbrev pub k_max_pending_bytes_per_sid : ℕ
k_max_pending_bytes_per_sid = 4 * 1024 * 1024

-- `h_size` is `h.m_wSize`, which `bytes()` returns.
pub record PendingNetSend : Type 0 where
  pub sid : ℕ
  pub serial : ℕ
  pub h_size : ℕ
  pub h_type : ℕ
  pub body : Option (List ℕ)
  pub msg_type : ℕ
  pub move_char_id : ℕ

pub record ZoneSends : Type 0 where
  pub pending_by_sid : Map ℕ (List PendingNetSend)
  pub pending_bytes_by_sid : Map ℕ ℕ

-- `pending_by_sid_[sid]` and `pending_bytes_by_sid_[sid]`: a missing entry is made empty.
unfoldable pub queue_of : ZoneSends → ℕ → List PendingNetSend
queue_of z sid = elim (z.pending_by_sid sid) [ none ↦ [] | some q ↦ q ]

unfoldable pub bytes_of : ZoneSends → ℕ → ℕ
bytes_of z sid = elim (z.pending_bytes_by_sid sid) [ none ↦ 0 | some b ↦ b ]

-- The scan from the newest message back; the list is newest first.
unfoldable pub replace_newest :
    ℕ → PendingNetSend → List PendingNetSend → Option (ℕ × List PendingNetSend)
replace_newest zero ps q = none
replace_newest (suc scan) ps [] = none
replace_newest (suc scan) ps (prev ∷ q) =
    let deeper = replace_newest scan ps q in
    if prev.msg_type == ps.msg_type && prev.move_char_id == ps.move_char_id
    then some (prev.h_size, ps ∷ q)
    else elim deeper [ none ↦ none | some (bytes, q') ↦ some (bytes, prev ∷ q') ]

unfoldable pub reverse_onto : List PendingNetSend → List PendingNetSend → List PendingNetSend
reverse_onto [] acc = acc
reverse_onto (x ∷ xs) acc = reverse_onto xs (x ∷ acc)

unfoldable pub push_back : List PendingNetSend → ℕ → PendingNetSend → List PendingNetSend × ℕ
push_back q b ps = (q ++ (ps ∷ []), b + ps.h_size)

unfoldable pub coalesce : List PendingNetSend → ℕ → PendingNetSend → List PendingNetSend × ℕ
coalesce q b ps = elim (replace_newest 256 ps (reverse_onto q [])) [
  | none ↦ push_back q b ps
  | some (prev_bytes, q') ↦
      (reverse_onto q' [], (if leb prev_bytes b then b - prev_bytes else b) + ps.h_size)
]

unfoldable pub enqueue_on : List PendingNetSend → ℕ → PendingNetSend → List PendingNetSend × ℕ
enqueue_on q b ps =
    if ltb k_max_pending_msgs_per_sid (length q + 1)
      || ltb k_max_pending_bytes_per_sid (b + ps.h_size)
    then (q, b)
    else if ps.move_char_id == 0
    then push_back q b ps
    else coalesce q b ps

unfoldable pub enqueue_send : ZoneSends → PendingNetSend → ZoneSends
enqueue_send z ps =
    let r = enqueue_on (queue_of z ps.sid) (bytes_of z ps.sid) ps in
    record {
      pending_by_sid = put z.pending_by_sid ps.sid r.0;
      pending_bytes_by_sid = put z.pending_bytes_by_sid ps.sid r.1;
    }

-- The counters of a flush: messages and bytes sent, attempts made.
pub record Spent : Type 0 where
  pub n : ℕ
  pub bytes : ℕ
  pub attempts : ℕ

pub record Drained : Type 0 where
  pub sent : List PendingNetSend
  pub left : List PendingNetSend
  pub left_bytes : ℕ
  pub spent : Spent

-- `b -= bytes` on 64 bits.
abbrev sub_size : ℕ → ℕ → ℕ
sub_size b bytes = (b + u64_mod - bytes) % u64_mod

unfoldable pub store_drained : ZoneSends → ℕ → Drained → ZoneSends
store_drained z sid d =
    if is_empty d.left
    then record {
      pending_by_sid = erase z.pending_by_sid sid;
      pending_bytes_by_sid = erase z.pending_bytes_by_sid sid;
    }
    else record {
      pending_by_sid = put z.pending_by_sid sid d.left;
      pending_bytes_by_sid = put z.pending_bytes_by_sid sid d.left_bytes;
    }

unfoldable pub in_budget : ℕ → ℕ → Spent → Bool
in_budget budget_msgs budget_bytes c = ltb c.n budget_msgs && ltb c.bytes budget_bytes

module _ (sends : ℕ → Bool) (budget_msgs budget_bytes : ℕ) where
  -- The `while` loop. A message that is not taken goes back, and the bytes are as they were.
  unfoldable pub drain_queue : List PendingNetSend → ℕ → Spent → Drained
  drain_queue [] b c = record { sent = []; left = []; left_bytes = b; spent = c }
  drain_queue (ps ∷ q) b c =
      let after : Spent = record {
        n = c.n + 1;
        bytes = c.bytes + ps.h_size;
        attempts = c.attempts + 1;
      } in
      let rest = drain_queue q (sub_size b ps.h_size) after in
      if not (in_budget budget_msgs budget_bytes c)
      then record { sent = []; left = ps ∷ q; left_bytes = b; spent = c }
      else if sends c.attempts
      then record rest { sent = ps ∷ rest.sent }
      else record {
        sent = [];
        left = ps ∷ q;
        left_bytes = b;
        spent = record c { attempts = c.attempts + 1 };
      }

  -- The state after the visit of the sids, and what was sent from each queue.
  unfoldable pub flush_sids :
      ZoneSends → List ℕ → Spent → ZoneSends × List (ℕ × List PendingNetSend)
  flush_sids z [] c = (z, [])
  flush_sids z (sid ∷ sids) c =
      let d = drain_queue (queue_of z sid) (bytes_of z sid) c in
      let z' = store_drained z sid d in
      let rest = flush_sids z' sids d.spent in
      let skipped = flush_sids z sids c in
      elim (z.pending_by_sid sid) [
        | none ↦ skipped
        | some q ↦
            if in_budget budget_msgs budget_bytes d.spent
            then (rest.0, (sid, d.sent) ∷ rest.1)
            else (z', (sid, d.sent) ∷ [])
      ]

  unfoldable pub flush_pending_sends :
      ZoneSends → List ℕ → ZoneSends × List (ℕ × List PendingNetSend)
  flush_pending_sends z sids = flush_sids z sids (record { n = 0; bytes = 0; attempts = 0 })
