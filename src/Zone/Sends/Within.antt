-- ===== src/Zone/Sends/Within.antt =====
-- The caps on the messages that are held back for a session.
use new_server.Prelude.{
  ℕ, zero, suc, ◌+◌, ◌≤◌, ◌≡◌, refl, inl, inr, true, ◌&&◌, ◌||◌, Option, some, List, [], ◌∷◌, ◌++◌,
  arith, length, length-append, put, erase, ltb, leb, ◌==◌, Bool-cases, Option-cases, nat_eq,
}
use new_server.Zone.Sends.{
  push_back, coalesce, enqueue_send, enqueue_on, k_max_pending_bytes_per_sid, bytes_of,
  k_max_pending_msgs_per_sid, queue_of, ZoneSends, replace_newest, reverse_onto, PendingNetSend,
}

unfoldable pub total : List PendingNetSend → ℕ
total [] = 0
total (ps ∷ q) = ps.h_size + total q

-- A queue within its caps, and its count of bytes.
pub record IsWithin (q : List PendingNetSend) (b : ℕ) : Type 0 where
  pub msgs : length q ≤ k_max_pending_msgs_per_sid
  pub exact : b ≡ total q
  pub capped : b ≤ k_max_pending_bytes_per_sid

-- Every session's queue.
abbrev pub AllWithin : ZoneSends → Type 0
AllWithin z = (sid : ℕ) → IsWithin (queue_of z sid) (bytes_of z sid)

total-append : (q r : List PendingNetSend) → total (q ++ r) ≡ total q + total r
unfolding total
total-append [] r = omega arith
total-append (x ∷ q) r = omega (arith, total-append q r)

reverse-sizes :
    (q acc : List PendingNetSend)
    → (length (reverse_onto q acc) ≡ length q + length acc)
      × (total (reverse_onto q acc) ≡ total q + total acc)
unfolding reverse_onto total
reverse-sizes [] acc = (omega arith, omega arith)
reverse-sizes (x ∷ q) acc =
    let (l, t) = reverse-sizes q (x ∷ acc) in (omega (arith, l), omega (arith, t))

-- What a replacement does to the sizes.
record Replaced (q : List PendingNetSend) (ps : PendingNetSend) (prev : ℕ)
    (q' : List PendingNetSend) : Type 0 where
  same_length : length q' ≡ length q
  exchanged : total q' + prev ≡ total q + ps.h_size
  had : prev ≤ total q

replace-Replaced :
    (scan : ℕ) (ps : PendingNetSend) (q : List PendingNetSend) (prev : ℕ) (q' : List PendingNetSend)
    → replace_newest scan ps q ≡ some (prev, q')
    → Replaced q ps prev q'
unfolding replace_newest total
replace-Replaced zero ps q prev q' e = absurd (cc e)
replace-Replaced (suc scan) ps [] prev q' e = absurd (cc e)
replace-Replaced (suc scan) ps (x ∷ q) prev q' e =
    elim (Bool-cases (x.msg_type == ps.msg_type && x.move_char_id == ps.move_char_id)) [
      | inl hit ↦
          let same : ◌≡◌ {A = Option (ℕ × List PendingNetSend)} (some (x.h_size, ps ∷ q))
              (some (prev, q')) =
            rw hit at e in
          let at_prev : x.h_size ≡ prev = cc same in
          let at_rest : ps ∷ q ≡ q' = cc same in
          rw (← at_prev, ← at_rest)
            (record { same_length = refl; exchanged = omega arith; had = omega arith })
      | inr miss ↦ elim (Option-cases (replace_newest scan ps q)) [
        | inl f ↦ absurd (ground arith)
        | inr ((bytes, r), f) ↦
            let deeper = replace-Replaced scan ps q bytes r f in
            let same : ◌≡◌ {A = Option (ℕ × List PendingNetSend)} (some (bytes, x ∷ r))
                (some (prev, q')) =
              ground arith in
            let at_prev : bytes ≡ prev = cc same in
            let at_rest : x ∷ r ≡ q' = cc same in
            rw (← at_prev, ← at_rest)
              (record {
                same_length = omega (arith, deeper.same_length);
                exchanged = omega (arith, deeper.exchanged);
                had = omega (arith, deeper.had);
              })
      ]
    ]

push_back-IsWithin :
    (q : List PendingNetSend) (b : ℕ) (ps : PendingNetSend)
    → IsWithin q b
    → length q + 1 ≤ k_max_pending_msgs_per_sid
    → b + ps.h_size ≤ k_max_pending_bytes_per_sid
    → IsWithin (push_back q b ps).0 (push_back q b ps).1
unfolding push_back total
push_back-IsWithin q b ps w room bytes = record {
  msgs = omega (arith, length-append q (ps ∷ []), room);
  exact = omega (arith, total-append q (ps ∷ []), w.exact);
  capped = bytes;
}

coalesce-IsWithin :
    (q : List PendingNetSend) (b : ℕ) (ps : PendingNetSend)
    → IsWithin q b
    → length q + 1 ≤ k_max_pending_msgs_per_sid
    → b + ps.h_size ≤ k_max_pending_bytes_per_sid
    → IsWithin (coalesce q b ps).0 (coalesce q b ps).1
unfolding coalesce total
coalesce-IsWithin q b ps w room bytes =
    elim (Option-cases (replace_newest 256 ps (reverse_onto q []))) [
      | inl e ↦ rw (e, coalesce) (push_back-IsWithin q b ps w room bytes)
      | inr ((prev, q'), e) ↦
          let r = replace-Replaced 256 ps (reverse_onto q []) prev q' e in
          let (l, t) = reverse-sizes q [] in
          let (l', t') = reverse-sizes q' [] in
          let had : leb prev b ≡ true = ground (arith, r.had, t, w.exact) in
          rw (e, coalesce)
            (rw had (record {
              msgs = omega (arith, l', r.same_length, l, room);
              exact = omega (arith, t', r.exchanged, r.had, t, w.exact);
              capped = omega (arith, bytes);
            }))
    ]

enqueue_on-IsWithin :
    (q : List PendingNetSend) (b : ℕ) (ps : PendingNetSend)
    → IsWithin q b
    → IsWithin (enqueue_on q b ps).0 (enqueue_on q b ps).1
unfolding enqueue_on
enqueue_on-IsWithin q b ps w =
    elim (Bool-cases (
      ltb k_max_pending_msgs_per_sid (length q + 1)
      || ltb k_max_pending_bytes_per_sid (b + ps.h_size))) [
        | inl e ↦ rw e w
        | inr e ↦
            let room : length q + 1 ≤ k_max_pending_msgs_per_sid = ground (arith, e) in
            let bytes : b + ps.h_size ≤ k_max_pending_bytes_per_sid = ground (arith, e) in
            elim (Bool-cases (ps.move_char_id == 0)) [
              | inl m ↦ rw (e, m) (push_back-IsWithin q b ps w room bytes)
              | inr m ↦ rw (e, m) (coalesce-IsWithin q b ps w room bytes)
            ]
      ]

put-AllWithin :
    (z : ZoneSends) (sid : ℕ) (q : List PendingNetSend) (b : ℕ)
    → AllWithin z
    → IsWithin q b
    → AllWithin (record {
      pending_by_sid = put z.pending_by_sid sid q;
      pending_bytes_by_sid = put z.pending_bytes_by_sid sid b;
    })
unfolding queue_of bytes_of
put-AllWithin z sid q b all w k = elim (Bool-cases (sid == k)) [
  | inl hit ↦ rw (hit, queue_of, bytes_of, put) w
  | inr miss ↦ rw (miss, queue_of, bytes_of, put) (all k)
]

erase-AllWithin :
    (z : ZoneSends) (sid : ℕ)
    → AllWithin z
    → AllWithin (record {
      pending_by_sid = erase z.pending_by_sid sid;
      pending_bytes_by_sid = erase z.pending_bytes_by_sid sid;
    })
unfolding queue_of bytes_of total
erase-AllWithin z sid all k = elim (Bool-cases (sid == k)) [
  | inl hit ↦
      rw (hit, queue_of, bytes_of, erase)
        (record { msgs = omega arith; exact = refl; capped = omega arith })
  | inr miss ↦ rw (miss, queue_of, bytes_of, erase) (all k)
]

-- A message that is held back leaves every session's queue within 5000 messages and 4 MiB, and every
-- count of bytes the sum of the queue's, whether the message is added, replaces one or is dropped.
pub enqueue-AllWithin :
    (z : ZoneSends) (ps : PendingNetSend) → AllWithin z → AllWithin (enqueue_send z ps)
unfolding enqueue_send
enqueue-AllWithin z ps all =
    let r = enqueue_on (queue_of z ps.sid) (bytes_of z ps.sid) ps in
    put-AllWithin z ps.sid r.0 r.1 all
      (enqueue_on-IsWithin (queue_of z ps.sid) (bytes_of z ps.sid) ps (all ps.sid))
