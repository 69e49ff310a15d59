-- ===== src/Transport/PacketStorage/Delivery.antt =====
-- get_pending_packets, and what it gives while the thread holds a packet. Rows that cannot be read are
-- no rows here.
use securepath.Base.{
  ℕ, ◌≡◌, ◌≢◌, refl, sym, ◌∙◌, List, [], ◌∷◌, ◌++◌, some, All, All-append, ltb, ◌==◌, ==_iff,
  if◌then◌else◌, either_branch, subst,
}
use securepath.Crypto.Keys.{same}
use securepath.Transport.PacketStorage.{
  QueuedPacket, Row, PacketStorage, next_packet, pop_queue, pop_removed, from_index,
}
use securepath.Transport.PacketStorage.Pending.{held}

pub record StoredPacket : Type 0 where
  pub ack : ℕ
  pub packet : List ℕ

-- `packet.lock()` of an entry: the packet of its ack, while it is alive.
unfoldable pub lock : ℕ → List QueuedPacket → List StoredPacket
lock n [] = []
lock n (p ∷ ps) =
    let later = lock n ps in
    if p.ack == n then record { ack = p.ack; packet = p.packet } ∷ [] else later

unfoldable pub from_entries : List ℕ → List (List ℕ × ℕ) → List QueuedPacket → List StoredPacket
unfolding lock
from_entries receiver [] alive = []
from_entries receiver (i ∷ is) alive =
    let rest = from_entries receiver is alive in
    if same i.0 receiver then lock i.1 alive ++ rest else rest

unfoldable pub from_rows : List ℕ → List Row → List StoredPacket
from_rows receiver [] = []
from_rows receiver (r ∷ rs) =
    let rest = from_rows receiver rs in
    if same r.row_receiver receiver
    then record { ack = r.row_ack; packet = r.row_packet } ∷ rest
    else rest

-- std::sort by ack and std::unique.
unfoldable pub place : StoredPacket → List StoredPacket → List StoredPacket
place x [] = x ∷ []
place x (y ∷ ys) =
    let later = place x ys in
    if ltb x.ack y.ack then x ∷ y ∷ ys else if x.ack == y.ack then y ∷ ys else y ∷ later

unfoldable pub sorted : List StoredPacket → List StoredPacket
unfolding place
sorted [] = []
sorted (x ∷ xs) = place x (sorted xs)

unfoldable pub get_pending_packets : PacketStorage → List ℕ → List StoredPacket
unfolding sorted from_entries from_rows
get_pending_packets s receiver =
    sorted (
      from_entries receiver s.receiver_index (held s.taken ++ s.queue) ++ from_rows receiver s.rows)

abbrev Lacks : ℕ → List StoredPacket → Type 0
Lacks n xs = All (λ x. x.ack ≢ n) xs

lock-Lacks : (n m : ℕ) (ps : List QueuedPacket) → m ≢ n → Lacks n (lock m ps)
unfolding lock
lock-Lacks n m [] other = tt
lock-Lacks n m (p ∷ ps) other =
    either_branch (Lacks n) (p.ack == m)
      (λ is. ((λ e. other (sym ((==_iff p.ack m).0 is) ∙ e)), tt)) (λ _. lock-Lacks n m ps other)

from_entries-Lacks :
    (n : ℕ) (receiver : List ℕ) (is : List (List ℕ × ℕ)) (alive : List QueuedPacket)
    → All (λ (i : List ℕ × ℕ). i.1 ≢ n) is
    → Lacks n (from_entries receiver is alive)
unfolding from_entries
from_entries-Lacks n receiver [] alive h = tt
from_entries-Lacks n receiver (i ∷ is) alive (other, others) =
    let rest = from_entries-Lacks n receiver is alive others in
    either_branch (Lacks n) (same i.0 receiver)
      (λ _.
        All-append (λ (x : StoredPacket). x.ack ≢ n) (lock i.1 alive)
          (from_entries receiver is alive) (lock-Lacks n i.1 alive other, rest))
      (λ _. rest)

from_rows-Lacks :
    (n : ℕ) (receiver : List ℕ) (rs : List Row)
    → All (λ (r : Row). r.row_ack ≢ n) rs
    → Lacks n (from_rows receiver rs)
unfolding from_rows
from_rows-Lacks n receiver [] h = tt
from_rows-Lacks n receiver (r ∷ rs) (other, others) =
    let rest = from_rows-Lacks n receiver rs others in
    either_branch (Lacks n) (same r.row_receiver receiver) (λ _. (other, rest)) (λ _. rest)

place-Lacks :
    (n : ℕ) (x : StoredPacket) (ys : List StoredPacket)
    → x.ack ≢ n
    → Lacks n ys
    → Lacks n (place x ys)
unfolding place
place-Lacks n x [] other h = (other, tt)
place-Lacks n x (y ∷ ys) other (here, rest) =
    either_branch (Lacks n) (ltb x.ack y.ack) (λ _. (other, (here, rest)))
      (λ _.
        either_branch (Lacks n) (x.ack == y.ack) (λ _. (here, rest))
          (λ _. (here, place-Lacks n x ys other rest)))

sorted-Lacks : (n : ℕ) (xs : List StoredPacket) → Lacks n xs → Lacks n (sorted xs)
unfolding sorted
sorted-Lacks n [] h = tt
sorted-Lacks n (x ∷ xs) (other, rest) = place-Lacks n x (sorted xs) other (sorted-Lacks n xs rest)

popped-Lacks :
    (s : PacketStorage) (p : QueuedPacket) (q : List QueuedPacket) (ns receiver : List ℕ)
    (ps : List QueuedPacket)
    → q ≡ p ∷ ps
    → All (λ (i : List ℕ × ℕ). i.1 ≢ p.ack) (from_index p.receiver p.ack s.receiver_index)
    → All (λ (r : Row). r.row_ack ≢ p.ack) s.rows
    → ((pop_removed (pop_queue s q) ns).taken ≡ some p)
      × Lacks p.ack (get_pending_packets (pop_removed (pop_queue s q) ns) receiver)
unfolding get_pending_packets pop_queue pop_removed
popped-Lacks s p q ns receiver ps e index rows =
    subst
      (λ (t : List QueuedPacket).
        ((pop_removed (pop_queue s t) ns).taken ≡ some p)
        × Lacks p.ack (get_pending_packets (pop_removed (pop_queue s t) ns) receiver))
      (sym e) (at_removals ns)
  where
    found : Lacks p.ack (
        sorted (
          from_entries receiver (from_index p.receiver p.ack s.receiver_index) (p ∷ ps)
          ++ from_rows receiver s.rows))
    found = sorted-Lacks p.ack _ (
        All-append (λ (x : StoredPacket). x.ack ≢ p.ack) _ _
          (
            from_entries-Lacks p.ack receiver _ (p ∷ ps) index,
            from_rows-Lacks p.ack receiver s.rows rows,
          ))

    at_removals :
        (ms : List ℕ)
        → ((pop_removed (pop_queue s (p ∷ ps)) ms).taken ≡ some p)
          × Lacks p.ack (get_pending_packets (pop_removed (pop_queue s (p ∷ ps)) ms) receiver)
    at_removals [] = (refl, found)
    at_removals (m ∷ ms) = (refl, found)

-- Once the thread has taken a packet it holds it, and before it has stored it get_pending_packets gives
-- no packet of its ack to any receiver, where the only entry of the ack was the one under the packet's
-- receiver and no row has it.
pub next_packet-Lacks :
    (s : PacketStorage) (p : QueuedPacket) (ps : List QueuedPacket) (receiver : List ℕ)
    → s.queue ≡ p ∷ ps
    → All (λ (i : List ℕ × ℕ). i.1 ≢ p.ack) (from_index p.receiver p.ack s.receiver_index)
    → All (λ (r : Row). r.row_ack ≢ p.ack) s.rows
    → ((next_packet s).1.taken ≡ some p)
      × All (λ (x : StoredPacket). x.ack ≢ p.ack) (get_pending_packets (next_packet s).1 receiver)
unfolding next_packet
next_packet-Lacks s p ps receiver e index rows =
    popped-Lacks s p s.queue s.remove_queue receiver ps e index rows
