-- ===== src/Transport/PacketStorage.antt =====
-- securepath/infrastructure/packet_transport/server/server_lib/packet_storage.cpp: each function is
-- one critical section, or one part of the database thread's round. The table is a list of rows;
-- `accepts` says whether the database takes a packet. Time stamps and statistics are left out.
pub mod Pending
pub mod Delivery
pub mod Closing
pub mod Drain
pub mod Removal
mod Tests
use securepath.Base.{
  ℕ, zero, suc, ◌+◌, Bool, true, false, ◌&&◌, not, List, [], ◌∷◌, ◌++◌, Option, none, some, ◌==◌,
  if◌then◌else◌,
}
use securepath.Crypto.Keys.{same}

-- The flag is set once the packet is acked or disposed of.
pub record QueuedPacket : Type 0 where
  pub receiver : List ℕ
  pub packet : List ℕ
  pub ack : ℕ
  pub sender_ack : ℕ
  pub sender : List ℕ
  pub remove_flag : Bool

pub record Row : Type 0 where
  pub row_ack : ℕ
  pub row_receiver : List ℕ
  pub row_packet : List ℕ

-- `taken` and `remove_ack` are the variables of the thread; `notified` is whom it has called.
pub record PacketStorage : Type 0 where
  pub queue : List QueuedPacket
  pub remove_queue : List ℕ
  pub receiver_index : List (List ℕ × ℕ)
  pub sequence : ℕ
  pub closed : Bool
  pub rows : List Row
  pub taken : Option QueuedPacket
  pub remove_ack : ℕ
  pub notified : List (List ℕ × ℕ)

unfoldable pub insert : PacketStorage → List ℕ → List ℕ → ℕ → List ℕ → ℕ × PacketStorage
insert s receiver packet sender_ack sender =
    let next = s.sequence + 1 in
    let p : QueuedPacket = record {
      receiver = receiver;
      packet = packet;
      ack = next;
      sender_ack = sender_ack;
      sender = sender;
      remove_flag = false;
    } in
    (
      next,
      record s {
        sequence = next;
        queue = s.queue ++ p ∷ [];
        receiver_index = (receiver, next) ∷ s.receiver_index;
      },
    )

-- `test_and_set` on the packet with this ack, if it is still alive in the queue.
unfoldable pub flag_in : ℕ → List QueuedPacket → Option Bool × List QueuedPacket
flag_in n [] = (none, [])
flag_in n (p ∷ ps) =
    let (found, rest) = flag_in n ps in
    if p.ack == n
    then (some p.remove_flag, record p { remove_flag = true } ∷ ps)
    else (found, p ∷ rest)

-- A packet that is gone, or was flagged before, is removed from the database.
removed_at : ℕ → PacketStorage → Option Bool → PacketStorage
removed_at n s none = record s { remove_queue = s.remove_queue ++ n ∷ [] }
removed_at n s (some true) = record s { remove_queue = s.remove_queue ++ n ∷ [] }
removed_at n s (some false) = s

-- The packet that the thread holds is the one looked for, or those in the queue are.
remove_taken : ℕ → PacketStorage → Option QueuedPacket → PacketStorage
unfolding removed_at
remove_taken n s none =
    let (found, queue) = flag_in n s.queue in removed_at n (record s { queue = queue }) found
remove_taken n s (some p) =
    let (found, queue) = flag_in n s.queue in
    if p.ack == n
    then removed_at n (record s { taken = some (record p { remove_flag = true }) })
        (some p.remove_flag)
    else removed_at n (record s { queue = queue }) found

unfoldable pub remove : PacketStorage → ℕ → PacketStorage
unfolding remove_taken
remove s n = remove_taken n s s.taken

-- The first entry of the receiver that has the ack.
abbrev from_index : List ℕ → ℕ → List (List ℕ × ℕ) → List (List ℕ × ℕ)
from_index receiver n [] = []
from_index receiver n (i ∷ is) =
    let rest = from_index receiver n is in if same i.0 receiver && (i.1 == n) then is else i ∷ rest

pop_queue : PacketStorage → List QueuedPacket → PacketStorage
pop_queue s [] = record s { taken = none }
pop_queue s (p ∷ ps) = record s {
  taken = some p;
  queue = ps;
  receiver_index = from_index p.receiver p.ack s.receiver_index;
}

pop_removed : PacketStorage → List ℕ → PacketStorage
pop_removed s [] = record s { remove_ack = 0 }
pop_removed s (n ∷ ns) = record s { remove_ack = n; remove_queue = ns }

-- What `next_packet` does once it no longer waits; the thread goes on unless the storage is closed.
unfoldable pub next_packet : PacketStorage → Bool × PacketStorage
unfolding pop_queue pop_removed
next_packet s = let s' = pop_queue s s.queue in (not s.closed, pop_removed s' s.remove_queue)

-- The thread's variables are gone.
unfoldable pub leave : PacketStorage → PacketStorage
leave s = record s { taken = none; remove_ack = 0 }

abbrev pub row_of : QueuedPacket → Row
row_of p = record { row_ack = p.ack; row_receiver = p.receiver; row_packet = p.packet }

unfoldable pub without : ℕ → List Row → List Row
without n [] = []
without n (r ∷ rs) = let rest = without n rs in if r.row_ack == n then rest else r ∷ rest

unfoldable pub remove_from_database : PacketStorage → ℕ → PacketStorage
remove_from_database s n = record s { rows = without n s.rows }

module _ (accepts : QueuedPacket → Bool) where
  unfoldable pub write_to_database : PacketStorage → QueuedPacket → Bool × PacketStorage
  write_to_database s p =
      if accepts p then (true, record s { rows = s.rows ++ row_of p ∷ [] }) else (false, s)

  notify : QueuedPacket → Bool × PacketStorage → PacketStorage
  notify p (false, s) = s
  notify p (true, s) = record s { notified = s.notified ++ (p.sender, p.sender_ack) ∷ [] }

  -- The packet of the round. The pointer is dropped in the next round: until then its flag is set.
  stored : PacketStorage → Option QueuedPacket → PacketStorage
  unfolding notify
  stored s none = s
  stored s (some p) =
      let held = record s { taken = some (record p { remove_flag = true }) } in
      if p.remove_flag then notify p (true, held) else notify p (write_to_database held p)

  unfoldable pub store_packet : PacketStorage → PacketStorage
  unfolding stored
  store_packet s = stored s s.taken

  unfoldable pub erase_removed : PacketStorage → PacketStorage
  erase_removed s = if s.remove_ack == 0 then s else remove_from_database s s.remove_ack

  -- One round of `thread_entry`, with nothing between its parts, and whether there is another.
  unfoldable pub round : PacketStorage → Bool × PacketStorage
  round s =
      let (goes_on, s') = next_packet s in
      if goes_on then (true, erase_removed (store_packet s')) else (false, leave s')

  -- The loop of the thread for at most so many rounds.
  unfoldable pub thread_entry : ℕ → PacketStorage → PacketStorage
  thread_entry zero s = s
  thread_entry (suc n) s =
      let (goes_on, s') = round s in let rest = thread_entry n s' in if goes_on then rest else s'

  unfoldable pub purge_packet : PacketStorage → QueuedPacket → PacketStorage
  unfolding write_to_database
  purge_packet s p = if p.remove_flag then s else (write_to_database s p).1

  purge_queue : PacketStorage → List QueuedPacket → PacketStorage
  purge_queue s [] = s
  purge_queue s (p ∷ ps) = purge_queue (purge_packet s p) ps

  purge_removed : PacketStorage → List ℕ → PacketStorage
  purge_removed s [] = s
  purge_removed s (n ∷ ns) = purge_removed (remove_from_database s n) ns

  unfoldable pub purge_queues : PacketStorage → PacketStorage
  unfolding purge_queue purge_removed
  purge_queues s =
      let s' = record (purge_queue s s.queue) { queue = [] } in
      record (purge_removed s' s'.remove_queue) { remove_queue = [] }

  -- The thread is between two rounds or waits when it is told; joining it lets it begin its last
  -- round. A thread that was joined before is not joined again.
  unfoldable pub close : PacketStorage → PacketStorage
  close s =
      let told : PacketStorage = record s { closed = true } in
      if s.closed then purge_queues s else purge_queues (round told).1
