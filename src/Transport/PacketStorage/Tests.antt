-- ===== src/Transport/PacketStorage/Tests.antt =====
-- The packet storage on concrete inputs.
use securepath.Base.{ℕ, ◌≡◌, ◌≢◌, refl, true, false, [], ◌∷◌, none, some, All, ◌++◌, arith}
use securepath.Crypto.Keys.{same}
use securepath.Transport.PacketStorage.Delivery.{
  StoredPacket, get_pending_packets, next_packet-Lacks,
}
use securepath.Transport.PacketStorage.Closing.{close-rows}
use securepath.Transport.PacketStorage.Drain.{thread_entry-drains}
use securepath.Transport.PacketStorage.Removal.{contents, remove-contents}
use securepath.Transport.PacketStorage.{
  QueuedPacket, PacketStorage, insert, next_packet, thread_entry, close, remove, without,
}
use securepath.Transport.PacketStorage.Pending.{
  pending, unflagged, IsDone, without_each, insert-pending,
}

abbrev queued : ℕ → QueuedPacket
queued n = record {
  receiver = 1 ∷ [];
  packet = n ∷ [];
  ack = n;
  sender_ack = 7;
  sender = 2 ∷ [];
  remove_flag = false;
}

-- Two packets wait, of which the first is acked, and a stored one is to be removed.
abbrev storage : PacketStorage
storage = record {
  queue = record (queued 5) { remove_flag = true } ∷ queued 6 ∷ [];
  remove_queue = 4 ∷ [];
  receiver_index = (1 ∷ [], 6) ∷ (1 ∷ [], 5) ∷ [];
  sequence = 6;
  closed = false;
  rows = record { row_ack = 4; row_receiver = 1 ∷ []; row_packet = 4 ∷ [] } ∷ [];
  taken = none;
  remove_ack = 0;
  notified = [];
}

storage-IsDone : IsDone storage
unfolding unflagged
storage-IsDone = refl

-- Two packets that are not acked and a stored one to be removed.
abbrev open_storage : PacketStorage
open_storage = record storage { queue = queued 5 ∷ queued 6 ∷ [] }

close-rows_example :
    ((close (λ p. true) open_storage).rows
      ≡ without_each [] (pending (record open_storage { queue = queued 6 ∷ [] })))
    × ((close (λ p. true) open_storage).queue ≡ [])
    × ((close (λ p. true) open_storage).remove_queue ≡ [])
close-rows_example = close-rows (λ p. true) (λ p. refl) open_storage refl storage-IsDone

abbrev two_waiting : PacketStorage
two_waiting = record open_storage { remove_queue = [] }

thread_entry-drains_example :
    ((thread_entry (λ p. true) 2 two_waiting).rows ≡ pending two_waiting)
    × ((thread_entry (λ p. true) 2 two_waiting).queue ≡ [])
    × ((thread_entry (λ p. true) 2 two_waiting).notified ≡ (2 ∷ [], 7) ∷ (2 ∷ [], 7) ∷ [])
thread_entry-drains_example =
    thread_entry-drains (λ p. true) (λ p. refl) two_waiting refl refl storage-IsDone

remove-contents_example : contents (remove open_storage 6) ≡ without 6 (contents open_storage)
remove-contents_example =
    remove-contents open_storage 6 ((omega arith, tt), (tt, tt))
      ((λ live. (omega arith, tt)), ((λ live. (omega arith, tt)), tt))

insert-pending_example :
    pending (insert storage (3 ∷ []) (9 ∷ []) 8 (2 ∷ [])).1
    ≡ pending storage ++ record { row_ack = 7; row_receiver = 3 ∷ []; row_packet = 9 ∷ [] } ∷ []
insert-pending_example = insert-pending storage (3 ∷ []) (9 ∷ []) 8 (2 ∷ [])

-- One packet waits, and nothing is stored.
abbrev waiting : PacketStorage
waiting = record storage {
  queue = queued 6 ∷ [];
  remove_queue = [];
  receiver_index = (1 ∷ [], 6) ∷ [];
  rows = [];
}

next_packet-Lacks_example :
    ((next_packet waiting).1.taken ≡ some (queued 6))
    × All (λ (x : StoredPacket). x.ack ≢ 6) (get_pending_packets (next_packet waiting).1 (1 ∷ []))
unfolding same
next_packet-Lacks_example = next_packet-Lacks waiting (queued 6) [] (1 ∷ []) refl tt tt
