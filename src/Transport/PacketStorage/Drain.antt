-- ===== src/Transport/PacketStorage/Drain.antt =====
-- The rounds of thread_entry one after the other, until nothing waits.
use securepath.Base.{
  ℕ, ◌≡◌, refl, ap, sym, ◌∙◌, Bool, true, false, List, [], ◌∷◌, ◌++◌, some, length, append-nil,
  append_assoc, Bool-cases, inl, inr, ◌==◌,
}
use securepath.Transport.PacketStorage.{
  QueuedPacket, PacketStorage, from_index, next_packet, pop_queue, pop_removed, write_to_database,
  notify, stored, store_packet, erase_removed, round, thread_entry,
}
use securepath.Transport.PacketStorage.Pending.{
  unflagged, held, pending, IsDone, AllAccepted, round-pending,
}

-- The sender of each packet, with its own ack.
abbrev pub senders : List QueuedPacket → List (List ℕ × ℕ)
senders [] = []
senders (p ∷ ps) = (p.sender, p.sender_ack) ∷ senders ps

-- The state with the front packet in the thread's hand.
abbrev taken_out : PacketStorage → QueuedPacket → List QueuedPacket → PacketStorage
taken_out s p ps = record s {
  taken = some p;
  queue = ps;
  receiver_index = from_index p.receiver p.ack s.receiver_index;
  remove_ack = 0;
}

next_packet-taken_out :
    (s : PacketStorage) (p : QueuedPacket) (ps : List QueuedPacket)
    → s.queue ≡ p ∷ ps
    → s.remove_queue ≡ []
    → (next_packet s).1 ≡ taken_out s p ps
unfolding next_packet pop_queue pop_removed
next_packet-taken_out s p ps q r =
    ap (λ t. pop_removed (pop_queue s t) s.remove_queue) q
    ∙ ap (λ t. pop_removed (pop_queue s (p ∷ ps)) t) r

module _ (accepts : QueuedPacket → Bool) (all : AllAccepted accepts) where
  -- What storing the packet in hand leaves, and whom it tells.
  record Keeps (s : PacketStorage) (p : QueuedPacket) (t : PacketStorage) : Type 0 where
    queue : t.queue ≡ s.queue
    removals : t.remove_queue ≡ s.remove_queue
    closed : t.closed ≡ s.closed
    to_remove : t.remove_ack ≡ s.remove_ack
    told : t.notified ≡ s.notified ++ (p.sender, p.sender_ack) ∷ []

  stored-Keeps : (s : PacketStorage) (p : QueuedPacket) → Keeps s p (stored accepts s (some p))
  unfolding stored notify write_to_database
  stored-Keeps s p = elim (Bool-cases p.remove_flag) [
    | inl flagged ↦
        rw flagged
          (record { queue = refl; removals = refl; closed = refl; to_remove = refl; told = refl })
    | inr live ↦
        rw (all p, live)
          (record { queue = refl; removals = refl; closed = refl; to_remove = refl; told = refl })
  ]

  erase_nothing : (s : PacketStorage) → s.remove_ack ≡ 0 → erase_removed accepts s ≡ s
  unfolding erase_removed
  erase_nothing s e = let none_left : (s.remove_ack == 0) ≡ true = rw e refl in rw none_left refl

  -- A round with a packet and no removal waiting.
  record HasStored (s : PacketStorage) (p : QueuedPacket) (ps : List QueuedPacket) : Type 0 where
    next : PacketStorage
    goes_on : round accepts s ≡ (true, next)
    kept : Keeps (taken_out s p ps) p next
    same : pending next ≡ pending s
    done : IsDone next

  round-HasStored :
      (s : PacketStorage) (p : QueuedPacket) (ps : List QueuedPacket)
      → s.queue ≡ p ∷ ps
      → s.remove_queue ≡ []
      → s.closed ≡ false
      → IsDone s
      → HasStored s p ps
  unfolding store_packet
  round-HasStored s p ps q r open_ done =
      let (goes_on, same, done') = round-pending accepts all s open_ done in
      let next = stored accepts (taken_out s p ps) (some p) in
      let kept = stored-Keeps (taken_out s p ps) p in
      let stores : store_packet accepts (next_packet s).1 ≡ next =
        ap (store_packet accepts) (next_packet-taken_out s p ps q r) in
      let goes : round accepts s ≡ (true, next) =
        goes_on
        ∙ ap (λ t. (true, erase_removed accepts t)) stores
        ∙ ap (λ t. (true, t)) (erase_nothing next kept.to_remove) in
      record {
        next = next;
        goes_on = goes;
        kept = kept;
        same = ap pending (sym stores) ∙ same;
        done = ap (λ t. unflagged (held t.1.taken)) (sym goes) ∙ done';
      }

  drained :
      (ps : List QueuedPacket) (s : PacketStorage)
      → s.queue ≡ ps
      → s.remove_queue ≡ []
      → s.closed ≡ false
      → IsDone s
      → ((thread_entry accepts (length ps) s).rows ≡ pending s)
        × ((thread_entry accepts (length ps) s).queue ≡ [])
        × ((thread_entry accepts (length ps) s).notified ≡ s.notified ++ senders ps)
  unfolding thread_entry unflagged
  drained [] s q r open_ done = (
    sym (
        ap (λ t. s.rows ++ (t ++ unflagged s.queue)) done
        ∙ ap (λ t. s.rows ++ unflagged t) q
        ∙ append-nil s.rows),
    q,
    sym (append-nil s.notified),
  )
  drained (p ∷ ps) s q r open_ done =
      let one = round-HasStored s p ps q r open_ done in
      let (rows, queue, told) =
        drained ps one.next one.kept.queue (one.kept.removals ∙ r) (one.kept.closed ∙ open_)
          one.done in
      rw one.goes_on (
        rows ∙ one.same,
        queue,
        told
            ∙ ap (λ t. t ++ senders ps) one.kept.told
            ∙ append_assoc s.notified ((p.sender, p.sender_ack) ∷ []) (senders ps),
      )

  -- With as many rounds as packets wait the thread brings all of them home, while the storage is open,
  -- the database takes what is written, nothing is to be removed and the thread was done: the table
  -- holds what was pending, in order, nothing waits, and the sender of each packet that waited, acked
  -- ones included, was told once, in order.
  pub thread_entry-drains :
      (s : PacketStorage)
      → s.remove_queue ≡ []
      → s.closed ≡ false
      → IsDone s
      → ((thread_entry accepts (length s.queue) s).rows ≡ pending s)
        × ((thread_entry accepts (length s.queue) s).queue ≡ [])
        × ((thread_entry accepts (length s.queue) s).notified ≡ s.notified ++ senders s.queue)
  thread_entry-drains s r open_ done = drained s.queue s refl r open_ done
