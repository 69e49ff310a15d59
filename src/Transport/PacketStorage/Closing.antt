-- ===== src/Transport/PacketStorage/Closing.antt =====
-- Closing the storage: the last round of its thread, and purge_queues after it.
use securepath.Base.{
  ℕ, ◌≡◌, refl, ap, sym, ◌∙◌, Bool, true, false, List, [], ◌∷◌, ◌++◌, append-nil, append_assoc,
  Bool-cases, inl, inr,
}
use securepath.Transport.PacketStorage.{
  QueuedPacket, PacketStorage, next_packet, pop_queue, pop_removed, write_to_database, purge_packet,
  purge_queue, purge_removed, purge_queues, remove_from_database, round, leave, close,
}
use securepath.Transport.PacketStorage.Pending.{
  unflagged, unflagged-append, pending, IsDone, AllAccepted, without_each,
}

-- A list without its first.
abbrev pub but_first {ℓ} : {A : Type ℓ} → List A → List A
but_first [] = []
but_first (x ∷ xs) = xs

popped_rest :
    (s : PacketStorage) (ps : List QueuedPacket) (ns : List ℕ)
    → s.queue ≡ ps
    → s.remove_queue ≡ ns
    → ((pop_removed (pop_queue s ps) ns).rows ≡ s.rows)
      × ((pop_removed (pop_queue s ps) ns).queue ≡ but_first ps)
      × ((pop_removed (pop_queue s ps) ns).remove_queue ≡ but_first ns)
unfolding pop_queue pop_removed
popped_rest s [] [] e f = (refl, e, f)
popped_rest s [] (n ∷ ns) e f = (refl, e, refl)
popped_rest s (p ∷ ps) [] e f = (refl, refl, f)
popped_rest s (p ∷ ps) (n ∷ ns) e f = (refl, refl, refl)

module _ (accepts : QueuedPacket → Bool) (all : AllAccepted accepts) where
  purge_packet-rows :
      (s : PacketStorage) (p : QueuedPacket)
      → ((purge_packet accepts s p).rows ≡ s.rows ++ unflagged (p ∷ []))
        × ((purge_packet accepts s p).remove_queue ≡ s.remove_queue)
  unfolding purge_packet write_to_database unflagged
  purge_packet-rows s p = elim (Bool-cases p.remove_flag) [
    | inl flagged ↦ simp (flagged, append-nil) (refl, refl)
    | inr live ↦ simp (live, all p) (refl, refl)
  ]

  nothing_waits :
      (s : PacketStorage) → (s.rows ≡ s.rows ++ unflagged []) × (s.remove_queue ≡ s.remove_queue)
  unfolding unflagged
  nothing_waits s = (sym (append-nil s.rows), refl)

  purge_queue-rows :
      (s : PacketStorage) (ps : List QueuedPacket)
      → ((purge_queue accepts s ps).rows ≡ s.rows ++ unflagged ps)
        × ((purge_queue accepts s ps).remove_queue ≡ s.remove_queue)
  unfolding purge_queue
  purge_queue-rows s [] = nothing_waits s
  purge_queue-rows s (p ∷ ps) =
      let (one, same) = purge_packet-rows s p in
      let (rows, removed) = purge_queue-rows (purge_packet accepts s p) ps in
      (
        rows
            ∙ ap (λ t. t ++ unflagged ps) one
            ∙ append_assoc s.rows (unflagged (p ∷ [])) (unflagged ps)
            ∙ ap (λ t. s.rows ++ t) (sym (unflagged-append (p ∷ []) ps)),
        removed ∙ same,
      )

  purge_removed-rows :
      (s : PacketStorage) (ns : List ℕ) → (purge_removed accepts s ns).rows ≡ without_each ns s.rows
  unfolding purge_removed remove_from_database
  purge_removed-rows s [] = refl
  purge_removed-rows s (n ∷ ns) = purge_removed-rows (remove_from_database s n) ns

  purge_removed-queue :
      (s : PacketStorage) (ns : List ℕ) → (purge_removed accepts s ns).queue ≡ s.queue
  unfolding purge_removed remove_from_database
  purge_removed-queue s [] = refl
  purge_removed-queue s (n ∷ ns) = purge_removed-queue (remove_from_database s n) ns

  purge_queues-rows :
      (s : PacketStorage)
      → IsDone s
      → ((purge_queues accepts s).rows ≡ without_each s.remove_queue (pending s))
        × ((purge_queues accepts s).queue ≡ [])
        × ((purge_queues accepts s).remove_queue ≡ [])
  unfolding purge_queues
  purge_queues-rows s done =
      let (rows, removed) = purge_queue-rows s s.queue in
      let s' : PacketStorage = record (purge_queue accepts s s.queue) { queue = [] } in
      (
        purge_removed-rows s' s'.remove_queue
            ∙ ap (λ t. without_each t s'.rows) removed
            ∙ ap (without_each s.remove_queue)
                (rows ∙ ap (λ t. s.rows ++ (t ++ unflagged s.queue)) (sym done)),
        purge_removed-queue s' s'.remove_queue,
        refl,
      )

  last_round : PacketStorage → PacketStorage
  last_round s = (round accepts (record s { closed = true })).1

  -- The thread's last round takes the first of each queue, and handles neither.
  last_round-drops :
      (s : PacketStorage)
      → (pending (last_round s) ≡ s.rows ++ unflagged (but_first s.queue))
        × ((last_round s).remove_queue ≡ but_first s.remove_queue)
        × IsDone (last_round s)
  unfolding last_round round next_packet leave unflagged
  last_round-drops s =
      let (rows, queue, removals) =
        popped_rest (record s { closed = true }) s.queue s.remove_queue refl refl in
      (
        ap (λ t. t ++ unflagged (last_round s).queue) rows ∙ ap (λ t. s.rows ++ unflagged t) queue,
        removals,
        refl,
      )

  -- Closing an open storage whose thread is done, while the database takes what is written: no packet
  -- and no removal waits any more, and the database has what was pending, in order, less the first
  -- packet of the queue, without the rows to be removed but for the first removal. The thread took
  -- those two and handled neither.
  pub close-rows :
      (s : PacketStorage)
      → s.closed ≡ false
      → IsDone s
      → ((close accepts s).rows
          ≡ without_each
              (but_first s.remove_queue)
              (pending (record s { queue = but_first s.queue })))
        × ((close accepts s).queue ≡ [])
        × ((close accepts s).remove_queue ≡ [])
  unfolding close last_round
  close-rows s open_ done =
      let (kept, removals, free) = last_round-drops s in
      let (rows, queue, none_left) = purge_queues-rows (last_round s) free in
      rw open_ (
        rows
            ∙ ap (λ t. without_each t (pending (last_round s))) removals
            ∙ ap (without_each (but_first s.remove_queue))
                (kept ∙ ap (λ t. s.rows ++ (t ++ unflagged (but_first s.queue))) (sym done)),
        queue,
        none_left,
      )
