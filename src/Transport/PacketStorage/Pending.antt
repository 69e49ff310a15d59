-- ===== src/Transport/PacketStorage/Pending.antt =====
-- The packets that are still to be delivered: none is lost on its way to the database.
use securepath.Base.{
  ℕ, ◌+◌, ◌≡◌, refl, ap, sym, ◌∙◌, Bool, true, false, List, [], ◌∷◌, ◌++◌, Option, none, some,
  if◌then◌else◌, ◌==◌, either_branch, append_assoc, Bool-cases, inl, inr,
}
use securepath.Transport.PacketStorage.{
  QueuedPacket, Row, PacketStorage, insert, next_packet, pop_queue, pop_removed, row_of,
  write_to_database, notify, stored, store_packet, without, remove_from_database, erase_removed,
  round,
}

-- The rows of the packets that are not flagged.
unfoldable pub unflagged : List QueuedPacket → List Row
unflagged [] = []
unflagged (p ∷ ps) = let rest = unflagged ps in if p.remove_flag then rest else row_of p ∷ rest

abbrev pub held : Option QueuedPacket → List QueuedPacket
held none = []
held (some p) = p ∷ []

-- What is stored, what the thread holds and what waits, in this order.
abbrev pub pending : PacketStorage → List Row
pending s = s.rows ++ (unflagged (held s.taken) ++ unflagged s.queue)

pub unflagged-append :
    (ps qs : List QueuedPacket) → unflagged (ps ++ qs) ≡ unflagged ps ++ unflagged qs
unfolding unflagged
unflagged-append [] qs = refl
unflagged-append (p ∷ ps) qs = elim (Bool-cases p.remove_flag) [
  | inl flagged ↦ rw flagged (unflagged-append ps qs)
  | inr live ↦ rw live (ap (λ t. row_of p ∷ t) (unflagged-append ps qs))
]

-- An inserted packet becomes the last of those pending, under the next ack of the sequence.
pub insert-pending :
    (s : PacketStorage) (receiver packet : List ℕ) (sender_ack : ℕ) (sender : List ℕ)
    → pending (insert s receiver packet sender_ack sender).1
      ≡ pending s
        ++ record { row_ack = s.sequence + 1; row_receiver = receiver; row_packet = packet } ∷ []
unfolding insert unflagged
insert-pending s receiver packet sender_ack sender =
    let p : QueuedPacket = record {
      receiver = receiver;
      packet = packet;
      ack = s.sequence + 1;
      sender_ack = sender_ack;
      sender = sender;
      remove_flag = false;
    } in
    let more = unflagged (held s.taken) in
    ap (λ t. s.rows ++ (more ++ t)) (unflagged-append s.queue (p ∷ []))
    ∙ ap (λ t. s.rows ++ t) (sym (append_assoc more (unflagged s.queue) (row_of p ∷ [])))
    ∙ sym (append_assoc s.rows (more ++ unflagged s.queue) (row_of p ∷ []))

-- The thread's packet of the round before is done with: stored, or acked.
abbrev pub IsDone : PacketStorage → Type 0
IsDone s = unflagged (held s.taken) ≡ []

pop_removed-pending : (s : PacketStorage) (ns : List ℕ) → pending (pop_removed s ns) ≡ pending s
unfolding pop_removed
pop_removed-pending s [] = refl
pop_removed-pending s (n ∷ ns) = refl

pop_queue-pending :
    (s : PacketStorage) (ps : List QueuedPacket)
    → s.queue ≡ ps
    → pending (pop_queue s ps) ≡ s.rows ++ unflagged ps
unfolding pop_queue unflagged
pop_queue-pending s [] e = ap (λ t. s.rows ++ unflagged t) e
pop_queue-pending s (p ∷ ps) e = ap (λ t. s.rows ++ t) (sym (unflagged-append (p ∷ []) ps))

next_packet-pending : (s : PacketStorage) → IsDone s → pending (next_packet s).1 ≡ pending s
unfolding next_packet
next_packet-pending s done =
    pop_removed-pending (pop_queue s s.queue) s.remove_queue
    ∙ pop_queue-pending s s.queue refl
    ∙ ap (λ t. s.rows ++ (t ++ unflagged s.queue)) (sym done)

-- Every write succeeds.
abbrev pub AllAccepted : (QueuedPacket → Bool) → Type 0
AllAccepted accepts = (p : QueuedPacket) → accepts p ≡ true

-- The rows but for those whose acks are listed.
abbrev pub without_each : List ℕ → List Row → List Row
without_each [] rs = rs
without_each (n ∷ ns) rs = without_each ns (without n rs)

module _ (accepts : QueuedPacket → Bool) (all : AllAccepted accepts) where
  stored-pending :
      (s : PacketStorage) (at : Option QueuedPacket)
      → s.taken ≡ at
      → (pending (stored accepts s at) ≡ pending s) × IsDone (stored accepts s at)
  unfolding stored notify write_to_database unflagged
  stored-pending s none e = (refl, rw e refl)
  stored-pending s (some p) e = elim (Bool-cases p.remove_flag) [
    | inl flagged ↦ rw (e, flagged) (refl, refl)
    | inr live ↦ rw (e, all p, live) (append_assoc s.rows (row_of p ∷ []) (unflagged s.queue), refl)
  ]

  erase_removed-taken : (s : PacketStorage) → (erase_removed accepts s).taken ≡ s.taken
  unfolding erase_removed remove_from_database
  erase_removed-taken s =
      either_branch (λ (t : PacketStorage). t.taken ≡ s.taken) (s.remove_ack == 0) (λ _. refl)
        (λ _. refl)

  pub round-pending :
      (s : PacketStorage)
      → s.closed ≡ false
      → IsDone s
      → (round accepts s ≡ (true, erase_removed accepts (store_packet accepts (next_packet s).1)))
        × (pending (store_packet accepts (next_packet s).1) ≡ pending s)
        × IsDone (round accepts s).1
  unfolding store_packet round next_packet
  round-pending s open_ done =
      let s' = (next_packet s).1 in
      let (same, free) = stored-pending s' s'.taken refl in
      let goes_on : round accepts s ≡ (true, erase_removed accepts (store_packet accepts s')) =
        rw open_ refl in
      (
        goes_on,
        same ∙ next_packet-pending s done,
        ap (λ t. unflagged (held t.1.taken)) goes_on
            ∙ ap (λ t. unflagged (held t)) (erase_removed-taken (store_packet accepts s'))
            ∙ free,
      )
