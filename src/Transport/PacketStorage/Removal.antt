-- ===== src/Transport/PacketStorage/Removal.antt =====
-- `remove` against what the storage promises: its contents without a packet.
use securepath.Base.{
  ℕ, ◌≡◌, ◌≢◌, refl, ap, sym, ◌∙◌, Bool, true, false, ◌⊎◌, inl, inr, List, [], ◌∷◌, ◌++◌, Option,
  none, some, All, Bool-cases, if◌then◌else◌, ◌==◌, ==_iff, either_branch, subst, arith,
}
use securepath.Transport.PacketStorage.{
  QueuedPacket, Row, PacketStorage, row_of, without, flag_in, removed_at, remove_taken, remove,
}
use securepath.Transport.PacketStorage.Pending.{unflagged, held, pending, without_each}

-- What is left for the receivers once every removal is done.
abbrev pub contents : PacketStorage → List Row
contents s = without_each s.remove_queue (pending s)

abbrev pub AreDistinct : List QueuedPacket → Type 0
AreDistinct [] = Unit {0}
AreDistinct (p ∷ ps) = All (λ (q : QueuedPacket). q.ack ≢ p.ack) ps × AreDistinct ps

abbrev Lack : ℕ → List Row → Type 0
Lack n rs = All (λ (r : Row). r.row_ack ≢ n) rs

-- A packet that is not flagged has no row yet.
abbrev pub AreUnstored : List Row → List QueuedPacket → Type 0
AreUnstored rs ps = All (λ (p : QueuedPacket). p.remove_flag ≡ false → Lack p.ack rs) ps

without-without : (n m : ℕ) (rs : List Row) → without n (without m rs) ≡ without m (without n rs)
unfolding without
without-without n m [] = refl
without-without n m (r ∷ rs) =
    let rest = without-without n m rs in
    elim (Bool-cases (r.row_ack == n)) [
      | inl here ↦ elim (Bool-cases (r.row_ack == m)) [
        | inl there ↦ simp (here, there) rest
        | inr other ↦ simp (here, other) rest
      ]
      | inr away ↦ elim (Bool-cases (r.row_ack == m)) [
        | inl there ↦ simp (away, there) rest
        | inr other ↦ simp (away, other) (ap (λ t. r ∷ t) rest)
      ]
    ]

without_each-without :
    (ms : List ℕ) (n : ℕ) (rs : List Row)
    → without_each ms (without n rs) ≡ without n (without_each ms rs)
without_each-without [] n rs = refl
without_each-without (m ∷ ms) n rs =
    ap (without_each ms) (without-without m n rs) ∙ without_each-without ms n (without m rs)

without_each-last :
    (ms : List ℕ) (n : ℕ) (rs : List Row)
    → without_each (ms ++ n ∷ []) rs ≡ without n (without_each ms rs)
without_each-last [] n rs = refl
without_each-last (m ∷ ms) n rs = without_each-last ms n (without m rs)

without-append : (n : ℕ) (xs ys : List Row) → without n (xs ++ ys) ≡ without n xs ++ without n ys
unfolding without
without-append n [] ys = refl
without-append n (x ∷ xs) ys = elim (Bool-cases (x.row_ack == n)) [
  | inl here ↦ rw here (without-append n xs ys)
  | inr away ↦ rw away (ap (λ t. x ∷ t) (without-append n xs ys))
]

without_absent : (n : ℕ) (rs : List Row) → Lack n rs → without n rs ≡ rs
unfolding without
without_absent n [] h = refl
without_absent n (r ∷ rs) (other, rest) = elim (Bool-cases (r.row_ack == n)) [
  | inl here ↦ absurd (other ((==_iff r.row_ack n).0 here))
  | inr away ↦ rw away (ap (λ t. r ∷ t) (without_absent n rs rest))
]

unflagged-Lack :
    (n : ℕ) (ps : List QueuedPacket)
    → All (λ (q : QueuedPacket). q.ack ≢ n) ps
    → Lack n (unflagged ps)
unfolding unflagged
unflagged-Lack n [] h = tt
unflagged-Lack n (p ∷ ps) (other, others) =
    let rest = unflagged-Lack n ps others in
    either_branch (Lack n) p.remove_flag (λ _. rest) (λ _. (other, rest))

-- The packet was there, not flagged and without a row; or the removal has to go to the database.
abbrev Flagged : ℕ → List Row → Option Bool → List Row → List Row → Type 0
Flagged n rows found before after =
    ((found ≡ some false) × (after ≡ without n before) × Lack n rows)
    ⊎ (((s : PacketStorage)
          → removed_at n s found ≡ record s { remove_queue = s.remove_queue ++ n ∷ [] })
        × (after ≡ before))

flag_in-Flagged :
    (n : ℕ) (rows : List Row) (ps : List QueuedPacket)
    → AreDistinct ps
    → AreUnstored rows ps
    → Flagged n rows (flag_in n ps).0 (unflagged ps) (unflagged (flag_in n ps).1)
unfolding flag_in unflagged without removed_at
flag_in-Flagged n rows [] d h = inr (λ s. refl, refl)
flag_in-Flagged n rows (p ∷ ps) (alone, d) (fresh, h) = elim (Bool-cases (p.ack == n)) [
  | inl here ↦
      let same : p.ack ≡ n = (==_iff p.ack n).0 here in
      elim (Bool-cases p.remove_flag) [
        | inl flagged ↦ simp (here, flagged) (inr (λ s. refl, refl))
        | inr live ↦
            let others = subst (λ m. All (λ (q : QueuedPacket). q.ack ≢ m) ps) same alone in
            let absent = without_absent n (unflagged ps) (unflagged-Lack n ps others) in
            simp (here, live) (inl (refl, sym absent, subst (λ m. Lack m rows) same (fresh live)))
      ]
  | inr away ↦ elim (flag_in-Flagged n rows ps d h) [
    | inl (found, after, lack) ↦ elim (Bool-cases p.remove_flag) [
      | inl flagged ↦ simp (away, flagged) (inl (found, after, lack))
      | inr live ↦ simp (away, live) (inl (found, ap (λ t. row_of p ∷ t) after, lack))
    ]
    | inr (queues, after) ↦ elim (Bool-cases p.remove_flag) [
      | inl flagged ↦ simp (away, flagged) (inr (queues, after))
      | inr live ↦ simp (away, live) (inr (queues, ap (λ t. row_of p ∷ t) after))
    ]
  ]
]

deleted :
    (n : ℕ) (s t : PacketStorage)
    → t.remove_queue ≡ s.remove_queue
    → pending t ≡ without n (pending s)
    → contents t ≡ without n (contents s)
deleted n s t same less =
    ap (λ ms. without_each ms (pending t)) same
    ∙ ap (without_each s.remove_queue) less
    ∙ without_each-without s.remove_queue n (pending s)

queued :
    (n : ℕ) (s t : PacketStorage)
    → t.remove_queue ≡ s.remove_queue ++ n ∷ []
    → pending t ≡ pending s
    → contents t ≡ without n (contents s)
queued n s t more same =
    ap (λ ms. without_each ms (pending t)) more
    ∙ ap (without_each (s.remove_queue ++ n ∷ [])) same
    ∙ without_each-last s.remove_queue n (pending s)

-- What stands around the flagged packet has other acks.
without_between :
    (n : ℕ) (rows mid before after : List Row)
    → Lack n rows
    → Lack n mid
    → after ≡ without n before
    → rows ++ (mid ++ after) ≡ without n (rows ++ (mid ++ before))
without_between n rows mid before after l m e =
    ap (λ t. rows ++ (mid ++ t)) e
    ∙ ap (λ t. t ++ (mid ++ without n before)) (sym (without_absent n rows l))
    ∙ ap (λ t. without n rows ++ (t ++ without n before)) (sym (without_absent n mid m))
    ∙ ap (λ t. without n rows ++ t) (sym (without-append n mid before))
    ∙ sym (without-append n rows (mid ++ before))

-- The packets of the queue are searched.
searched :
    (n : ℕ) (s : PacketStorage)
    → Lack n (unflagged (held s.taken))
    → AreDistinct s.queue
    → AreUnstored s.rows s.queue
    → contents (removed_at n (record s { queue = (flag_in n s.queue).1 }) (flag_in n s.queue).0)
      ≡ without n (contents s)
unfolding removed_at
searched n s held_other d h =
    let t : PacketStorage = record s { queue = (flag_in n s.queue).1 } in
    elim (flag_in-Flagged n s.rows s.queue d h) [
      | inl (found, after, lack) ↦
          ap (λ f. contents (removed_at n t f)) found
          ∙ deleted n s t refl (
              without_between n s.rows (unflagged (held s.taken)) (unflagged s.queue)
                (unflagged (flag_in n s.queue).1) lack held_other after)
      | inr (queues, after) ↦
          ap contents (queues t)
          ∙ queued n s (record t { remove_queue = t.remove_queue ++ n ∷ [] }) refl
              (ap (λ u. s.rows ++ (unflagged (held s.taken) ++ u)) after)
    ]

remove_taken-contents :
    (n : ℕ) (s : PacketStorage) (at : Option QueuedPacket)
    → s.taken ≡ at
    → AreDistinct (held at ++ s.queue)
    → AreUnstored s.rows (held at ++ s.queue)
    → contents (remove_taken n s at) ≡ without n (contents s)
unfolding remove_taken removed_at unflagged without
remove_taken-contents n s none e d h =
    searched n s (subst (λ o. Lack n (unflagged (held o))) (sym e) tt) d h
remove_taken-contents n s (some p) e (alone, d) (fresh, h) =
    let shape : pending s ≡ s.rows ++ (unflagged (p ∷ []) ++ unflagged s.queue) =
      ap (λ o. s.rows ++ (unflagged (held o) ++ unflagged s.queue)) e in
    let with_flag : Bool → List Row =
      λ b. s.rows ++ ((if b then [] else row_of p ∷ []) ++ unflagged s.queue) in
    let in_hand : PacketStorage = record s { taken = some (record p { remove_flag = true }) } in
    elim (Bool-cases (p.ack == n)) [
      | inl here ↦
          let same : p.ack ≡ n = (==_iff p.ack n).0 here in
          elim (Bool-cases p.remove_flag) [
            | inl flagged ↦
                simp (here, flagged)
                  (queued n s (record in_hand { remove_queue = s.remove_queue ++ n ∷ [] }) refl
                    (sym (shape ∙ ap with_flag flagged)))
            | inr live ↦
                let others =
                  subst (λ m. All (λ (q : QueuedPacket). q.ack ≢ m) s.queue) same alone in
                let absent =
                  without_absent n (unflagged s.queue) (unflagged-Lack n s.queue others) in
                let gone : unflagged s.queue ≡ without n (row_of p ∷ unflagged s.queue) =
                  simp here (sym absent) in
                simp (here, live)
                  (deleted n s in_hand refl (
                    without_between n s.rows [] (row_of p ∷ unflagged s.queue) (unflagged s.queue)
                      (subst (λ m. Lack m s.rows) same (fresh live)) tt gone
                    ∙ ap (without n) (sym (shape ∙ ap with_flag live))))
          ]
      | inr away ↦
          let other : p.ack ≢ n = λ is. absurd (ground (arith, is, away)) in
          rw away (
            searched n s
              (subst (λ o. Lack n (unflagged (held o))) (sym e)
                (unflagged-Lack n (p ∷ []) (other, tt)))
              d h)
    ]

-- `remove` takes the packet with the ack off the contents, and nothing else, wherever the packet is: in
-- the queue, in the thread's hand, acked before, or in the table only. The acks of the packets that are
-- alive are distinct, and those not yet acked have no row.
pub remove-contents :
    (s : PacketStorage) (n : ℕ)
    → AreDistinct (held s.taken ++ s.queue)
    → AreUnstored s.rows (held s.taken ++ s.queue)
    → contents (remove s n) ≡ without n (contents s)
unfolding remove
remove-contents s n d h = remove_taken-contents n s s.taken refl d h
