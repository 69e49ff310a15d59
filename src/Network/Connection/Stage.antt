-- ===== src/Network/Connection/Stage.antt =====
-- The two stages of a connection, before and after its peer is authenticated, and what keeps them.
use securepath.Base.{
  ℕ, zero, suc, ◌+◌, ◌≤◌, ◌≡◌, refl, ap, ◌⊎◌, inl, inr, Bool, true, false, leb, length, ◌&&◌, ◌||◌,
  not, List, [], ◌∷◌, ◌++◌, Option, none, some, All, arith, either_branch, get_elem?,
}
use securepath.Crypto.Keys.{PublicKey}
use securepath.Network.Handshake.{Wire, Context}
use securepath.Network.Handshake.Negotiation.{
  Concrete, Handshake, ExporterFunction, remote_public_key, derive_binding,
}
use securepath.Network.Handshake.Reached.{Reached}
use securepath.Network.Handshake.Authenticated.{IsAuthenticated}
use securepath.Network.Connection.{
  ErrorCode, Notification, on_connected, on_sent, on_received, on_disconnected, Operation,
  resolving, connecting_to, starting_tls, tls_handshaking, reading_handshake, writing_handshake,
  reading_data, timing, posted_send, posted_remove, writing_data, refused_data, refused_handshake,
  send_payload, posted_close, Connection, max_handshake_frame_size, max_frame_size, pend, notify,
  tell_off, disconnect_with, receive_data, send_front, do_send, do_close,
}
use securepath.Network.Connection.Events.{without_at}

-- The operations of which one at a time brings a connection up, and those of its messages.
abbrev pub drives : Operation → ℕ
drives (resolving address) = 1
drives (connecting_to address) = 1
drives starting_tls = 1
drives tls_handshaking = 1
drives reading_handshake = 1
drives writing_handshake = 0
drives reading_data = 0
drives timing = 0
drives posted_send = 0
drives posted_remove = 0
drives (writing_data n) = 0
drives (posted_close e) = 0
drives refused_handshake = 0
drives (refused_data n) = 0

abbrev pub carries : Operation → ℕ
carries (resolving address) = 0
carries (connecting_to address) = 0
carries starting_tls = 0
carries tls_handshaking = 0
carries reading_handshake = 0
carries writing_handshake = 0
carries reading_data = 1
carries timing = 0
carries posted_send = 0
carries posted_remove = 0
carries (writing_data n) = 1
carries (posted_close e) = 0
carries refused_handshake = 0
carries (refused_data n) = 1

abbrev pub total : (Operation → ℕ) → List Operation → ℕ
total f [] = 0
total f (op ∷ ops) = f op + total f ops

pub total_pend :
    (f : Operation → ℕ) (ops : List Operation) (op : Operation)
    → total f (ops ++ op ∷ []) ≡ total f ops + f op
total_pend f [] op = omega arith
total_pend f (o ∷ ops) op = omega (arith, total_pend f ops op)

pub total-without_at :
    (f : Operation → ℕ) (ops : List Operation) (i : ℕ) (op : Operation)
    → get_elem? ops i ≡ some op
    → total f ops ≡ f op + total f (without_at i ops)
total-without_at f [] i op h = absurd (ground (arith, h))
total-without_at f (o ∷ ops) zero op h = ap (λ t. f t + total f ops) (ap (or_else o) h)
  where
    or_else : Operation → Option Operation → Operation
    or_else d none = d
    or_else d (some x) = x
total-without_at f (o ∷ ops) (suc i) op h = omega (arith, total-without_at f ops i op h)

abbrev pub IsEnd : Notification → Type 0
IsEnd on_connected = ⊥
IsEnd (on_sent n) = ⊥
IsEnd (on_received octets) = ⊥
IsEnd (on_disconnected e) = Unit {0}

abbrev pub IsSmall : Option ℕ → Type 0
IsSmall none = Unit {0}
IsSmall (some n) = n ≤ max_handshake_frame_size

module _ (c : Context) (w : Wire) (exporter : ExporterFunction) where
  abbrev pub IsReached : Option Handshake → Type 0
  IsReached none = Unit {0}
  IsReached (some h) = Reached c w exporter h

  -- Before the peer is authenticated at most `n` operations bring the connection up, no message moves,
  -- the client has heard of nothing but the end, and frames are small.
  pub record IsBefore (n : ℕ) (pending : List Operation) (up : Bool) (told : List Notification)
      (h : Option Handshake) (limit : Option ℕ) : Type 0 where
    pub few : total drives pending ≤ n
    pub no_data : total carries pending ≡ 0
    pub not_up : up ≡ false
    pub unheard : All IsEnd told
    pub reached : IsReached h
    pub small : IsSmall limit

  abbrev pub Before : ℕ → Connection → Type 0
  Before n s = IsBefore n s.pending s.is_connected s.told s.handshake s.reader_limit

  -- The handshake that succeeded, with its authenticated peer, whose key the connection reports.
  pub record IsTrusted (o : Option Handshake) (key : Option PublicKey) : Type 0 where
    pub h : Handshake
    pub kept : o ≡ some h
    pub x : Concrete
    pub concrete : h.concrete ≡ some x
    pub authenticated : IsAuthenticated c (derive_binding exporter h) x
    pub reported : key ≡ remote_public_key h

  pub record IsAfter (pending : List Operation) (o : Option Handshake) (key : Option PublicKey)
      : Type 0 where
    pub idle : total drives pending ≡ 0
    pub trusted : IsTrusted o key

  abbrev pub After : Connection → Type 0
  After s = IsAfter s.pending s.handshake s.remote_key

  abbrev pub Stage : Connection → Type 0
  Stage s = Before 1 s ⊎ After s

  pub pend-Before :
      (n : ℕ) (op : Operation) (s : Connection)
      → carries op ≡ 0
      → Before n s
      → Before (n + drives op) (pend op s)
  unfolding pend
  pend-Before n op s quiet b = record {
    few = let f = b.few in omega (arith, total_pend drives s.pending op);
    no_data = let z = b.no_data in omega (arith, total_pend carries s.pending op);
    not_up = b.not_up;
    unheard = b.unheard;
    reached = b.reached;
    small = b.small;
  }

  pub pend-After : (op : Operation) (s : Connection) → drives op ≡ 0 → After s → After (pend op s)
  unfolding pend
  pend-After op s quiet a = record {
    idle = let z = a.idle in omega (arith, total_pend drives s.pending op);
    trusted = a.trusted;
  }

  pub weaken : (s : Connection) → Before 0 s → Before 1 s
  weaken s b = record {
    few = let f = b.few in omega arith;
    no_data = b.no_data;
    not_up = b.not_up;
    unheard = b.unheard;
    reached = b.reached;
    small = b.small;
  }

  pub drop-Before :
      (n : ℕ) (e : Option ErrorCode) (s : Connection) → Before n s → Before n (disconnect_with e s)
  unfolding disconnect_with tell_off
  drop-Before n e s b =
      let down : IsBefore n s.pending false (on_disconnected e ∷ s.told) s.handshake
          s.reader_limit =
        record {
          few = b.few;
          no_data = b.no_data;
          not_up = refl;
          unheard = (tt, b.unheard);
          reached = b.reached;
          small = b.small;
        } in
      let down' : IsBefore n s.pending false s.told s.handshake s.reader_limit = record {
        few = b.few;
        no_data = b.no_data;
        not_up = refl;
        unheard = b.unheard;
        reached = b.reached;
        small = b.small;
      } in
      either_branch (Before n) s.disconnected (λ _. b)
        (λ _. either_branch (λ (t : Connection). Before n t) s.has_client (λ _. down) (λ _. down'))

  pub drop-After : (e : Option ErrorCode) (s : Connection) → After s → After (disconnect_with e s)
  unfolding disconnect_with tell_off
  drop-After e s a =
      either_branch After s.disconnected (λ _. a)
        (λ _. either_branch (λ (t : Connection). After t) s.has_client (λ _. a) (λ _. a))

  pub notify-After : (n : Notification) (s : Connection) → After s → After (notify n s)
  unfolding notify
  notify-After n s a = either_branch After s.has_client (λ _. a) (λ _. a)

  pub receive_data-After : (s : Connection) → After s → After (receive_data s)
  unfolding receive_data
  receive_data-After s a =
      either_branch After (s.is_connected && s.has_client) (λ _. pend-After reading_data s refl a)
        (λ _. a)

  send_payload-After :
      (b : Bool) (payload : List ℕ) (s : Connection) → After s → After (send_payload b payload s)
  unfolding send_payload
  send_payload-After true payload s a = pend-After (writing_data _) _ refl a
  send_payload-After false payload s a = pend-After (refused_data _) s refl a

  send_front-After : (q : List (List ℕ)) (s : Connection) → After s → After (send_front q s)
  unfolding send_front
  send_front-After [] s a = a
  send_front-After (payload ∷ rest) s a =
      send_payload-After (leb (length payload) max_frame_size) payload _ a

  pub do_send-After : (s : Connection) → After s → After (do_send s)
  unfolding do_send
  do_send-After s a =
      either_branch After (s.writing || not s.is_connected) (λ _. a)
        (λ _. send_front-After s.out_queue s a)

  pub do_send-Before : (n : ℕ) (s : Connection) → Before n s → Before n (do_send s)
  unfolding do_send
  do_send-Before n s b =
      either_branch (Before n) (s.writing || not s.is_connected) (λ _. b)
        (λ up. absurd (ground (arith, up, b.not_up)))

  pub do_close-Stage : (s : Connection) → Stage s → Stage (do_close s)
  unfolding do_close
  do_close-Stage s (inl b) = inl (
      either_branch
        (λ (freed : Connection).
          Before 1 (disconnect_with none (record freed { has_client = false })))
        (s.has_server && s.has_client)
        (λ _. drop-Before 1 none _ (pend-Before 1 posted_remove _ refl b))
        (λ _. drop-Before 1 none _ b))
  do_close-Stage s (inr a) = inr (
      either_branch
        (λ (freed : Connection). After (disconnect_with none (record freed { has_client = false })))
        (s.has_server && s.has_client) (λ _. drop-After none _ (pend-After posted_remove _ refl a))
        (λ _. drop-After none _ a))
