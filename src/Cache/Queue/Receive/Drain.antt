-- ===== src/Cache/Queue/Receive/Drain.antt =====
-- `RecvPacket`: what its loops leave in the queue.
use rtp_http_flv.Prelude.{
  ℕ, zero, suc, ◌≤◌, ◌<◌, ◌≡◌, ◌∙◌, ap, sym, subst, ◌⊎◌, inl, inr, Bool, true, false, ◌&&◌,
  Bool-cases, Option, none, some, List, [], ◌∷◌, arith, length, ltb, done, >>=-eq-done, WhenSome,
}
use rtp_http_flv.Rtp.{RtpPack}
use rtp_http_flv.Cache.ArrayList.{remove_at}
use rtp_http_flv.Cache.Window.{Slot}
use rtp_http_flv.Cache.Queue.{Deps, Q, S}
use rtp_http_flv.Cache.Queue.Slots.{enqueue, is_first_ok, remove_first}
use rtp_http_flv.Cache.Queue.Slots.Head.{IsQueue, enqueue-IsQueue}
use rtp_http_flv.Cache.Queue.Retransmit.{dequeue, first_slot}
use rtp_http_flv.Cache.Queue.Retransmit.Order.{Numbered, dequeue_in_order}
use rtp_http_flv.Cache.Queue.Retransmit.Progress.{Answers, near, dequeue_shrinks}
use rtp_http_flv.Cache.Queue.Extract.Frame.{SameSlots, extract_flv-SameSlots}
use rtp_http_flv.Cache.Queue.Receive.{take_one, take_while, is_full, is_ready, recv_packet}

le_of_lt : {a b n : ℕ} → a < b → b ≤ n → a ≤ n
le_of_lt h k = omega arith

below : (a n : ℕ) → n ≤ near → a ≤ n → a ≤ near
below a n h k = omega arith

length-remove_at : (xs : List Slot) → length (remove_at xs 0) ≤ length xs
length-remove_at [] = omega arith
length-remove_at (x ∷ xs) = omega arith

not_ready : (ok : Bool) (m n : ℕ) → m ≡ n → (ok && ltb 1 m) ≡ false → (ok ≡ false) ⊎ (n ≤ 1)
not_ready ok m n e h = ground arith

no_longer_full : (p p' n n' : ℕ) → p' ≡ p → n' ≤ n → ltb p n ≡ false → ltb p' n' ≡ false
no_longer_full p p' n n' e h k = ground arith

module _ (d : Deps) where
  open d.slots use {size, values}

  -- The number of slots.
  abbrev pub len : S d → ℕ
  len s = length (values s.q.queue)

  same_slots : {s s' : S d} → SameSlots d s s' → IsQueue d s.q → IsQueue d s'.q × (len s' ≡ len s)
  same_slots {s} {s'} k v = (rw (k.first_seq, k.queue) v, ap (λ q. length (values q)) k.queue)

  pub take_one-IsQueue :
      (s s' : S d)
      → Numbered d
      → IsQueue d s.q
      → 0 < len s
      → take_one d s ≡ done s'
      → IsQueue d s'.q
  unfolding take_one
  take_one-IsQueue s s' n v l h =
      let (r, a, b) = >>=-eq-done (dequeue d s) _ h in
      let w = dequeue_in_order d s r.1 r.0 n v l a in
      (same_slots (extract_flv-SameSlots d r.1 s' r.0 b) w.0).0

  pub take_one_shrinks :
      (s s' : S d)
      → Answers d
      → Numbered d
      → IsQueue d s.q
      → 0 < len s
      → len s ≤ near
      → take_one d s ≡ done s'
      → len s' < len s
  unfolding take_one
  take_one_shrinks s s' n m v l k h =
      let (r, a, b) = >>=-eq-done (dequeue d s) _ h in
      let w = dequeue_in_order d s r.1 r.0 m v l a in
      omega (
        arith,
        dequeue_shrinks d s r.1 r.0 n m v l k a,
        (same_slots (extract_flv-SameSlots d r.1 s' r.0 b) w.0).1,
      )

  -- A test that fails on an empty queue.
  abbrev pub Guards : (Q d → Bool) → Type 0
  Guards test = (q : Q d) → test q ≡ true → 0 < length (values q.queue)

  pub is_full-Guards : Guards (is_full d)
  is_full-Guards q h = ground (arith, d.slots.size_lem q.queue)

  ready_first : (q : Q d) → is_ready d q ≡ true → is_first_ok d q ≡ true
  ready_first q h = ground arith

  pub is_ready-Guards : Guards (is_ready d)
  is_ready-Guards q h = ground (arith, d.slots.size_lem q.queue)

  -- What each round keeps, the loop keeps; and it ends by its test.
  take_while_keeps :
      (P : S d → Type 0) (test : Q d → Bool)
      → ((s s' : S d) → P s → test s.q ≡ true → take_one d s ≡ done s' → P s')
      → (fuel : ℕ) (s s' : S d) → P s
      → take_while d test fuel s ≡ done s'
      → P s' × (test s'.q ≡ false)
  unfolding take_while
  take_while_keeps P test keep zero s s' v h = elim (Bool-cases (test s.q)) [
    | inl more ↦ ground (arith, more)
    | inr stop ↦
        let same : s ≡ s' = cc (rw (take_while, stop) at h) in
        subst (λ (t : S d). P t × (test t.q ≡ false)) same (v, stop)
  ]
  take_while_keeps P test keep (suc fuel) s s' v h = elim (Bool-cases (test s.q)) [
    | inl more ↦
        let (s1, a, b) = >>=-eq-done (take_one d s) _ (rw (take_while, more) at h) in
        take_while_keeps P test keep fuel s1 s' (keep s s1 v more a) b
    | inr stop ↦
        let same : s ≡ s' = cc (rw (take_while, stop) at h) in
        subst (λ (t : S d). P t × (test t.q ≡ false)) same (v, stop)
  ]

  pub take_while-IsQueue :
      (test : Q d → Bool) (fuel : ℕ) (s s' : S d)
      → Guards test
      → Numbered d
      → IsQueue d s.q
      → take_while d test fuel s ≡ done s'
      → IsQueue d s'.q × (test s'.q ≡ false)
  take_while-IsQueue test fuel s s' g n =
      take_while_keeps (λ t. IsQueue d t.q) test
        (λ t t' v more e. take_one-IsQueue t t' n v (g t.q more) e) fuel s s'

  -- The queue does not grow in a loop.
  pub take_while_no_longer :
      (test : Q d → Bool) (fuel : ℕ) (s s' : S d) (n : ℕ)
      → Guards test
      → Answers d
      → Numbered d
      → n ≤ near
      → IsQueue d s.q × (len s ≤ n)
      → take_while d test fuel s ≡ done s'
      → len s' ≤ n
  take_while_no_longer test fuel s s' n g a m k v h =
      (take_while_keeps (λ t. IsQueue d t.q × (len t ≤ n)) test
        (λ t t' w more e. (
          take_one-IsQueue t t' m w.0 (g t.q more) e,
          le_of_lt (take_one_shrinks t t' a m w.0 (g t.q more) (below (len t) n k w.1) e) w.1,
        ))
        fuel s s' v h).0.1

  pub enqueue_opt :
      (q : Q d) (o : Option RtpPack)
      → WhenSome (λ rp. rp.sequence_number < 65536) o
      → IsQueue d q
      → IsQueue d (enqueue d q o)
  enqueue_opt q none n v = unfold enqueue in v
  enqueue_opt q (some rp) n v = enqueue-IsQueue d q rp n v

  -- The number of slots once a packet has been put into the queue.
  abbrev pub len_after : S d → Option RtpPack → ℕ
  len_after s rp = length (values (enqueue d s.q rp).queue)

  -- Taking a packet that is there leaves a queue that is not full as it is.
  take_ready :
      (s s' : S d)
      → is_first_ok d s.q ≡ true
      → take_one d s ≡ done s'
      → is_full d s.q ≡ false
      → is_full d s'.q ≡ false
  unfolding take_one dequeue
  take_ready s s' ready h k =
      let s1 : S d = record s { q = remove_first d s.q } in
      let (r, a, b) = >>=-eq-done (dequeue d s) _ h in
      let pair : (first_slot d s.q, s1) ≡ r = cc (rw ready at a) in
      let same = extract_flv-SameSlots d r.1 s' r.0 b in
      let q1 = ap (λ (t : Slot × S d). t.1.q.queue) pair in
      let p1 = ap (λ (t : Slot × S d). t.1.q.padding_window_size) pair in
      let n : size s'.q.queue ≡ length (remove_at (values s.q.queue) 0) =
        d.slots.size_lem s'.q.queue
        ∙ ap (λ l. length (values l)) (same.queue ∙ sym q1)
        ∙ ap length (d.slots.values-remove s.q.queue 0) in
      no_longer_full s.q.padding_window_size s'.q.padding_window_size (size s.q.queue)
        (size s'.q.queue) (same.padding ∙ sym p1)
        (omega (arith, n, length-remove_at (values s.q.queue), d.slots.size_lem s.q.queue)) k

  -- When a round of `RecvPacket` returns, the queue is in order, has at most as many slots as the
  -- padding window, and is drained as far as it can be: its first packet is missing, or is the only
  -- one left. That holds of a queue that was in order, where sequence numbers have 16 bits, those of
  -- the cloud node's answers too.
  pub recv_packet_leaves :
      (fuel : ℕ) (s s' : S d) (rp : Option RtpPack)
      → Numbered d
      → IsQueue d s.q
      → WhenSome (λ p. p.sequence_number < 65536) rp
      → recv_packet d fuel s rp ≡ done s'
      → IsQueue d s'.q
        × (len s' ≤ s'.q.padding_window_size)
        × ((is_first_ok d s'.q ≡ false) ⊎ (len s' ≤ 1))
  unfolding recv_packet
  recv_packet_leaves fuel s s' rp n v w h =
      let s0 : S d = record s { q = enqueue d s.q rp } in
      let v0 = enqueue_opt s.q rp w v in
      let (s1, a, b) = >>=-eq-done (take_while d (is_full d) fuel s0) _ h in
      let (v1, full) = take_while-IsQueue (is_full d) fuel s0 s1 is_full-Guards n v0 a in
      let (both, ready) =
        take_while_keeps (λ t. IsQueue d t.q × (is_full d t.q ≡ false)) (is_ready d)
          (λ t t' k more e. (
            take_one-IsQueue t t' n k.0 (is_ready-Guards t.q more) e,
            take_ready t t' (ready_first t.q more) e k.1,
          ))
          fuel s1 s' (v1, full) b in
      let n = d.slots.size_lem s'.q.queue in
      let full' : ltb s'.q.padding_window_size (size s'.q.queue) ≡ false = both.1 in
      (
        both.0,
        ground (arith, n, full'),
        not_ready (is_first_ok d s'.q) (size s'.q.queue) (len s') n ready,
      )
