-- ===== src/Cache/Queue/Receive/Keeps.antt =====
-- What a round of `RecvPacket` leaves alone: the stream that the queue serves, what it is written to,
-- and behind the queue what its calls keep.
use rtp_http_flv.Prelude.{
  ℕ, zero, suc, ◌+◌, ◌*◌, ◌&&◌, ltb, ◌==◌, ◌≡◌, refl, ◌∙◌, sym, ap, subst, Bool, Bool-cases, inl,
  inr, Option, none, some, arith, Run, done, ◌>>=◌, >>=-eq-done, done-inj,
}
use rtp_http_flv.Rtp.{RtpPack}
use rtp_http_flv.Utils.Seq.{add16}
use rtp_http_flv.Cache.Window.{Slot}
use rtp_http_flv.Cache.Queue.{Deps, Q, S, max_udp_cache_size}
use rtp_http_flv.Cache.Queue.Slots.{enqueue, is_first_ok, get_head_nil, remove_head, remove_first}
use rtp_http_flv.Cache.Queue.Retransmit.{reshape, grow_buffer, protect_head, run_quic, dequeue}
use rtp_http_flv.Cache.Queue.Extract.Frame.{IsKept, Anything-IsKept, extract_flv-Leaves}
use rtp_http_flv.Cache.Queue.Receive.{take_one, take_while, is_full, is_ready, recv_packet}

module _ (d : Deps) where
  -- The stream, the size of the window, the source and the file.
  pub record SameEnds (q q' : Q d) : Type 0 where
    pub ssrc : q'.ssrc ≡ q.ssrc
    pub padding : q'.padding_window_size ≡ q.padding_window_size
    pub hls_writer : q'.hls_writer ≡ q.hls_writer
    pub flv_file : q'.flv_file ≡ q.flv_file

  SameEnds-trans : {q r t : Q d} → SameEnds q r → SameEnds r t → SameEnds q t
  SameEnds-trans a b = record {
    ssrc = b.ssrc ∙ a.ssrc;
    padding = b.padding ∙ a.padding;
    hls_writer = b.hls_writer ∙ a.hls_writer;
    flv_file = b.flv_file ∙ a.flv_file;
  }

  enqueue-SameEnds : (q : Q d) (rp : Option RtpPack) → SameEnds q (enqueue d q rp)
  unfolding enqueue
  enqueue-SameEnds q rp = ground arith

  remove_head-SameEnds : (n removed : ℕ) (q : Q d) → SameEnds q (remove_head d n removed q).1
  unfolding remove_head
  remove_head-SameEnds zero removed q = ground arith
  remove_head-SameEnds (suc n) removed q =
      let q' : Q d = record (remove_first d q) { acc_loss = suc q.acc_loss } in
      ground (arith, remove_head-SameEnds n (suc removed) q')

module _ (d : Deps) (R : d.node.Net → d.node.Net → Type 0) (k : IsKept d R) where
  pub record Goes (s s' : S d) : Type 0 where
    pub ends : SameEnds d s.q s'.q
    pub net : R s.net s'.net

  Goes-trans : (s t u : S d) → Goes s t → Goes t u → Goes s u
  Goes-trans s t u a b = record {
    ends = SameEnds-trans d a.ends b.ends;
    net = k.after s.net t.net u.net a.net b.net;
  }

  still : (s s' : S d) → SameEnds d s.q s'.q → s'.net ≡ s.net → Goes s s'
  still s s' e n = record { ends = e; net = subst (R s.net) (sym n) (k.same s.net) }

  done_Goes : (s t s' : S d) → Goes s t → ◌≡◌ {A = Run (S d)} (done t) (done s') → Goes s s'
  done_Goes s t s' a e = subst (Goes s) (done-inj t s' e) a

  asked_Goes :
      (s s' : S d) (ssrc seq : ℕ) (r : Option RtpPack × d.node.Net)
      → d.node.get_by_quic ssrc seq s.net ≡ done r
      → SameEnds d s.q s'.q
      → s'.net ≡ r.1
      → Goes s s'
  asked_Goes s s' ssrc seq r a e n = record {
    ends = e;
    net = subst (R s.net) (sym n) (k.quic ssrc seq s.net r a);
  }

  reshape-Goes : (s s' : S d) (n : ℕ) → reshape d s ≡ done (n, s') → Goes s s'
  unfolding reshape
  reshape-Goes s s' n h = go (d.slots.get s.q.queue 1) h
    where
      go :
          (o : Option Slot)
          → ◌≡◌ {A = Run (ℕ × S d)}
              (elim o [
                | none ↦ done (0, s)
                | some x ↦ (elim x [
                  | some rp ↦ done (0, s)
                  | none ↦ (do
                    (rp, net') ← d.node.get_by_quic s.q.ssrc (add16 s.q.first_seq 1) s.net
                    let (removed, q') = remove_head d (d.slots.size s.q.queue) 0 s.q
                    done (removed, record s { q = q'; net = net' }))
                ])
              ])
              (done (n, s'))
          → Goes s s'
      go none e = still s s' (ground arith) (ground arith)
      go (some (some rp)) e = still s s' (ground arith) (ground arith)
      go (some none) e =
          let (r, a, f) =
            >>=-eq-done (d.node.get_by_quic s.q.ssrc (add16 s.q.first_seq 1) s.net) _ e in
          let same = ap (λ (t : ℕ × S d). t.1) (done-inj _ _ f) in
          subst (Goes s) same (
            asked_Goes s _ s.q.ssrc (add16 s.q.first_seq 1) r a
              (remove_head-SameEnds d (d.slots.size s.q.queue) 0 s.q) refl)

  grow_buffer-Goes : (s : S d) → Goes s (grow_buffer d s).1
  unfolding grow_buffer
  grow_buffer-Goes s = elim (Bool-cases (ltb max_udp_cache_size (s.udp_buffer_size * 2))) [
    | inl top ↦ still s _ (ground (arith, top)) (ground (arith, top))
    | inr more ↦ record {
      ends = ground (arith, more);
      net = rw (grow_buffer, more) (k.buffer (s.udp_buffer_size * 2) s.net);
    }
  ]

  protect_head-Goes :
      (s s' : S d) (seq : ℕ) (more : Bool) → protect_head d s seq ≡ done (more, s') → Goes s s'
  unfolding protect_head
  protect_head-Goes s s' seq more h =
      elim (Bool-cases
        (seq == add16 s.q.previous_lost_seq 1 && d.protect && ltb 5 (get_head_nil d s.q))) [
          | inr fine ↦ still s s' (ground arith) (ground arith)
          | inl lossy ↦
              let ((n, s1), a, b) = >>=-eq-done (reshape d s) _ (rw lossy at h) in
              let s2 : S d = (grow_buffer d s1).1 in
              let grown : Goes s s2 =
                Goes-trans s s1 s2 (reshape-Goes s s1 n a) (grow_buffer-Goes s1) in
              Goes-trans s s2 s' grown (still s2 s' (ground arith) (ground arith))
        ]

  run_quic-Goes : (s s' : S d) (seq : ℕ) → run_quic d s seq ≡ done s' → Goes s s'
  unfolding run_quic
  run_quic-Goes s s' seq h =
      let s0 : S d = record s { q = record s.q { acc_loss = s.q.acc_loss + 1 } } in
      let ((more, s1), a, b) = >>=-eq-done (protect_head d s0 seq) _ h in
      let begun : Goes s s1 =
        Goes-trans s s0 s1 (still s s0 (ground arith) refl) (protect_head-Goes s0 s1 seq more a) in
      elim (Bool-cases more) [
        | inr stop ↦ done_Goes s s1 s' begun (rw stop at b)
        | inl go ↦
            let (r, c, e) = >>=-eq-done (d.node.get_by_quic s1.q.ssrc seq s1.net) _ (rw go at b) in
            let q1 : Q d = record s1.q { previous_lost_seq = seq } in
            let s2 : S d = record s1 { q = enqueue d q1 r.0; net = r.1 } in
            let counted : SameEnds d s1.q q1 = ground arith in
            done_Goes s s2 s'
              (Goes-trans s s1 s2 begun (
                asked_Goes s1 s2 s1.q.ssrc seq r c
                  (SameEnds-trans d counted (enqueue-SameEnds d q1 r.0)) refl))
              e
      ]

  dequeue-Goes : (s s' : S d) (slot : Slot) → dequeue d s ≡ done (slot, s') → Goes s s'
  unfolding dequeue
  dequeue-Goes s s' slot h = elim (Bool-cases (is_first_ok d s.q)) [
    | inl here ↦ still s s' (ground arith) (ground arith)
    | inr lost ↦
        let (s1, a, b) = >>=-eq-done (run_quic d s s.q.first_seq) _ (rw lost at h) in
        Goes-trans s s1 s' (run_quic-Goes s s1 s.q.first_seq a)
          (still s1 s' (ground arith) (ground arith))
  ]

  take_one-Goes : (s s' : S d) → take_one d s ≡ done s' → Goes s s'
  unfolding take_one
  take_one-Goes s s' h =
      let ((slot, s1), a, b) = >>=-eq-done (dequeue d s) _ h in
      let l = extract_flv-Leaves d R k s1 s' slot b in
      Goes-trans s s1 s' (dequeue-Goes s s1 slot a) (record {
        ends = record {
          ssrc = l.slots.ssrc;
          padding = l.slots.padding;
          hls_writer = l.slots.hls_writer;
          flv_file = l.slots.flv_file;
        };
        net = l.net;
      })

  take_while-Goes :
      (test : Q d → Bool) (fuel : ℕ) (s s' : S d) → take_while d test fuel s ≡ done s' → Goes s s'
  unfolding take_while
  take_while-Goes test zero s s' h = still s s' (ground arith) (ground arith)
  take_while-Goes test (suc fuel) s s' h = elim (Bool-cases (test s.q)) [
    | inr stop ↦ still s s' (ground arith) (ground arith)
    | inl go ↦
        let (s1, a, b) = >>=-eq-done (take_one d s) _ (rw (take_while, go) at h) in
        Goes-trans s s1 s' (take_one-Goes s s1 a) (take_while-Goes test fuel s1 s' b)
  ]

  -- A round of `RecvPacket` that returns leaves the queue with its stream, its window, its source and
  -- its file, and behind the queue it keeps what each of its calls keeps.
  pub recv_packet-Goes :
      (fuel : ℕ) (s s' : S d) (rp : Option RtpPack) → recv_packet d fuel s rp ≡ done s' → Goes s s'
  unfolding recv_packet
  recv_packet-Goes fuel s s' rp h =
      let s0 : S d = record s { q = enqueue d s.q rp } in
      let (s1, a, b) = >>=-eq-done (take_while d (is_full d) fuel s0) _ h in
      Goes-trans s s0 s' (still s s0 (enqueue-SameEnds d s.q rp) refl) (
        Goes-trans s0 s1 s' (take_while-Goes (is_full d) fuel s0 s1 a)
          (take_while-Goes (is_ready d) fuel s1 s' b))

module _ (d : Deps) where
  pub recv_packet-SameEnds :
      (fuel : ℕ) (s s' : S d) (rp : Option RtpPack)
      → recv_packet d fuel s rp ≡ done s'
      → SameEnds d s.q s'.q
  recv_packet-SameEnds fuel s s' rp h =
      (recv_packet-Goes d (λ a b. Unit {0}) (Anything-IsKept d) fuel s s' rp h).ends
