-- ===== src/Cache/Queue/Receive/Terminates.antt =====
-- `RecvPacket`: its loops end.
use rtp_http_flv.Prelude.{
  ◌≢◌, ℕ, zero, suc, ◌≤◌, ◌<◌, ◌≡◌, refl, ◌∙◌, ap, inl, inr, Bool, Bool-cases, Option, arith, done,
  out_of_fuel, ◌>>=◌, >>=-ext, WhenSome,
}
use rtp_http_flv.Rtp.{RtpPack}
use rtp_http_flv.Cache.Queue.{Deps, Q, S}
use rtp_http_flv.Cache.Queue.Slots.{enqueue}
use rtp_http_flv.Cache.Queue.Slots.Head.{IsQueue}
use rtp_http_flv.Cache.Queue.Retransmit.Order.{Numbered}
use rtp_http_flv.Cache.Queue.Retransmit.Progress.{Answers, near}
use rtp_http_flv.Cache.Queue.Receive.{take_one, take_while, is_full, is_ready, recv_packet}
use rtp_http_flv.Cache.Queue.Receive.Ends.{Ends, >>=-Ends, NodeEnds, take_one-Ends}
use rtp_http_flv.Cache.Queue.Receive.Drain.{
  len, len_after, Guards, take_one-IsQueue, take_one_shrinks, is_full-Guards, is_ready-Guards,
  take_while-IsQueue, take_while_no_longer, enqueue_opt,
}

done-Ends : {A : Type 0} (a : A) → Ends (done a)
done-Ends a e = ground arith

module _ (d : Deps) where
  open d.slots use {size, values}

  -- With as many rounds as there are slots a loop ends: more rounds change nothing.
  take_while_settles :
      (test : Q d → Bool) (fuel fuel' : ℕ) (s : S d)
      → Guards d test
      → Answers d
      → Numbered d
      → IsQueue d s.q
      → len d s ≤ near
      → len d s ≤ fuel
      → fuel ≤ fuel'
      → take_while d test fuel s ≡ take_while d test fuel' s
  unfolding take_while
  take_while_settles test zero zero s g n m v k l f = refl
  take_while_settles test zero (suc fuel') s g n m v k l f = elim (Bool-cases (test s.q)) [
    | inl more ↦ absurd (omega (arith, g s.q more))
    | inr stop ↦ rw (take_while, stop)
  ]
  take_while_settles test (suc fuel) zero s g n m v k l f = absurd (omega arith)
  take_while_settles test (suc fuel) (suc fuel') s g n m v k l f = elim (Bool-cases (test s.q)) [
    | inr stop ↦ rw (take_while, stop)
    | inl more ↦
        rw (take_while, more)
          (>>=-ext (take_one d s) _ _ λ s1 e.
            let shorter = take_one_shrinks d s s1 n m v (g s.q more) k e in
            take_while_settles test fuel fuel' s1 g n m (take_one-IsQueue d s s1 m v (g s.q more) e)
              (omega arith) (omega arith) (omega arith))
  ]

  -- A loop that is given as many rounds as there are slots does not use them up.
  take_while-Ends :
      (test : Q d → Bool) (fuel : ℕ) (s : S d)
      → Guards d test
      → Answers d
      → Numbered d
      → NodeEnds d
      → IsQueue d s.q
      → len d s ≤ near
      → len d s ≤ fuel
      → Ends (take_while d test fuel s)
  unfolding take_while
  take_while-Ends test zero s g n m c v k l = elim (Bool-cases (test s.q)) [
    | inl more ↦ absurd (omega (arith, g s.q more))
    | inr stop ↦ rw (take_while, stop) (done-Ends s)
  ]
  take_while-Ends test (suc fuel) s g n m c v k l = elim (Bool-cases (test s.q)) [
    | inr stop ↦ rw (take_while, stop) (done-Ends s)
    | inl more ↦
        rw (take_while, more)
          (>>=-Ends (take_one d s) _ (take_one-Ends d s c) λ s1 e.
            let shorter = take_one_shrinks d s s1 n m v (g s.q more) k e in
            take_while-Ends test fuel s1 g n m c (take_one-IsQueue d s s1 m v (g s.q more) e)
              (omega arith) (omega arith))
  ]

  -- Both loops, from a queue into which the packet has been put.
  recv_packet_settles :
      (fuel fuel' : ℕ) (s : S d) (rp : Option RtpPack)
      → Answers d
      → Numbered d
      → IsQueue d s.q
      → WhenSome (λ p. p.sequence_number < 65536) rp
      → len_after d s rp ≤ near
      → len_after d s rp ≤ fuel
      → fuel ≤ fuel'
      → recv_packet d fuel s rp ≡ recv_packet d fuel' s rp
  unfolding recv_packet
  recv_packet_settles fuel fuel' s rp n m v w k l f =
      let s0 : S d = record s { q = enqueue d s.q rp } in
      let v0 = enqueue_opt d s.q rp w v in
      ap (λ r. r >>= take_while d (is_ready d) fuel)
        (take_while_settles (is_full d) fuel fuel' s0 (is_full-Guards d) n m v0 k l f)
      ∙ >>=-ext (take_while d (is_full d) fuel' s0) _ _ λ s1 e.
        let v1 = take_while-IsQueue d (is_full d) fuel' s0 s1 (is_full-Guards d) m v0 e in
        let shorter =
          take_while_no_longer d (is_full d) fuel' s0 s1 (len d s0) (is_full-Guards d) n m k
            (v0, omega arith) e in
        take_while_settles (is_ready d) fuel fuel' s1 (is_ready-Guards d) n m v1.0 (omega arith)
          (omega arith) f

  recv_packet-Ends :
      (fuel : ℕ) (s : S d) (rp : Option RtpPack)
      → Answers d
      → Numbered d
      → NodeEnds d
      → IsQueue d s.q
      → WhenSome (λ p. p.sequence_number < 65536) rp
      → len_after d s rp ≤ near
      → len_after d s rp ≤ fuel
      → Ends (recv_packet d fuel s rp)
  unfolding recv_packet
  recv_packet-Ends fuel s rp n m c v w k l =
      let s0 : S d = record s { q = enqueue d s.q rp } in
      let v0 = enqueue_opt d s.q rp w v in
      >>=-Ends (take_while d (is_full d) fuel s0) _
        (take_while-Ends (is_full d) fuel s0 (is_full-Guards d) n m c v0 k l)
        λ s1 e.
          let v1 = take_while-IsQueue d (is_full d) fuel s0 s1 (is_full-Guards d) m v0 e in
          let shorter =
            take_while_no_longer d (is_full d) fuel s0 s1 (len d s0) (is_full-Guards d) n m k
              (v0, omega arith) e in
          take_while-Ends (is_ready d) fuel s1 (is_ready-Guards d) n m c v1.0 (omega arith)
            (omega arith)

  -- `RecvPacket` comes to an end: with as many rounds for each loop as the queue has slots when the
  -- packet has been put into it, the rounds are not used up, and more of them change nothing. That
  -- holds where the calls that leave the queue end, the cloud node answers with the packet that was
  -- asked for or with none, and the queue then has at most 5536 slots.
  pub recv_packet_terminates :
      (fuel fuel' : ℕ) (s : S d) (rp : Option RtpPack)
      → Answers d
      → Numbered d
      → NodeEnds d
      → IsQueue d s.q
      → WhenSome (λ p. p.sequence_number < 65536) rp
      → len_after d s rp ≤ near
      → len_after d s rp ≤ fuel
      → fuel ≤ fuel'
      → (recv_packet d fuel s rp ≢ out_of_fuel)
        × (recv_packet d fuel s rp ≡ recv_packet d fuel' s rp)
  recv_packet_terminates fuel fuel' s rp n m c v w k l f =
      (recv_packet-Ends fuel s rp n m c v w k l, recv_packet_settles fuel fuel' s rp n m v w k l f)
