-- ===== src/Cache/Queue/Retransmit.antt =====
-- `reshape`, `runQuic` and `Dequeue` of cache/RtpQueue.go: a packet that is missing when its turn
-- comes is asked for over QUIC, and after many losses in a row the head of the queue is given up.
pub mod Order
pub mod Progress
use rtp_http_flv.Prelude.{
  ℕ, ◌+◌, ◌*◌, ◌/◌, Bool, true, false, Option, none, some, ◌&&◌, not, ltb, ◌==◌, if◌then◌else◌, Run,
  done, ◌>>=◌,
}
use rtp_http_flv.Rtp.{RtpPack}
use rtp_http_flv.Utils.Seq.{add16}
use rtp_http_flv.Cache.Window.{Slot}
use rtp_http_flv.Cache.FlvRecord.Assemble.{jump}
use rtp_http_flv.Cache.Queue.{Deps, Q, S, max_udp_cache_size}
use rtp_http_flv.Cache.Queue.Slots.{enqueue, is_first_ok, get_head_nil, remove_first, remove_head}

module _ (d : Deps) where
  open d.slots use {size, get}
  open d.node use {Net, get_by_quic, set_read_buffer}

  -- `reshape`: the packets removed, if the second slot is empty too; the answer over QUIC is dropped.
  unfoldable pub reshape : S d → Run (ℕ × S d)
  reshape s = elim (get s.q.queue 1) [
    | none ↦ done (0, s)
    | some x ↦ (elim x [
      | some rp ↦ done (0, s)
      | none ↦ (do
        (rp, net') ← get_by_quic s.q.ssrc (add16 s.q.first_seq 1) s.net
        let (removed, q') = remove_head d (size s.q.queue) 0 s.q
        done (removed, record s { q = q'; net = net' }))
    ])
  ]

  -- The buffer of the UDP socket is doubled, up to a limit; false if the socket refuses, which is a
  -- panic that `runQuic` recovers from, and returns.
  unfoldable pub grow_buffer : S d → Bool × S d
  grow_buffer s =
      if ltb max_udp_cache_size (s.udp_buffer_size * 2)
      then (true, record s { udp_buffer_size = s.udp_buffer_size * 2 / 2 })
      else (let (ok, net') = set_read_buffer (s.udp_buffer_size * 2) s.net in
          (ok, record s { udp_buffer_size = s.udp_buffer_size * 2; net = net' }))

  abbrev pub with_jump : S d → S d
  with_jump s = record s { q = record s.q { flv_record = jump s.q.flv_record } }

  -- The protection of `runQuic` against losses in a row; false if `runQuic` returns there.
  unfoldable pub protect_head : S d → ℕ → Run (Bool × S d)
  unfolding grow_buffer
  protect_head s seq =
      if seq == add16 s.q.previous_lost_seq 1 && d.protect && ltb 5 (get_head_nil d s.q)
      then (do
        (removed, s1) ← reshape s
        let (ok, s2) = grow_buffer s1
        done (if ok then (true, with_jump s2) else (false, s2)))
      else done (true, s)

  unfoldable pub run_quic : S d → ℕ → Run (S d)
  run_quic s seq = do
    (more, s1) ← protect_head (record s { q = record s.q { acc_loss = s.q.acc_loss + 1 } }) seq
    if more
        then (do
          (rp, net') ← get_by_quic s1.q.ssrc seq s1.net
          done (record s1 {
            q = enqueue d (record s1.q { previous_lost_seq = seq }) rp;
            net = net';
          }))
        else done s1

  -- `protoRp, _ := q.queue.Get(0)`
  abbrev pub first_slot : Q d → Slot
  first_slot q = elim (get q.queue 0) [ none ↦ none | some x ↦ x ]

  unfoldable pub dequeue : S d → Run (Slot × S d)
  dequeue s = do
    s1 ← (if is_first_ok d s.q then done s else run_quic s s.q.first_seq)
    done (first_slot s1.q, record s1 { q = remove_first d s1.q })
