-- ===== src/Cache/Queue/Receive.antt =====
-- `RecvPacket` of cache/RtpQueue.go: one packet from the channel, and what then leaves the queue.
pub mod Ends
pub mod Drain
pub mod Terminates
pub mod Keeps
use rtp_http_flv.Prelude.{
  ℕ, zero, suc, Bool, true, false, Option, none, some, ◌&&◌, ltb, if◌then◌else◌, Run, done,
  out_of_fuel, ◌>>=◌,
}
use rtp_http_flv.Rtp.{RtpPack}
use rtp_http_flv.Cache.Queue.{Deps, Q, S}
use rtp_http_flv.Cache.Queue.Slots.{enqueue, is_first_ok}
use rtp_http_flv.Cache.Queue.Retransmit.{dequeue}
use rtp_http_flv.Cache.Queue.Extract.{extract_flv}

module _ (d : Deps) where
  open d.slots use {size}

  -- `Dequeue`, and `extractFlv` of what it returns.
  unfoldable pub take_one : S d → Run (S d)
  take_one s = do (slot, s') ← dequeue d s; extract_flv d s' slot

  -- A loop that takes packets from the queue while a test holds.
  unfoldable pub take_while : (Q d → Bool) → ℕ → S d → Run (S d)
  take_while test zero s = if test s.q then out_of_fuel else done s
  take_while test (suc fuel) s = elim (test s.q) [
    | false ↦ done s
    | true ↦ (take_one s >>= λ s'. take_while test fuel s')
  ]

  -- `q.queue.Size() > q.PaddingWindowSize`
  abbrev pub is_full : Q d → Bool
  is_full q = ltb q.padding_window_size (size q.queue)

  -- `q.isFirstOk() && q.queue.Size() > 1`
  abbrev pub is_ready : Q d → Bool
  is_ready q = is_first_ok d q && ltb 1 (size q.queue)

  -- One round of `RecvPacket`; each of its loops takes at most `fuel` packets.
  unfoldable pub recv_packet : ℕ → S d → Option RtpPack → Run (S d)
  recv_packet fuel s rp = do
    let s0 = record s { q = enqueue d s.q rp }
    s1 ← take_while is_full fuel s0
    take_while is_ready fuel s1
