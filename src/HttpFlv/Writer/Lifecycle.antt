-- ===== src/HttpFlv/Writer/Lifecycle.antt =====
-- The end of a client: what the queue's goroutine and the writer's own do to an `FLVWriter`, in any
-- order, and why the handler that waits for it never returns.
use rtp_http_flv.Prelude.{◌≡◌, refl, Bool, true, false, some, done, blocks, Slice, arith, []}
use rtp_http_flv.HttpFlv.Writer.{Sink, FlvWriter, fresh, write, wait, close, send_packet}

module _ (sink : Sink) where
  open sink use {World}

  -- `extractFlv` of cache/RtpQueue.go, the only caller of `Close`, calls it on a closed writer.
  pub data Step (w w' : FlvWriter) : Type 0 where
    writes : (p : Slice) → write w p ≡ done (some w') → Step w w'
    initialises : w' ≡ record w { init = true } → Step w w'
    sends :
        (ctx ctx' : World) (more : Bool)
        → send_packet sink w ctx ≡ done (more, w', ctx')
        → Step w w'
    closes : w.closed ≡ true → close w ≡ done w' → Step w w'

  pub data Reach : FlvWriter → Type 0 where
    start : Reach fresh
    next : {w w' : FlvWriter} → Reach w → Step w w' → Reach w'

  -- Both channels are open.
  pub record IsOpen (w : FlvWriter) : Type 0 where
    pub waiting : w.closed_chan.is_closed ≡ false
    pub nothing_sent : w.closed_chan.pending ≡ []
    pub queue : w.packet_queue.is_closed ≡ false

  Step-IsOpen : {w w' : FlvWriter} → Step w w' → IsOpen w → IsOpen w'
  unfolding write close send_packet
  Step-IsOpen (writes p e) o = ground arith
  Step-IsOpen (initialises e) o = ground arith
  Step-IsOpen (sends ctx ctx' more e) o = ground arith
  Step-IsOpen (closes c e) o = ground arith

  Reach-IsOpen : {w : FlvWriter} → Reach w → IsOpen w
  Reach-IsOpen start = record { waiting = refl; nothing_sent = refl; queue = refl }
  Reach-IsOpen (next r st) = Step-IsOpen st (Reach-IsOpen r)

  -- However the queue writes to a client and the client's own goroutine sends, fails and closes, the
  -- HTTP handler that waits for the client never returns: `Close` leaves the channels of a writer
  -- alone that is already marked as closed, and no other writer is ever closed.
  pub wait_never_returns : {w : FlvWriter} → Reach w → wait w ≡ blocks
  unfolding wait
  wait_never_returns r = ground (arith, Reach-IsOpen r)
