-- ===== src/HttpFlv/Writer.antt =====
-- `FLVWriter` of protocol/httpflv/writer.go: a client's queue of tags, its goroutine, and its end.
pub mod Lifecycle
pub mod Stream
pub mod Drop
mod Tests
use rtp_http_flv.Prelude.{
  ℕ, ◌+◌, ◌/◌, ◌%◌, ◌^◌, Bool, true, false, List, [], ◌∷◌, Option, none, some, if◌then◌else◌,
  length, Run, done, panics, blocks, ◌>>=◌, ◌>>◌, recover_with, Slice, reslice, tail_from, Chan,
  make_chan, send, recv, close_chan, ◌++◌, ◌≡◌, not,
}

abbrev pub header_len : ℕ
header_len = 11

abbrev pub max_queue_num : ℕ
max_queue_num = 1024

-- An `io.Writer` (the HTTP response, a file): `write` returns whether it succeeded, and by its
-- documentation it has then written all the bytes behind the earlier ones.
pub record Sink : Type 1 where
  pub World : Type 0
  pub write : List ℕ → World → Bool × World
  pub contents : World → List ℕ
  pub contents-write :
      (b : List ℕ) (w : World) → (write b w).0 ≡ true → contents (write b w).1 ≡ contents w ++ b

-- `FLVWriter`, without the names of its stream, which are only logged, and without the scratch
-- buffer of the tag size. No value is sent on `closed_chan`: it is only closed.
pub record FlvWriter : Type 0 where
  pub closed : Bool
  pub closed_chan : Chan (Unit {0})
  pub packet_queue : Chan Slice
  pub init : Bool

-- `PutI32BE` of utils/util.go: the four bytes of an int32, here its bit pattern.
unfoldable pub put_i32_be : ℕ → List ℕ
put_i32_be v = (v / 16777216 % 256) ∷ (v / 65536 % 256) ∷ (v / 256 % 256) ∷ (v % 256) ∷ []

abbrev pub flv_header : List ℕ
flv_header = 0x46 ∷ 0x4c ∷ 0x56 ∷ 0x01 ∷ 0x05 ∷ 0x00 ∷ 0x00 ∷ 0x00 ∷ 0x09 ∷ []

abbrev pub fresh : FlvWriter
fresh = record {
  closed = false;
  closed_chan = make_chan 0;
  packet_queue = make_chan max_queue_num;
  init = false;
}

-- `Write`: the new writer, or `none` for the error; a send on a closed channel is recovered.
unfoldable pub write : FlvWriter → Slice → Run (Option FlvWriter)
write w p =
    if w.closed
    then done none
    else recover_with none
        (do queue ← send w.packet_queue p; done (some (record w { packet_queue = queue })))

-- `Wait`: it returns when the channel has been closed.
unfoldable pub wait : FlvWriter → Run (Unit {0})
wait w = do recv w.closed_chan; done tt

-- `Close`
unfoldable pub close : FlvWriter → Run FlvWriter
close w = do
  w' ←
      (if w.closed then done w else (do
        queue ← close_chan w.packet_queue
        closed ← close_chan w.closed_chan
        done (record w { packet_queue = queue; closed_chan = closed })))
  done (record w' { closed = true })

module _ (sink : Sink) where
  open sink use {World}

  -- `NewFLVWriter` writes the header of the file and an empty tag size; its errors are ignored.
  unfoldable pub new_flv_writer : World → FlvWriter × World
  unfolding put_i32_be
  new_flv_writer ctx =
      let (ok, ctx') = sink.write flv_header ctx in
      let (ok', ctx'') = sink.write (put_i32_be 0) ctx' in (fresh, ctx'')

  -- The three writes of a tag in `SendPacket`, up to the first that fails.
  unfoldable pub send_tag : Slice → World → Run (Bool × World)
  unfolding put_i32_be
  send_tag p ctx = do
    head ← reslice p 0 header_len
    let (ok, ctx') = sink.write head.elems ctx
    if not ok then done (false, ctx') else (do
      body ← tail_from p header_len
      let (ok', ctx'') = sink.write body.elems ctx'
      if not ok'
          then done (false, ctx'')
          else done (sink.write (put_i32_be (length p.elems % 2 ^ 32)) ctx''))

  -- One round of the loop of `SendPacket`: whether it goes on. At the end of the loop the goroutine
  -- marks the writer as closed.
  unfoldable pub send_packet : FlvWriter → World → Run (Bool × FlvWriter × World)
  unfolding send_tag
  send_packet w ctx = do
    (p, queue) ← recv w.packet_queue
    let w' = record w { packet_queue = queue }
    elim p [
      | none ↦ done (false, record w' { closed = true }, ctx)
      | some tag ↦ (do
        (ok, ctx') ← send_tag tag ctx
        if ok then done (true, w', ctx') else done (false, record w' { closed = true }, ctx'))
    ]
