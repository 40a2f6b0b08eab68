-- ===== src/Cache/Queue/Extract.antt =====
-- `extractFlv` and `getDelay` of cache/RtpQueue.go: what becomes of a packet that leaves the queue.
-- When a tag is complete it goes to the cache of initial segments, to the clients, to the HLS source
-- and to the file.
pub mod Frame
use rtp_http_flv.Prelude.{
  ℕ, zero, suc, ◌+◌, ◌-◌, ◌*◌, ◌%◌, Bool, true, false, not, Option, none, some, ltb, ◌==◌,
  if◌then◌else◌, Run, done, panics, ◌>>=◌, deref, check, index, Slice, reslice,
}
use rtp_http_flv.Rtp.{RtpPack}
use rtp_http_flv.Flv.Packet
use rtp_http_flv.HttpFlv.Writer
use rtp_http_flv.HttpFlv.Writer.{FlvWriter}
use rtp_http_flv.Cache.Window.{Slot}
use rtp_http_flv.Cache.FlvRecord.{FlvRecord, reset}
use rtp_http_flv.Cache.FlvRecord.Assemble.{assemble, jump}
use rtp_http_flv.Cache.Segments
use rtp_http_flv.Cache.Segments.{SegmentCache, send_initial_segment}
use rtp_http_flv.Cache.Queue.{Deps, Q, S}

-- A pointer is written through.
abbrev pub store_at : (ℕ → FlvWriter) → ℕ → FlvWriter → ℕ → FlvWriter
store_at heap a w b = if a == b then w else heap b

-- The time stamp of a tag, as `getDelay` reads it from its bytes 4 to 7.
unfoldable pub tag_time : Slice → Run ℕ
tag_time tag = do
  b ← reslice tag 4 8
  b3 ← index b.elems 3
  b0 ← index b.elems 0
  b1 ← index b.elems 1
  b2 ← index b.elems 2
  done (b3 * 16777216 + b0 * 65536 + b1 * 256 + b2)

module _ (d : Deps) where
  open d.node use {Net, now, update_publishers, hls_write, write_tag_direct}

  -- `getDelay`: the first time it notes the start of the stream, then it measures; a time stamp that
  -- lies in the future is ignored.
  unfoldable pub get_delay : S d → Slice → Run (S d)
  get_delay s tag = do
    ts ← tag_time tag
    if s.q.start_time == 0
        then (do
          net' ← update_publishers s.net
          p ← deref (s.publishers s.q.ssrc)
          done (record s { q = record s.q { start_time = p.start_time }; net = net' }))
        else (let (t, net') = now s.net in
            done (
              if ltb t (s.q.start_time + ts)
              then record s { net = net' }
              else record s { q = record s.q { delay = t - (s.q.start_time + ts) }; net = net' }))

  -- The tag is offered to the cache of initial segments until that is full.
  unfoldable pub fill_cache : S d → Slice → Run (S d)
  fill_cache s tag = if s.q.cache.full then done s else (do
    p ← Packet.parse (Packet.zero_packet tag) tag false
    cache ← Segments.write s.q.cache p
    done (record s { q = record s.q { cache = cache } }))

  -- `FlvWriters.Remove(i)`
  abbrev pub remove_client : S d → ℕ → S d
  remove_client s i = record s {
    q = record s.q { flv_writers = d.clients.remove s.q.flv_writers i };
  }

  -- The initial segments go to a client before its first tag; `none` for the error.
  unfoldable pub initialise : SegmentCache → FlvWriter → Run (Option FlvWriter)
  initialise cache w = if w.init then done (some w) else (do
    r ← send_initial_segment cache w
    done (elim r [ none ↦ none | some w' ↦ some (record w' { init = true }) ]))

  -- One client of the list, at index `i`: a closed one is removed, and so is one that takes no more.
  -- The Boolean is false where `extractFlv` returns.
  unfoldable pub serve_client : S d → ℕ → ℕ → Slice → Run (Bool × S d)
  serve_client s i a tag =
      if (s.heap a).closed
      then (do
        w ← Writer.close (s.heap a)
        done (true, remove_client (record s { heap = store_at s.heap a w }) i))
      else (do
        r ← initialise s.q.cache (s.heap a)
        elim r [
          | none ↦ done (false, record s { q = record s.q { flv_record = reset s.q.flv_record } })
          | some w ↦ (do
            r' ← Writer.write w tag
            done (elim r' [
              | none ↦ (true, remove_client (record s { heap = store_at s.heap a w }) i)
              | some w' ↦ (true, record s { heap = store_at s.heap a w' })
            ]))
        ])

  -- The element at index `i`, as `Get` returns it.
  unfoldable pub visit : S d → ℕ → Slice → Option (Option ℕ) → Run (Bool × S d)
  visit s i tag none = done (true, s)
  visit s i tag (some none) = done (true, remove_client s i)
  visit s i tag (some (some a)) = serve_client s i a tag

  -- `for i := Size() - 1; i >= 0; i--`: the clients from the last to the first.
  unfoldable pub serve_clients : ℕ → S d → Slice → Run (Bool × S d)
  serve_clients zero s tag = done (true, s)
  serve_clients (suc i) s tag = do
    (more, s') ← visit s i tag (d.clients.get s.q.flv_writers i)
    let rest = serve_clients i s' tag
    if more then rest else done (false, s')

  -- `CheckError`
  abbrev pub check_error : Bool → S d → Run (S d)
  check_error ok s = if ok then done s else panics

  -- The tag goes to the HLS source and to the file; an error there is a panic.
  unfoldable pub record_tag : S d → Slice → Run (S d)
  record_tag s tag = do
    s1 ← (elim s.q.hls_writer [
      | none ↦ done s
      | some a ↦ (do (ok, net') ← hls_write a tag s.net; check_error ok (record s { net = net' }))
    ])
    elim s1.q.flv_file [
      | none ↦ done s1
      | some f ↦
          (let (ok, net') = write_tag_direct f tag s1.net in
            check_error ok (record s1 { net = net' }))
    ]

  -- The delay is measured at every 400th tag.
  unfoldable pub measure : S d → Slice → Run (S d)
  measure s tag = if s.q.acc_flv_tags % 400 == 0 then get_delay s tag else done s

  -- A complete tag.
  unfoldable pub publish : S d → Slice → Run (S d)
  publish s tag = do
    let s0 = record s { q = record s.q { acc_flv_tags = s.q.acc_flv_tags + 1 } }
    s1 ← measure s0 tag
    s2 ← fill_cache s1 tag
    (more, s3) ← serve_clients (d.clients.size s2.q.flv_writers) s2 tag
    if more
        then (do
          s4 ← record_tag s3 tag
          done (record s4 { q = record s4.q { flv_record = reset s4.q.flv_record } }))
        else done s3

  unfoldable pub extract_flv : S d → Slot → Run (S d)
  extract_flv s none = done (record s { q = record s.q { flv_record = jump s.q.flv_record } })
  extract_flv s (some rp) = do
    (complete, r) ← assemble s.q.flv_record rp.marker rp.payload
    let s' = record s { q = record s.q { flv_record = r } }
    if complete then (do tag ← deref r.flv_tag; publish s' tag) else done s'
