-- ===== src/Cache/Queue/Receive/Ends.antt =====
-- No part of `RecvPacket` but its own loops takes more than the rounds that it is given: where the
-- calls that leave the queue end, so does one turn of a loop.
use rtp_http_flv.Prelude.{
  List, [], ◌∷◌, ℕ, zero, suc, ◌≡◌, ◌≢◌, refl, Bool, true, false, Option, none, some, arith, Run,
  done, panics, blocks, out_of_fuel, ◌>>=◌, Slice, if◌then◌else◌, deref, ◌==◌, ◌&&◌, ltb,
  slice_from,
}
use rtp_http_flv.Utils.TagHead.{is_tag_head}
use rtp_http_flv.Flv.Tag.{Tag, zero_tag, parse_media_tag_header}
use rtp_http_flv.Flv.Packet
use rtp_http_flv.Flv.Packet.{Packet, Demuxed, ok, err, demux_header}
use rtp_http_flv.HttpFlv.Writer
use rtp_http_flv.HttpFlv.Writer.{FlvWriter}
use rtp_http_flv.Cache.Window.{Slot}
use rtp_http_flv.Cache.FlvRecord.{FlvRecord, reset}
use rtp_http_flv.Cache.FlvRecord.Assemble.{
  copy_in, first_fragment, next_fragment, add_fragment, assemble,
}
use rtp_http_flv.Cache.Segments
use rtp_http_flv.Cache.Segments.{
  SegmentCache, SegmentPacket, send_segment, send_initial_segment, and_then, mark_full, keep,
}
use rtp_http_flv.Cache.Queue.{Deps, S}
use rtp_http_flv.Cache.Queue.Extract.{
  tag_time, remove_client, store_at, get_delay, fill_cache, initialise, serve_client, visit,
  serve_clients, record_tag, check_error, measure, publish, extract_flv,
}
use rtp_http_flv.Utils.Seq.{add16}
use rtp_http_flv.Cache.Queue.Receive.{take_one}
use rtp_http_flv.Cache.Queue.Slots.{is_first_ok, get_head_nil, remove_head}
use rtp_http_flv.Cache.Queue.Retransmit.{reshape, protect_head, run_quic, dequeue}

-- A run ends, with a result or not.
abbrev pub Ends {ℓ} : {A : Type ℓ} → Run A → Type ℓ
Ends m = m ≢ out_of_fuel

pub >>=-Ends {ℓ κ} :
    {A : Type ℓ} {B : Type κ} (m : Run A) (f : A → Run B)
    → Ends m
    → ((a : A) → m ≡ done a → Ends (f a))
    → Ends (m >>= f)
>>=-Ends (done a) f h k e = k a refl e
>>=-Ends panics f h k e = ground arith
>>=-Ends blocks f h k e = ground arith
>>=-Ends out_of_fuel f h k e = h refl

done-Ends : {A : Type 0} (a : A) → Ends (done a)
done-Ends a e = ground arith

if_Ends : {A : Type 0} (b : Bool) {x y : Run A} → Ends x → Ends y → Ends (if b then x else y)
if_Ends true h k = h
if_Ends false h k = k

slice_from-Ends : (b : List ℕ) (lo : ℕ) → Ends (slice_from b lo)
slice_from-Ends b zero e = ground arith
slice_from-Ends [] (suc lo) e = ground arith
slice_from-Ends (x ∷ b) (suc lo) e = slice_from-Ends b lo e

header-Ends : (tag : Tag) (b : List ℕ) (v : Bool) → Ends (parse_media_tag_header tag b v)
unfolding parse_media_tag_header
header-Ends tag b false e = ground arith
header-Ends tag b true e = ground arith

parse-Ends : (p : Packet) (b : Slice) → Ends (Packet.parse p b false)
unfolding Packet.parse
parse-Ends p b e = ground arith

write-Ends : (w : FlvWriter) (p : Slice) → Ends (Writer.write w p)
unfolding Writer.write
write-Ends w p e = ground arith

close-Ends : (w : FlvWriter) → Ends (Writer.close w)
unfolding Writer.close
close-Ends w e = ground arith

assemble-Ends : (r : FlvRecord) (marker : ℕ) (p : Slice) → Ends (assemble r marker p)
unfolding assemble add_fragment first_fragment next_fragment copy_in is_tag_head
assemble-Ends r marker p e = ground arith

send_segment-Ends : (s : SegmentPacket) (w : FlvWriter) → Ends (send_segment s w)
unfolding send_segment
send_segment-Ends s w = if_Ends s.full (go s.p) (done-Ends (some w))
  where
    go : (o : Option Packet) → Ends (elim o [ none ↦ panics | some p ↦ Writer.write w p.payload ])
    go none e = ground arith
    go (some p) e = write-Ends w p.payload e

send_initial_segment-Ends : (c : SegmentCache) (w : FlvWriter) → Ends (send_initial_segment c w)
unfolding send_initial_segment
send_initial_segment-Ends c w =
    >>=-Ends (send_segment c.metadata w) _ (send_segment-Ends c.metadata w)
      λ w1 a. >>=-Ends _ _ (then_Ends w1 c.video_seq) λ w2 b. then_Ends w2 c.audio_seq
  where
    then_Ends : (o : Option FlvWriter) (s : SegmentPacket) → Ends (and_then o s)
    then_Ends none s e = ground arith
    then_Ends (some w') s e = send_segment-Ends s w' e

demux_header-Ends : (p : Packet) → Ends (demux_header p)
unfolding demux_header
demux_header-Ends p =
    >>=-Ends (slice_from p.payload.elems 11) _ (slice_from-Ends p.payload.elems 11)
      λ body a. >>=-Ends _ _ (header-Ends zero_tag body p.is_video) λ parsed b e. ground arith

cache_write-Ends : (c : SegmentCache) (p : Packet) → Ends (Segments.write c p)
unfolding Segments.write
cache_write-Ends c p = >>=-Ends (demux_header p) _ (demux_header-Ends p) λ d a. go d
  where
    go :
        (d : Demuxed)
        → Ends (elim d [ err x ↦ panics | ok p' ↦ done (mark_full (keep c p' p'.header)) ])
    go (err x) e = ground arith
    go (ok p') e = ground arith

deref-Ends : (o : Option Slice) → Ends (deref o)
deref-Ends none e = ground arith
deref-Ends (some a) e = ground arith

module _ (d : Deps) where
  open d.node use {Net, get_by_quic, update_publishers, hls_write}

  -- The calls that leave the queue end.
  pub record NodeEnds : Type 0 where
    pub quic : (ssrc seq : ℕ) (net : Net) → Ends (get_by_quic ssrc seq net)
    pub publishers : (net : Net) → Ends (update_publishers net)
    pub hls : (a : ℕ) (tag : Slice) (net : Net) → Ends (hls_write a tag net)

  get_delay-Ends : (s : S d) (tag : Slice) → NodeEnds → Ends (get_delay d s tag)
  unfolding get_delay tag_time
  get_delay-Ends s tag n e = ground (arith, n.publishers s.net)

  measure-Ends : (s : S d) (tag : Slice) → NodeEnds → Ends (measure d s tag)
  unfolding measure
  measure-Ends s tag n e = ground (arith, get_delay-Ends s tag n)

  fill_cache-Ends : (s : S d) (tag : Slice) → Ends (fill_cache d s tag)
  unfolding fill_cache
  fill_cache-Ends s tag = if_Ends s.q.cache.full (done-Ends s) (
      >>=-Ends _ _ (parse-Ends (Packet.zero_packet tag) tag)
        λ p a. >>=-Ends _ _ (cache_write-Ends s.q.cache p) λ c b. done-Ends _)

  record_tag-Ends : (s : S d) (tag : Slice) → NodeEnds → Ends (record_tag d s tag)
  unfolding record_tag
  record_tag-Ends s tag n = >>=-Ends _ _ (to_hls s.q.hls_writer) λ s1 a. to_file s1 s1.q.flv_file
    where
      check_error-Ends : (went : Bool) (t : S d) → Ends (check_error d went t)
      check_error-Ends true t e = ground arith
      check_error-Ends false t e = ground arith

      to_hls :
          (o : Option ℕ)
          → Ends {A = S d} (elim o [
            | none ↦ done s
            | some a ↦ (do
              (went, net') ← hls_write a tag s.net
              check_error d went (record s { net = net' }))
          ])
      to_hls none = done-Ends s
      to_hls (some a) = >>=-Ends _ _ (n.hls a tag s.net) λ r b. check_error-Ends r.0 _

      to_file :
          (t : S d) (o : Option ℕ)
          → Ends {A = S d} (elim o [
            | none ↦ done t
            | some f ↦
                (let (went, net') = d.node.write_tag_direct f tag t.net in
                  check_error d went (record t { net = net' }))
          ])
      to_file t none = done-Ends t
      to_file t (some f) = check_error-Ends _ _

  initialise-Ends : (c : SegmentCache) (w : FlvWriter) → Ends (initialise d c w)
  unfolding initialise
  initialise-Ends c w =
      if_Ends w.init (done-Ends _) (>>=-Ends _ _ (send_initial_segment-Ends c w) λ r a. done-Ends _)

  serve_client-Ends : (s : S d) (i a : ℕ) (tag : Slice) → Ends (serve_client d s i a tag)
  unfolding serve_client
  serve_client-Ends s i a tag =
      if_Ends (s.heap a).closed (>>=-Ends _ _ (close-Ends (s.heap a)) λ w b. done-Ends _)
        (>>=-Ends _ _ (initialise-Ends s.q.cache (s.heap a)) λ r b. go r)
    where
      go :
          (r : Option FlvWriter)
          → Ends {A = Bool × S d} (elim r [
            | none ↦ done (false, record s { q = record s.q { flv_record = reset s.q.flv_record } })
            | some w ↦ (do
              r' ← Writer.write w tag
              done (elim r' [
                | none ↦ (true, remove_client d (record s { heap = store_at s.heap a w }) i)
                | some w' ↦ (true, record s { heap = store_at s.heap a w' })
              ]))
          ])
      go none = done-Ends _
      go (some w) = >>=-Ends _ _ (write-Ends w tag) λ r' c. done-Ends _

  visit-Ends : (s : S d) (i : ℕ) (tag : Slice) (x : Option (Option ℕ)) → Ends (visit d s i tag x)
  unfolding visit
  visit-Ends s i tag none = done-Ends _
  visit-Ends s i tag (some none) = done-Ends _
  visit-Ends s i tag (some (some a)) = serve_client-Ends s i a tag

  serve_clients-Ends : (n : ℕ) (s : S d) (tag : Slice) → Ends (serve_clients d n s tag)
  unfolding serve_clients
  serve_clients-Ends zero s tag = done-Ends _
  serve_clients-Ends (suc i) s tag =
      >>=-Ends _ _ (visit-Ends s i tag (d.clients.get s.q.flv_writers i))
        λ r a. if_Ends r.0 (serve_clients-Ends i r.1 tag) (done-Ends _)

  publish-Ends : (s : S d) (tag : Slice) → NodeEnds → Ends (publish d s tag)
  unfolding publish
  publish-Ends s tag n = >>=-Ends _ _ (measure-Ends _ tag n) λ s1 a.
      >>=-Ends _ _ (fill_cache-Ends s1 tag) λ s2 b.
        >>=-Ends _ _ (serve_clients-Ends (d.clients.size s2.q.flv_writers) s2 tag) λ r c.
          if_Ends r.0 (>>=-Ends _ _ (record_tag-Ends r.1 tag n) λ s4 e. done-Ends _) (done-Ends _)

  -- What becomes of a packet that leaves the queue.
  pub extract_flv-Ends : (s : S d) (slot : Slot) → NodeEnds → Ends (extract_flv d s slot)
  unfolding extract_flv
  extract_flv-Ends s none n = done-Ends _
  extract_flv-Ends s (some rp) n =
      >>=-Ends _ _ (assemble-Ends s.q.flv_record rp.marker rp.payload) λ r a.
        if_Ends r.0 (>>=-Ends _ _ (deref-Ends r.1.flv_tag) λ tag b. publish-Ends _ tag n)
          (done-Ends _)

  reshape-Ends : (s : S d) → NodeEnds → Ends (reshape d s)
  unfolding reshape
  reshape-Ends s n = go (d.slots.get s.q.queue 1)
    where
      go :
          (o : Option Slot)
          → Ends {A = ℕ × S d} (elim o [
            | none ↦ done (0, s)
            | some x ↦ (elim x [
              | some rp ↦ done (0, s)
              | none ↦ (do
                (rp, net') ← get_by_quic s.q.ssrc (add16 s.q.first_seq 1) s.net
                let (removed, q') = remove_head d (d.slots.size s.q.queue) 0 s.q
                done (removed, record s { q = q'; net = net' }))
            ])
          ])
      go none = done-Ends _
      go (some (some rp)) = done-Ends _
      go (some none) =
          >>=-Ends _ _ (n.quic s.q.ssrc (add16 s.q.first_seq 1) s.net) λ r a. done-Ends _

  protect_head-Ends : (s : S d) (seq : ℕ) → NodeEnds → Ends (protect_head d s seq)
  unfolding protect_head
  protect_head-Ends s seq n =
      if_Ends (seq == add16 s.q.previous_lost_seq 1 && d.protect && ltb 5 (get_head_nil d s.q))
        (>>=-Ends _ _ (reshape-Ends s n) λ r a. done-Ends _) (done-Ends _)

  run_quic-Ends : (s : S d) (seq : ℕ) → NodeEnds → Ends (run_quic d s seq)
  unfolding run_quic
  run_quic-Ends s seq n = >>=-Ends _ _ (protect_head-Ends _ seq n) λ r a.
      if_Ends r.0 (>>=-Ends _ _ (n.quic r.1.q.ssrc seq r.1.net) λ t b. done-Ends _) (done-Ends _)

  -- One turn of a loop of `RecvPacket`.
  pub take_one-Ends : (s : S d) → NodeEnds → Ends (take_one d s)
  unfolding take_one dequeue
  take_one-Ends s n =
      >>=-Ends _ _
        (>>=-Ends _ _ (if_Ends (is_first_ok d s.q) (done-Ends s) (run_quic-Ends s s.q.first_seq n))
          λ s1 a. done-Ends _)
        λ r b. extract_flv-Ends r.1 r.0 n
