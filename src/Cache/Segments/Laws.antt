-- ===== src/Cache/Segments/Laws.antt =====
-- What the cache of initial segments holds, and what a new client gets from it.
use rtp_http_flv.Prelude.{
  ℕ, ◌+◌, ◌≡◌, refl, ◌⊎◌, inl, inr, ap, Bool, true, false, none, some, ◌&&◌, if◌then◌else◌, done,
  panics, >>=-eq-done, Slice, List, [], ◌∷◌, ◌++◌, length, arith, append_assoc, append-nil,
  length-append, ◌≤◌, suc, subst,
}
use rtp_http_flv.Flv.Tag.{Tag, sound_format, aac_packet_type, is_seq}
use rtp_http_flv.Flv.Packet.{Packet, Demuxed, ok, err, demux_header, demux_header-ok}
use rtp_http_flv.HttpFlv.Writer.{FlvWriter}
use rtp_http_flv.HttpFlv.Writer
use rtp_http_flv.Cache.Segments.{
  SegmentPacket, SegmentCache, new_cache, write, keep, mark_full, send_initial_segment,
  send_segment, empty_segment,
}

-- A full segment holds a packet with the property, an empty one holds nothing.
abbrev pub HoldsIf : (Packet → Type 0) → SegmentPacket → Type 0
HoldsIf P s = (s.full ≡ false) ⊎ ((p : Packet) × (s.full ≡ true) × (s.p ≡ some p) × P p)

abbrev pub IsVideoSeq : Packet → Type 0
IsVideoSeq p = (p.is_video ≡ true) × ((h : Tag) × (p.header ≡ some h) × (is_seq h ≡ true))

abbrev pub IsAudioSeq : Packet → Type 0
IsAudioSeq p =
    (p.is_audio ≡ true)
    × ((h : Tag) × (p.header ≡ some h) × (sound_format h ≡ 10) × (aac_packet_type h ≡ 0))

pub record IsCache (c : SegmentCache) : Type 0 where
  pub video : HoldsIf IsVideoSeq c.video_seq
  pub audio : HoldsIf IsAudioSeq c.audio_seq
  pub metadata : c.metadata ≡ empty_segment
  pub full_eq : c.full ≡ (c.video_seq.full && c.audio_seq.full)

pub new_cache-IsCache : IsCache new_cache
unfolding new_cache
new_cache-IsCache = record { video = inl refl; audio = inl refl; metadata = refl; full_eq = refl }

mark_full-IsCache :
    (c : SegmentCache)
    → HoldsIf IsVideoSeq c.video_seq
    → HoldsIf IsAudioSeq c.audio_seq
    → c.metadata ≡ empty_segment
    → (c.full ≡ false) ⊎ (c.full ≡ (c.video_seq.full && c.audio_seq.full))
    → IsCache (mark_full c)
unfolding mark_full
mark_full-IsCache c v a m f = ground arith

abbrev filled : Packet → SegmentPacket
filled p = record { full = true; p = some p }

-- A packet whose header was read is kept as the audio or the video segment, or not at all.
keep-cases :
    (c : SegmentCache) (p : Packet) (h : Tag)
    → (keep c p (some h) ≡ c)
      ⊎ ((p.is_audio ≡ true)
          × (sound_format h ≡ 10)
          × (aac_packet_type h ≡ 0)
          × (keep c p (some h) ≡ record c { audio_seq = filled p }))
      ⊎ ((p.is_video ≡ true)
          × (is_seq h ≡ true)
          × (keep c p (some h) ≡ record c { video_seq = filled p }))
unfolding keep
keep-cases c p h = ground arith

-- The test for a full cache, before and after one segment is filled.
full_after : (full v a : Bool) → full ≡ (v && a) → (full ≡ false) ⊎ (full ≡ (v && true))
full_after full v a e = ground arith

full_after' : (full v a : Bool) → full ≡ (v && a) → (full ≡ false) ⊎ (full ≡ (true && a))
full_after' full v a e = ground arith

-- Keeping a packet keeps the invariant.
keep-IsCache :
    (c : SegmentCache) (p : Packet) (h : Tag)
    → p.header ≡ some h
    → IsCache c
    → IsCache (mark_full (keep c p (some h)))
keep-IsCache c p h e v = go (keep-cases c p h)
  where
    audio : SegmentCache
    audio = record c { audio_seq = filled p }

    video : SegmentCache
    video = record c { video_seq = filled p }

    go :
        (keep c p (some h) ≡ c)
          ⊎ ((p.is_audio ≡ true)
              × (sound_format h ≡ 10)
              × (aac_packet_type h ≡ 0)
              × (keep c p (some h) ≡ record c { audio_seq = filled p }))
          ⊎ ((p.is_video ≡ true)
              × (is_seq h ≡ true)
              × (keep c p (some h) ≡ record c { video_seq = filled p }))
        → IsCache (mark_full (keep c p (some h)))
    go (inl same) = rw same (mark_full-IsCache c v.video v.audio v.metadata (inr v.full_eq))
    go (inr (inl (a, f, t, eq))) = rw eq (
        mark_full-IsCache audio v.video (inr (p, refl, refl, (a, (h, e, f, t)))) v.metadata
          (full_after c.full c.video_seq.full c.audio_seq.full v.full_eq))
    go (inr (inr (b, q, eq))) = rw eq (
        mark_full-IsCache video (inr (p, refl, refl, (b, (h, e, q)))) v.audio v.metadata
          (full_after' c.full c.video_seq.full c.audio_seq.full v.full_eq))

-- The cache holds only an AAC sequence header and a video sequence header, each with the header that
-- was read from it, and is marked as full exactly when both are there. No packet is ever kept as
-- metadata. `Write` preserves that, whatever the packet, if it does not panic.
pub write-IsCache :
    (c c' : SegmentCache) (p : Packet) → IsCache c → write c p ≡ done c' → IsCache c'
unfolding write
write-IsCache c c' p v e = go (>>=-eq-done (demux_header p) _ e)
  where
    go :
        (d : Demuxed) × (demux_header p ≡ done d)
          × (elim d [ err x ↦ panics | ok p' ↦ done (mark_full (keep c p' p'.header)) ] ≡ done c')
        → IsCache c'
    go (err x, f, g) = ground arith
    go (ok p', f, g) =
        let (h, q) = demux_header-ok p p' f in
        let k : p'.header ≡ some h = cc (ap (λ (r : Packet). r.header) q) in
        let step : mark_full (keep c p' (some h)) ≡ c' = cc in
        subst IsCache step (keep-IsCache c p' h k v)

-- What a client needs before it can play: the video segment, then the audio segment.
abbrev pub segment_data : SegmentPacket → List Slice
segment_data s = if s.full then elim s.p [ none ↦ [] | some p ↦ p.payload ∷ [] ] else []

abbrev pub initial : SegmentCache → List Slice
initial c = segment_data c.video_seq ++ segment_data c.audio_seq

abbrev queued : FlvWriter → List Slice → FlvWriter
queued w ps = record w {
  packet_queue = record w.packet_queue { pending = w.packet_queue.pending ++ ps };
}

abbrev CanTake : FlvWriter → ℕ → Type 0
CanTake w n =
    (w.closed ≡ false)
    × (w.packet_queue.is_closed ≡ false)
    × (length w.packet_queue.pending + n ≤ w.packet_queue.capacity)

send_segment-data :
    {P : Packet → Type 0} (s : SegmentPacket) (w : FlvWriter)
    → HoldsIf P s
    → CanTake w 1
    → send_segment s w ≡ done (some (queued w (segment_data s)))
unfolding send_segment Writer.write
send_segment-data s w (inl e) t = ground (arith, append-nil w.packet_queue.pending)
send_segment-data s w (inr (p, f, e, h)) t = ground arith

-- A segment is one tag at most.
CanTake-queued :
    {P : Packet → Type 0} (s : SegmentPacket) (w : FlvWriter) (n : ℕ)
    → HoldsIf P s
    → CanTake w (suc n)
    → CanTake (queued w (segment_data s)) n
CanTake-queued s w n (inl e) (o, q, r) =
    (o, q, rw (e, append-nil w.packet_queue.pending) (omega arith))
CanTake-queued s w n (inr (p, f, e, h)) (o, q, r) =
    (o, q, rw (f, e) (omega (arith, length-append w.packet_queue.pending (p.payload ∷ []))))

-- A client whose queue is open and has room for two tags gets the video segment and then the audio
-- segment, as far as the cache has them, behind what waits for it already, and nothing else.
pub send_initial_segment-initial :
    (c : SegmentCache) (w : FlvWriter)
    → IsCache c
    → w.closed ≡ false
    → w.packet_queue.is_closed ≡ false
    → length w.packet_queue.pending + 2 ≤ w.packet_queue.capacity
    → send_initial_segment c w
      ≡ done (
          some (record w {
            packet_queue = record w.packet_queue { pending = w.packet_queue.pending ++ initial c };
          }))
unfolding send_initial_segment
send_initial_segment-initial c w v o q r =
    let video : send_segment c.video_seq w ≡ done (some (queued w (segment_data c.video_seq))) =
      send_segment-data c.video_seq w v.video (o, q, omega arith) in
    let audio =
      send_segment-data c.audio_seq (queued w (segment_data c.video_seq)) v.audio
        (CanTake-queued c.video_seq w 1 v.video (o, q, r)) in
    let none_yet : send_segment c.metadata w ≡ done (some w) =
      rw v.metadata (unfold send_segment in refl) in
    rw (none_yet, video, audio)
      (ap (λ t. done (some (record w { packet_queue = record w.packet_queue { pending = t } })))
        (append_assoc w.packet_queue.pending (segment_data c.video_seq) (segment_data c.audio_seq)))
