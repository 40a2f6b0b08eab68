-- ===== src/Cache/Segments.antt =====
-- cache/cache.go: the first audio and video tags of a stream, which a player needs to decode it.
pub mod Laws
mod Tests
use rtp_http_flv.Prelude.{
  Bool, true, false, Option, none, some, ◌&&◌, ◌==◌, if◌then◌else◌, Run, done, panics, ◌>>=◌, Slice,
}
use rtp_http_flv.Flv.Tag.{Tag, sound_format, sound_aac, aac_packet_type, aac_seqhdr, is_seq}
use rtp_http_flv.Flv.Packet.{Packet, Demuxed, ok, err, demux_header}
use rtp_http_flv.HttpFlv.Writer.{FlvWriter}
use rtp_http_flv.HttpFlv.Writer

-- `SegmentPacket`
pub record SegmentPacket : Type 0 where
  pub full : Bool
  pub p : Option Packet

abbrev pub empty_segment : SegmentPacket
empty_segment = record { full = false; p = none }

unfoldable pub write_segment : SegmentPacket → Packet → SegmentPacket
write_segment s p = record { full = true; p = some p }

-- `Send`: the writer with the segment queued, or `none` for the error.
unfoldable pub send_segment : SegmentPacket → FlvWriter → Run (Option FlvWriter)
send_segment s w =
    if s.full
    then elim s.p [ none ↦ panics | some initial ↦ Writer.write w initial.payload ]
    else done (some w)

-- `SegmentCache`
pub record SegmentCache : Type 0 where
  pub video_seq : SegmentPacket
  pub audio_seq : SegmentPacket
  pub metadata : SegmentPacket
  pub full : Bool

unfoldable pub new_cache : SegmentCache
new_cache = record {
  video_seq = empty_segment;
  audio_seq = empty_segment;
  metadata = empty_segment;
  full = false;
}

-- The audio branch of `Write`.
unfoldable pub keep_audio : SegmentCache → Packet → Tag → SegmentCache
unfolding write_segment sound_format aac_packet_type
keep_audio c p ah =
    if sound_format ah == sound_aac && aac_packet_type ah == aac_seqhdr
    then record c { audio_seq = write_segment c.audio_seq p }
    else c

-- The video branch of `Write`.
unfoldable pub keep_video : SegmentCache → Packet → Tag → SegmentCache
unfolding write_segment is_seq
keep_video c p vh = if is_seq vh then record c { video_seq = write_segment c.video_seq p } else c

-- A header that has been read is a `Tag`, which has the methods of both interfaces.
unfoldable pub keep : SegmentCache → Packet → Option Tag → SegmentCache
unfolding keep_audio keep_video
keep c p none = c
keep c p (some h) =
    if p.is_audio then keep_audio c p h else if p.is_video then keep_video c p h else c

-- The last test of `Write`.
unfoldable pub mark_full : SegmentCache → SegmentCache
mark_full c = if c.video_seq.full && c.audio_seq.full then record c { full = true } else c

-- `Write` panics (`CheckError`) if the header cannot be read.
unfoldable pub write : SegmentCache → Packet → Run SegmentCache
unfolding keep mark_full
write c p = do
  demuxed ← demux_header p
  elim demuxed [ err e ↦ panics | ok p' ↦ done (mark_full (keep c p' p'.header)) ]

-- The segments that are there go to a client one after the other, until one fails.
abbrev pub and_then : Option FlvWriter → SegmentPacket → Run (Option FlvWriter)
and_then none s = done none
and_then (some w) s = send_segment s w

unfoldable pub send_initial_segment : SegmentCache → FlvWriter → Run (Option FlvWriter)
unfolding send_segment
send_initial_segment c w = do
  w1 ← send_segment c.metadata w
  w2 ← and_then w1 c.video_seq
  and_then w2 c.audio_seq
