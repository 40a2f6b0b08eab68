-- ===== src/Cache/Segments/Tests.antt =====
-- A sequence header is kept, and sent to a client.
use rtp_http_flv.Prelude.{◌≡◌, refl, true, [], ◌∷◌, some, done, Slice, exact, arith}
use rtp_http_flv.Flv.Tag.{Tag, zero_tag}
use rtp_http_flv.Flv.Packet.{Packet, zero_packet, demux_header}
use rtp_http_flv.HttpFlv.Writer.{fresh}
use rtp_http_flv.Cache.Segments.{SegmentCache, new_cache, write, send_initial_segment}
use rtp_http_flv.Cache.Segments.Laws.{
  IsCache, write-IsCache, send_initial_segment-initial, new_cache-IsCache,
}

-- An H.264 sequence header.
abbrev tag : Slice
tag = exact (9 ∷ 0 ∷ 0 ∷ 5 ∷ 0 ∷ 0 ∷ 0 ∷ 0 ∷ 0 ∷ 0 ∷ 0 ∷ 23 ∷ 0 ∷ 0 ∷ 0 ∷ 0 ∷ [])

abbrev packet : Packet
packet = record (zero_packet tag) { is_video = true }

abbrev header : Tag
header = record zero_tag { mediat = record zero_tag.mediat { frame_type = 1; codec_id = 7 } }

abbrev kept : SegmentCache
kept = record new_cache {
  video_seq = record { full = true; p = some (record packet { header = some header }) };
}

kept_written : write new_cache packet ≡ done kept
unfolding write demux_header new_cache
kept_written = refl

write-IsCache_example : IsCache kept
write-IsCache_example = write-IsCache new_cache kept packet new_cache-IsCache kept_written

send_initial_segment-initial_example :
    send_initial_segment kept fresh
    ≡ done (some (record fresh { packet_queue = record fresh.packet_queue { pending = tag ∷ [] } }))
unfolding new_cache
send_initial_segment-initial_example =
    send_initial_segment-initial kept fresh write-IsCache_example refl refl (omega arith)
