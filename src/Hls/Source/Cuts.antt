-- ===== src/Hls/Source/Cuts.antt =====
-- `cut` and `muxAudio` of protocol/hls/source.go: how segments are made.
use rtp_http_flv.Prelude.{
  ℕ, ◌+◌, ◌/◌, ◌%◌, ◌^◌, Bool, true, false, List, [], ◌++◌, none, some, ltb, leb, if◌then◌else◌,
  Run, done, ◌>>=◌, deref,
}
use rtp_http_flv.Hls.AudioCache.{get_frame, cache_num}
use rtp_http_flv.Hls.TsCache.{new_ts_item, set_item}
use rtp_http_flv.Hls.Status.{reset_and_new, duration_ms}
use rtp_http_flv.Hls.Livego.{no_header, AvPacket, Livego}
use rtp_http_flv.Hls.Source.Names.{segment_name}
use rtp_http_flv.Hls.Source.{Source, duration, h264_default_hz, sound_aac}

-- The packet that `muxAudio` makes.
abbrev pub audio_packet : List ℕ → ℕ → AvPacket
audio_packet buf pts = record {
  is_video = false;
  is_metadata = false;
  time_stamp = pts / h264_default_hz % 2 ^ 32;
  header = no_header;
  payload = buf;
}

module _ (live : Livego) where
  -- `muxAudio`: the collected audio, from `limit` frames on; false for an error.
  unfoldable pub mux_audio : ℕ → Source live → Run (Bool × Source live)
  mux_audio limit s = if ltb (cache_num s.cache) limit then done (true, s) else (do
    let ((n, pts, buf), c) = get_frame s.cache
    b ← deref s.btswriter
    (ok, b', m) ← live.mux (audio_packet buf pts) b s.muxer
    done (ok, record s { cache = c; btswriter = some b'; muxer = m }))

  -- The tables at the start of a segment.
  unfoldable pub write_tables : List ℕ → Source live → Source live
  write_tables b s =
      let (pat, m) = live.pat s.muxer in
      let (pmt, m') = live.pmt sound_aac true m in
      record s { btswriter = some (b ++ (pat ++ pmt)); muxer = m' }

  -- The segment that ends at a time, in seconds.
  unfoldable pub end_segment : ℕ → Source live → Run (Source live)
  end_segment now s = do
    (ok, s1) ← mux_audio 1 s
    b ← deref s1.btswriter
    let filename = segment_name s1.key now
    let item = new_ts_item filename (duration_ms s1.stat) (s1.seq + 1) b
    done (record s1 {
      seq = s1.seq + 1;
      ts_cache = set_item s1.ts_cache filename item;
      stat = reset_and_new s1.stat;
    })

  -- `cut`
  unfoldable pub cut : ℕ → Source live → Run (Source live)
  unfolding end_segment write_tables
  cut now s = elim s.btswriter [
    | none ↦ done (write_tables [] s)
    | some b ↦
        if leb duration (duration_ms s.stat)
        then (do s1 ← end_segment now s; done (write_tables [] s1))
        else done s
  ]
