-- ===== src/Hls/Source/Send.antt =====
-- `parse` and the loop of `SendPacket` of protocol/hls/source.go: what becomes of a packet.
use rtp_http_flv.Prelude.{
  ℕ, ◌+◌, ◌*◌, ◌/◌, ◌%◌, ◌^◌, Bool, true, false, not, ◌&&◌, ◌||◌, [], none, some, ◌==◌,
  if◌then◌else◌, Run, done, panics, ◌>>=◌, deref, recv,
}
use rtp_http_flv.Hls.Align.{align}
use rtp_http_flv.Hls.AudioCache.{cache}
use rtp_http_flv.Hls.Status.{update}
use rtp_http_flv.Hls.Livego.{
  VideoHeader, AudioHeader, Header, no_header, video_header, audio_header, AvPacket, demuxed,
  avc_end_seq, failed, Livego,
}
use rtp_http_flv.Hls.Source.{
  Source, h264_default_hz, cache_max_frames, video_h264, sound_aac, aac_seqhdr,
}
use rtp_http_flv.Hls.Source.Cuts.{mux_audio, cut}

-- The header of a packet as the type that it is asserted to have.
abbrev pub as_video : Header → Run VideoHeader
as_video (video_header h) = done h
as_video no_header = panics
as_video (audio_header h) = panics

abbrev pub as_audio : Header → Run AudioHeader
as_audio (audio_header h) = done h
as_audio no_header = panics
as_audio (video_header h) = panics

module _ (live : Livego) where
  -- What `parse` returns, with the packet that it has changed.
  pub record Parsed : Type 0 where
    pub composition_time : ℕ
    pub is_seq : Bool
    pub ok : Bool
    pub packet : AvPacket
    pub source : Source live

  -- `tsparser.Parse(p, bwriter)`
  unfoldable pub feed : AvPacket → Source live → Run (Bool × Source live)
  feed p s = do
    (ok, b, t) ← live.parse p s.bwriter s.ts_parser
    done (ok, record s { bwriter = b; ts_parser = t })

  -- A sequence header is only parsed.
  unfoldable pub parse_seq : ℕ → AvPacket → Source live → Run Parsed
  unfolding feed
  parse_seq time p s = do
    (ok, s1) ← feed p s
    done (record { composition_time = time; is_seq = true; ok = ok; packet = p; source = s1 })

  -- Any other packet: its data is replaced by what the parser writes, and a key frame cuts.
  unfoldable pub parse_frame : ℕ → ℕ → Bool → AvPacket → Source live → Run Parsed
  unfolding feed cut
  parse_frame now time is_key p s = do
    (ok, s1) ← feed p (record s { bwriter = [] })
    if not ok
        then done (record {
          composition_time = time;
          is_seq = false;
          ok = false;
          packet = p;
          source = s1;
        })
        else (do
          let p1 = record p { payload = s1.bwriter }
          s2 ← (if p.is_video && is_key then cut live now s1 else done s1)
          done (record {
            composition_time = time;
            is_seq = false;
            ok = true;
            packet = p1;
            source = s2;
          }))

  -- A codec that is not supported.
  abbrev pub unsupported : AvPacket → Source live → Parsed
  unsupported p s = record {
    composition_time = 0;
    is_seq = false;
    ok = false;
    packet = p;
    source = s;
  }

  -- `parse`
  unfoldable pub parse : ℕ → AvPacket → Source live → Run Parsed
  parse now p s =
      if p.is_video
      then (do
        vh ← as_video p.header
        if not (vh.codec_id == video_h264)
            then done (unsupported p s)
            else if vh.is_key_frame && vh.is_seq
            then parse_seq vh.composition_time p s
            else parse_frame now vh.composition_time vh.is_key_frame p s)
      else (do
        ah ← as_audio p.header
        if not (ah.sound_format == sound_aac)
            then done (unsupported p s)
            else if ah.aac_packet_type == aac_seqhdr
            then parse_seq 0 p s
            else parse_frame now 0 false p s)

  -- `calcPtsDts`: a sample rate of 0 is a division by zero.
  unfoldable pub calc_pts_dts : Bool → ℕ → ℕ → Source live → Run (Source live)
  calc_pts_dts is_video ts composition_ts s =
      let dts = ts * h264_default_hz in
      if is_video
      then done (record s { dts = dts; pts = dts + composition_ts * h264_default_hz })
      else if live.sample_rate s.ts_parser == 0
      then panics
      else (let (a, dts') =
            align s.align dts (90000 * 1024 / live.sample_rate s.ts_parser % 2 ^ 32) in
          done (record s { align = a; dts = dts'; pts = dts' }))

  -- `tsMux`; false for an error
  unfoldable pub ts_mux : AvPacket → Source live → Run (Bool × Source live)
  ts_mux p s =
      if p.is_video
      then (do
        b ← deref s.btswriter
        (ok, b', m) ← live.mux p b s.muxer
        done (ok, record s { btswriter = some b'; muxer = m }))
      else mux_audio live cache_max_frames (record s { cache = cache s.cache p.payload s.pts })

  -- A packet that has been parsed, when there is a segment.
  unfoldable pub add_packet : ℕ → AvPacket → Source live → Run (Source live)
  unfolding calc_pts_dts ts_mux
  add_packet time p s = elim s.btswriter [
    | none ↦ done s
    | some b ↦ (do
      s1 ←
          calc_pts_dts p.is_video p.time_stamp time
            (record s { stat = update s.stat p.is_video p.time_stamp })
      (ok, s2) ← ts_mux p s1
      done s2)
  ]

  -- A packet from the queue. A failure of the demuxer ends the goroutine, which closes the source.
  unfoldable pub take_packet : ℕ → AvPacket → Source live → Run (Source live)
  take_packet now p s = if p.is_metadata then done s else (do
    r ← live.demux p
    elim r [
      | avc_end_seq ↦ done s
      | failed ↦ done (record s { closed = true })
      | demuxed p1 ↦ (do
        t ← parse now p1 s
        if not t.ok || t.is_seq
            then done t.source
            else add_packet t.composition_time t.packet t.source)
    ])

  -- A round of `SendPacket` at a time, with what `NewSource` does when it returns an error. A panic
  -- ends the goroutine.
  unfoldable pub send_packet : ℕ → Source live → Run (Source live)
  send_packet now s = if s.closed then done s else (do
    (p, queue) ← recv s.packet_queue
    let s1 : Source live = record s { packet_queue = queue }
    elim p [ none ↦ done (record s1 { closed = true }) | some p' ↦ take_packet now p' s1 ])
