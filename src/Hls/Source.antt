-- ===== src/Hls/Source.antt =====
-- `Source` of protocol/hls/source.go: it cuts the packets of a stream into segments.
pub mod Names
pub mod Cuts
pub mod Send
pub mod Segments
pub mod Reach
use rtp_http_flv.Prelude.{
  ℕ, ◌+◌, ◌*◌, ◌/◌, ◌%◌, ◌^◌, Bool, true, false, not, ◌&&◌, ◌||◌, List, [], ◌∷◌, ◌++◌, Option, none,
  some, ltb, leb, ◌==◌, if◌then◌else◌, replicate, Text, Run, done, panics, ◌>>=◌, deref,
  recover_with, Chan, make_chan, send, recv,
}
use rtp_http_flv.Hls.Align.{Align, align}
use rtp_http_flv.Hls.AudioCache.{AudioCache, new_audio_cache, cache, get_frame, cache_num}
use rtp_http_flv.Hls.TsCache.{TsCacheItem, new_ts_item, new_ts_cache_item, set_item}
use rtp_http_flv.Hls.Status.{Status, new_status, update, reset_and_new, duration_ms}
use rtp_http_flv.Hls.Livego.{
  VideoHeader, AudioHeader, Header, no_header, video_header, audio_header, AvPacket, Demuxed,
  demuxed, avc_end_seq, failed, Livego,
}
use rtp_http_flv.Hls.Source.Names.{segment_name}

abbrev pub max_queue_num : ℕ
max_queue_num = 512

-- `duration` of hls.go, in milliseconds
abbrev pub duration : ℕ
duration = 3000

abbrev pub h264_default_hz : ℕ
h264_default_hz = 90

abbrev pub cache_max_frames : ℕ
cache_max_frames = 6

-- `av.VIDEO_H264`, `av.SOUND_AAC` and `av.AAC_SEQHDR`
abbrev pub video_h264 : ℕ
video_h264 = 7

abbrev pub sound_aac : ℕ
sound_aac = 10

abbrev pub aac_seqhdr : ℕ
aac_seqhdr = 0

module _ (live : Livego) where
  -- `Source`, with the bytes of its buffers; the demuxer has no state that is used.
  pub record Source : Type 0 where
    pub base : live.Base
    pub seq : ℕ
    pub key : Text
    pub bwriter : List ℕ
    pub btswriter : Option (List ℕ)
    pub muxer : live.Muxer
    pub pts : ℕ
    pub dts : ℕ
    pub stat : Status
    pub align : Align
    pub cache : AudioCache
    pub ts_cache : TsCacheItem
    pub ts_parser : live.Parser
    pub closed : Bool
    pub packet_queue : Chan AvPacket

  -- `NewSource`, with the seconds that it may be silent.
  unfoldable pub new_source : Text → Source
  new_source key = record {
    base = live.new_base 10;
    seq = 0;
    key = key;
    bwriter = replicate (100 * 1024) 0;
    btswriter = none;
    muxer = live.new_muxer;
    pts = 0;
    dts = 0;
    stat = new_status;
    align = record { frame_num = 0; frame_base = 0 };
    cache = new_audio_cache;
    ts_cache = new_ts_cache_item;
    ts_parser = live.new_parser;
    closed = false;
    packet_queue = make_chan max_queue_num;
  }

  -- `Write` at a time; false for an error.
  unfoldable pub write : ℕ → AvPacket → Source → Run (Bool × Source)
  write now p s =
      if s.closed
      then done (false, s)
      else (let s1 : Source = record s { base = live.set_pre_time now s.base } in
          recover_with (false, s1)
            (do queue ← send s1.packet_queue p; done (true, record s1 { packet_queue = queue })))
