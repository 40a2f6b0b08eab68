-- ===== src/Hls/Livego.antt =====
-- What protocol/hls/source.go uses of the library livego: packets, the demuxer, the codec parser, the
-- muxer of transport streams, and the clock of a connection.
use rtp_http_flv.Prelude.{ℕ, Bool, List, Run}

-- What the methods of a header return.
pub record VideoHeader : Type 0 where
  pub is_key_frame : Bool
  pub is_seq : Bool
  pub codec_id : ℕ
  pub composition_time : ℕ

pub record AudioHeader : Type 0 where
  pub sound_format : ℕ
  pub aac_packet_type : ℕ

pub data Header : Type 0 where
  no_header : Header
  video_header : VideoHeader → Header
  audio_header : AudioHeader → Header

pub record AvPacket : Type 0 where
  pub is_video : Bool
  pub is_metadata : Bool
  pub time_stamp : ℕ
  pub header : Header
  pub payload : List ℕ

-- What `Demux` returns, with the packet that it has changed.
pub data Demuxed : Type 0 where
  demuxed : AvPacket → Demuxed
  avc_end_seq failed : Demuxed

-- The Boolean of a call is false for an error; a buffer that a call writes to is passed and returned.
pub record Livego : Type 1 where
  pub demux : AvPacket → Run Demuxed
  pub Parser : Type 0
  pub new_parser : Parser
  pub parse : AvPacket → List ℕ → Parser → Run (Bool × List ℕ × Parser)
  pub sample_rate : Parser → ℕ
  pub Muxer : Type 0
  pub new_muxer : Muxer
  pub pat : Muxer → List ℕ × Muxer
  pub pmt : ℕ → Bool → Muxer → List ℕ × Muxer
  pub mux : AvPacket → List ℕ → Muxer → Run (Bool × List ℕ × Muxer)
  -- `RWBaser`
  pub Base : Type 0
  pub new_base : ℕ → Base
  pub set_pre_time : ℕ → Base → Base
  pub alive : ℕ → Base → Bool
