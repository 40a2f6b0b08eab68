-- ===== src/Flv/Tag.antt =====
-- container/flv/tag.go: the header of an audio or video body.
use rtp_http_flv.Prelude.{
  ℕ, ◌+◌, ◌*◌, ◌/◌, ◌%◌, ◌^◌, Bool, true, false, List, Option, none, some, ◌&&◌, ◌||◌, ltb, ◌==◌,
  if◌then◌else◌, length, Run, done, ◌>>=◌, index,
}

-- Constants of container/flv/av.go.
abbrev pub sound_aac : ℕ
sound_aac = 10

abbrev pub aac_seqhdr : ℕ
aac_seqhdr = 0

abbrev pub avc_seqhdr : ℕ
avc_seqhdr = 0

abbrev pub frame_key : ℕ
frame_key = 1

abbrev pub frame_inter : ℕ
frame_inter = 2

abbrev pub video_h264 : ℕ
video_h264 = 7

-- `flvTag`, which no code fills in.
pub record FlvTag : Type 0 where
  pub f_type : ℕ
  pub data_size : ℕ
  pub time_stamp : ℕ
  pub stream_id : ℕ

-- `mediaTag`. The composition time is an int32, as its bit pattern.
pub record MediaTag : Type 0 where
  pub sound_format : ℕ
  pub sound_rate : ℕ
  pub sound_size : ℕ
  pub sound_type : ℕ
  pub aac_packet_type : ℕ
  pub frame_type : ℕ
  pub codec_id : ℕ
  pub avc_packet_type : ℕ
  pub composition_time : ℕ

pub record Tag : Type 0 where
  pub flvt : FlvTag
  pub mediat : MediaTag

-- `var tag Tag`: all fields zero.
abbrev pub zero_tag : Tag
zero_tag = record {
  flvt = record { f_type = 0; data_size = 0; time_stamp = 0; stream_id = 0 };
  mediat = record {
    sound_format = 0;
    sound_rate = 0;
    sound_size = 0;
    sound_type = 0;
    aac_packet_type = 0;
    frame_type = 0;
    codec_id = 0;
    avc_packet_type = 0;
    composition_time = 0;
  };
}

unfoldable pub sound_format : Tag → ℕ
sound_format tag = tag.mediat.sound_format

unfoldable pub aac_packet_type : Tag → ℕ
aac_packet_type tag = tag.mediat.aac_packet_type

unfoldable pub is_key_frame : Tag → Bool
is_key_frame tag = tag.mediat.frame_type == frame_key

unfoldable pub is_seq : Tag → Bool
is_seq tag = tag.mediat.frame_type == frame_key && tag.mediat.avc_packet_type == avc_seqhdr

unfoldable pub codec_id : Tag → ℕ
codec_id tag = tag.mediat.codec_id

unfoldable pub composition_time : Tag → ℕ
composition_time tag = tag.mediat.composition_time

-- `parseAudioHeader`: the length of the header and the new tag, or `none` for the error.
unfoldable pub parse_audio_header : Tag → List ℕ → Run (Option (ℕ × Tag))
parse_audio_header tag b = if ltb (length b) 1 then done none else (do
  flags ← index b 0
  let media = record tag.mediat {
    sound_format = flags / 16;
    sound_rate = flags / 4 % 4;
    sound_size = flags / 2 % 2;
    sound_type = flags % 2;
  }
  if media.sound_format == sound_aac
      then (do
        kind ← index b 1
        done (some (2, record tag { mediat = record media { aac_packet_type = kind } })))
      else done (some (1, record tag { mediat = media })))

-- `compositionTime<<8 + int32(b[i])`, on 32 bits
abbrev pub shift_in : ℕ → ℕ → ℕ
shift_in time byte = (time * 256 + byte) % 2 ^ 32

-- `parseVideoHeader`: the length of the header and the new tag, or `none` for the error.
unfoldable pub parse_video_header : Tag → List ℕ → Run (Option (ℕ × Tag))
parse_video_header tag b = if ltb (length b) 5 then done none else (do
  flags ← index b 0
  let media = record tag.mediat { frame_type = flags / 16; codec_id = flags % 16 }
  if media.frame_type == frame_inter || media.frame_type == frame_key
      then (do
        kind ← index b 1
        b2 ← index b 2
        b3 ← index b 3
        b4 ← index b 4
        done (
            some (
              5,
              record tag {
                mediat = record media {
                  avc_packet_type = kind;
                  composition_time = shift_in (shift_in (shift_in media.composition_time b2) b3) b4;
                };
              },
            )))
      else done (some (1, record tag { mediat = media })))

unfoldable pub parse_media_tag_header : Tag → List ℕ → Bool → Run (Option (ℕ × Tag))
unfolding parse_audio_header parse_video_header
parse_media_tag_header tag b false = parse_audio_header tag b
parse_media_tag_header tag b true = parse_video_header tag b
