-- ===== src/Edge/Tests/Libraries.antt =====
-- Stand-ins for the libraries of the node, its settings, and its world before the first packet.
use rtp_http_flv.Prelude.{
  ℕ, ◌+◌, ◌≡◌, refl, true, false, List, [], ◌∷◌, ◌++◌, Option, none, some, ltb, ◌<◌, All, Text,
  codes, nat_eq, text_eq, arith, Run, done, Slice,
}
use rtp_http_flv.Rtp.Wire.{Packet}
use rtp_http_flv.Publishers.{Floats, Publisher}
use rtp_http_flv.Publishers.Document.{document}
use rtp_http_flv.Quic.{QuicLib}
use rtp_http_flv.Recording.{OsFile}
use rtp_http_flv.Hls.Livego.{Livego, AvPacket, demuxed, video_header}
use rtp_http_flv.Hls.Source.{new_source}
use rtp_http_flv.Cache.ArrayList.{as_list}
use rtp_http_flv.Cache.Window.{Slot}
use rtp_http_flv.Cache.Queue.{Deps}
use rtp_http_flv.App.{Config}
use rtp_http_flv.Edge.{System, Settings, World}
use rtp_http_flv.Edge.Streams.{dep}

abbrev whole : Floats
whole = record {
  Float = ℕ;
  to_uint32 = λ x. x;
  to_int64 = λ x. x;
  to_uint64 = λ x. x;
  of_ℕ = λ n. n;
  to_uint32-of_ℕ = λ n h. refl;
  to_int64-of_ℕ = λ n h. refl;
  to_uint64-of_ℕ = λ n h. refl;
}

abbrev pub movie : Text
movie = codes "live/movie"

abbrev published : Publisher
published = record {
  key = movie;
  url = codes "rtmp";
  start_time = 1700000000000;
  ssrc = 7;
  id = 1;
  video_total_bytes = 0;
  video_speed = 0;
  audio_total_bytes = 0;
  audio_speed = 0;
}

-- A packet that carries a whole video tag.
abbrev pub packet : ℕ → Packet
packet n = record {
  version = 2;
  marker = 1;
  payload_type = 96;
  sequence_number = n;
  timestamp = 0;
  ssrc = 7;
  csrc_cnt = 0;
  csrcs = [];
  extension = none;
  payload = 9 ∷ 0 ∷ 0 ∷ 5 ∷ 0 ∷ 0 ∷ 0 ∷ 0 ∷ 0 ∷ 0 ∷ 0 ∷ 23 ∷ 0 ∷ 0 ∷ 0 ∷ 0 ∷ [];
  padding = 0;
}

abbrev pub copying : Livego
copying = record {
  demux = λ p. done (demuxed p);
  Parser = ℕ;
  new_parser = 0;
  parse = λ p b t. done (true, b ++ p.payload, t);
  sample_rate = λ t. 44100;
  Muxer = ℕ;
  new_muxer = 0;
  pat = λ m. (71 ∷ [], m);
  pmt = λ audio video m. (72 ∷ [], m + 1);
  mux = λ p b m. done (true, b ++ p.payload, m);
  Base = ℕ;
  new_base = λ n. 0;
  set_pre_time = λ now b. now;
  alive = λ now b. ltb now (b + 10);
}

-- A key frame of H.264.
abbrev pub av_packet : Slice → AvPacket
av_packet tag = record {
  is_video = true;
  is_metadata = false;
  time_stamp = 0;
  header =
      video_header
        (record { is_key_frame = true; is_seq = false; codec_id = 7; composition_time = 0 });
  payload = tag.elems;
}

-- A disk that takes everything.
abbrev disk : OsFile
disk = record {
  World = List ℕ;
  write = λ b w. (true, w ++ b);
  sync = λ w. (true, w);
  contents = λ w. w;
  contents-write = λ b w h. refl;
  contents-sync = λ w. refl;
}

abbrev nothing_read :
    {b : List ℕ} {net net' : ℕ}
    → ◌≡◌ {A = Run (Option (List ℕ) × ℕ)} (done (none, net)) (done (some b, net'))
    → All (λ x. x < 256) b
nothing_read h = absurd (ground arith)

abbrev nothing_written : (file : List ℕ) → some [] ≡ some file → file ≡ []
nothing_written file h = ground arith

-- No connection: every read fails.
abbrev silent : QuicLib
silent = record {
  Net = ℕ;
  Connection = ℕ;
  Stream = ℕ;
  dial_addr = λ net. (none, net);
  open_stream = λ c net. (none, net);
  accept_stream = λ c net. done (none, net);
  read = λ s n net. done (none, net);
  write = λ s b net. (false, net);
  close = λ s net. (true, net);
  read_bytes = λ s n net net' b h. nothing_read h;
}

abbrev pub system : System
system = record {
  live = copying;
  parse_tag = λ tag. done (av_packet tag);
  os = disk;
  lib = silent;
  floats = whole;
  Env = ℕ;
  now = λ e. (e, e + 1);
  set_read_buffer = λ n e. (true, e);
  fetch = λ e. done (some (document whole (published ∷ [])), e);
  create = λ name e. (some [], e);
  create-contents = λ name e file h. nothing_written file h;
  close = λ file. file;
  close-contents = λ file. refl;
}

abbrev pub settings : Settings
settings = record { record_dir = codes "./record"; disable_quic = true; protect = true }

abbrev pub config : Config
config = record { enable_hls = true; enable_record = true; padding_window_size = 2; chan_size = 4 }

abbrev pub D : Deps
D = dep system settings (as_list Slot) (as_list _)

abbrev pub quiet_world : World system settings
quiet_world = record {
  server = record { conns = []; heap = λ a. new_source copying []; next = 0 };
  files = λ f. [];
  next_file = 0;
  quic = record { quic_conn = none; net = 0 };
  env = 0;
}
