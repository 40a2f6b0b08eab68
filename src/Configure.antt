-- ===== src/Configure.antt =====
-- configure/config.go: the settings, from the defaults, the file conf.yaml and the command line.
pub mod Again
mod Tests
use rtp_http_flv.Prelude.{
  ℕ, Bool, true, false, List, [], ◌∷◌, Option, none, some, if◌then◌else◌, Text, codes, text_beq,
  Run, done, panics, ◌>>=◌,
}
use rtp_http_flv.App as App
use rtp_http_flv.Edge as Edge

-- `Config`, where `F` stands for float64.
pub record Config (F : Type 0) : Type 0 where
  pub h : Bool
  pub udp_socket_addr : Text
  pub api_addr : Text
  pub quic_addr : Text
  pub rtp_queue_padding_window_size : ℕ
  pub disable_quic : Bool
  pub rtp_queue_chan_size : ℕ
  pub record_dir : Text
  pub packet_loss_rate : F
  pub http_flv_addr : Text
  pub enable_hls : Bool
  pub hls_addr : Text
  pub enable_record : Bool
  pub cert_file : Text
  pub key_file : Text
  pub init : Bool
  pub log_level : Text
  pub enable_log_file : Bool
  pub cloud_host : Text
  pub protect : Bool

-- `Conf` as the program starts; the argument is the float 0.001.
abbrev pub defaults : {F : Type 0} → F → Config F
defaults loss = record {
  h = false;
  udp_socket_addr = codes "239.0.0.1:5222";
  api_addr = codes ":8090";
  quic_addr = codes ":4242";
  rtp_queue_padding_window_size = 100;
  disable_quic = false;
  rtp_queue_chan_size = 100;
  record_dir = codes "./record";
  packet_loss_rate = loss;
  http_flv_addr = codes ":7001";
  enable_hls = false;
  hls_addr = codes ":7002";
  enable_record = false;
  cert_file = codes "certs/server.crt";
  key_file = codes "certs/server1.key";
  init = false;
  log_level = [];
  enable_log_file = false;
  cloud_host = [];
  protect = true;
}

-- A flag of the command line with its value, as the library flag parses it. `INIT` and `CLOUD_HOST` have
-- no flag.
pub data Flag (F : Type 0) : Type 0 where
  h disable_quic enable_hls enable_record enable_log_file protect : Bool → Flag F
  udp_addr api_addr quic_addr record_dir flv_addr hls_addr cert_file key_file log_level :
      Text → Flag F
  padding_size chan_size : ℕ → Flag F
  pack_loss : F → Flag F

-- A flag sets the variable with which `init` has registered it.
unfoldable pub set_flag : {F : Type 0} → Flag F → Config F → Config F
set_flag (h b) c = record c { h = b }
set_flag (disable_quic b) c = record c { disable_quic = b }
set_flag (enable_hls b) c = record c { enable_hls = b }
set_flag (enable_record b) c = record c { enable_record = b }
set_flag (enable_log_file b) c = record c { enable_log_file = b }
set_flag (protect b) c = record c { protect = b }
set_flag (udp_addr t) c = record c { udp_socket_addr = t }
set_flag (api_addr t) c = record c { api_addr = t }
set_flag (quic_addr t) c = record c { quic_addr = t }
set_flag (record_dir t) c = record c { record_dir = t }
set_flag (flv_addr t) c = record c { http_flv_addr = t }
set_flag (hls_addr t) c = record c { hls_addr = t }
set_flag (cert_file t) c = record c { cert_file = t }
set_flag (key_file t) c = record c { key_file = t }
set_flag (log_level t) c = record c { log_level = t }
set_flag (padding_size n) c = record c { rtp_queue_padding_window_size = n }
set_flag (chan_size n) c = record c { rtp_queue_chan_size = n }
set_flag (pack_loss x) c = record c { packet_loss_rate = x }

-- `flag.Parse()` on the flags in their order: a later one wins.
unfoldable pub parse_flags : {F : Type 0} → List (Flag F) → Config F → Config F
parse_flags [] c = c
parse_flags (f ∷ fs) c = parse_flags fs (set_flag f c)

pub data Level : Type 0 where
  debug info error trace : Level

-- The switch on `LOG_LEVEL`.
unfoldable pub level_of : Text → Level
level_of t =
    if text_beq t (codes "debug")
    then debug
    else if text_beq t (codes "info")
    then info
    else if text_beq t (codes "error")
    then error
    else trace

-- The libraries yaml and os, with the disk as `World`: `none` and false stand for errors. `stat` tells
-- whether the file is known not to exist. `Bytes` is the type of a file's contents.
pub record Disk (F : Type 0) : Type 1 where
  pub World : Type 0
  pub Bytes : Type 0
  pub read_file : Text → World → Option Bytes × World
  pub write_file : Text → Bytes → World → Bool × World
  pub not_exists : Text → World → Bool × World
  pub mkdir : Text → World → Bool × World
  pub open_log : World → Bool × World
  pub marshal : Config F → Option Bytes
  pub unmarshal : Bytes → Config F → Option (Config F)

module _ (F : Type 0) (disk : Disk F) where
  open disk use {World, read_file, write_file, not_exists, mkdir, open_log, marshal, unmarshal}

  -- `writeToXml`: an error is a panic.
  unfoldable pub write_to_xml : Text → Config F → World → Run World
  write_to_xml src c w = elim (marshal c) [
    | none ↦ panics
    | some data' ↦ (let (fine, w') = write_file src data' w in if fine then done w' else panics)
  ]

  -- `readFromXml`: a file that cannot be read is written.
  unfoldable pub read_from_xml : Text → Config F → World → Run (Config F × World)
  read_from_xml src c w =
      let (content, w1) = read_file src w in
      elim content [
        | none ↦ (do w2 ← write_to_xml src c w1; done (c, w2))
        | some b ↦ (elim (unmarshal b c) [ none ↦ panics | some c' ↦ done (c', w1) ])
      ]

  -- The directory for the recordings is made if it is not there.
  unfoldable pub make_dir : Text → World → Run World
  make_dir dir w =
      let (absent, w1) = not_exists dir w in
      if absent
      then (let (fine, w2) = mkdir dir w1 in if fine then done w2 else panics)
      else done w1

  abbrev pub conf_yaml : Text
  conf_yaml = codes "./conf.yaml"

  -- `InitConfig`: whether the program goes on, the settings, and the level of the log, once there is
  -- one.
  unfoldable pub init_config :
      List (Flag F) → Config F → World → Run (Bool × Config F × Option Level × World)
  init_config flags c w = do
    (c1, w1) ← read_from_xml conf_yaml c w
    let c2 = parse_flags flags c1
    if c2.h then done (false, c2, none, w1) else (do
      let (logged, w2) = if c2.enable_log_file then open_log w1 else (true, w1)
      w3 ← make_dir c2.record_dir w2
      done (true, c2, some (level_of c2.log_level), w3))

  -- The settings that the node reads.
  abbrev pub app_config : Config F → App.Config
  app_config c = record {
    enable_hls = c.enable_hls;
    enable_record = c.enable_record;
    padding_window_size = c.rtp_queue_padding_window_size;
    chan_size = c.rtp_queue_chan_size;
  }

  abbrev pub edge_settings : Config F → Edge.Settings
  edge_settings c = record {
    record_dir = c.record_dir;
    disable_quic = c.disable_quic;
    protect = c.protect;
  }
