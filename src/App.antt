-- ===== src/App.antt =====
-- `App` of cache/App.go, the node itself, with the tables that main.go and the HTTP handlers share.
pub mod Streams
pub mod Alive
pub mod Handler
pub mod Receive
pub mod Registry
pub mod Serve
pub mod Requests
pub mod Routes
pub mod Ends
pub mod Delivery
pub mod Invariant
mod Tests
use rtp_http_flv.Prelude.{
  ℕ, Bool, true, false, List, Option, none, some, Text, Dict, lookup, nat_eq, Run, Chan,
}
use rtp_http_flv.Rtp.{RtpPack}
use rtp_http_flv.Publishers.{Floats, Json, Publisher}
use rtp_http_flv.HttpFlv.Writer.{FlvWriter}
use rtp_http_flv.Cache.Queue.{Deps, Q}

-- What the node calls besides the queue's own calls, on the same state `Net`.
pub record Outside (Net : Type 0) : Type 1 where
  pub floats : Floats
  -- the request for the cloud node's statistics; `none` if it fails
  pub fetch : Net → Run (Option (Json floats.Float) × Net)
  -- `CreateFlvFile`, a pointer to the file; `none` for nil
  pub create_flv_file : Text → Net → Option ℕ × Net
  -- `Close` of utils/flv.go
  pub close_file : ℕ → Net → Net
  -- `GetWriter` of protocol/hls/hls.go: the pointer to the HLS source of a key, which is looked up, or
  -- made
  pub get_writer : Text → Net → ℕ × Net
  -- `CloseQuic` of protocol/quic/quic_client.go
  pub close_quic : Net → Run Net

-- The settings of configure/config.go that are read here.
pub record Config : Type 0 where
  pub enable_hls : Bool
  pub enable_record : Bool
  pub padding_window_size : ℕ
  pub chan_size : ℕ

module _ (d : Deps) where
  -- A stream: its queue, with the key and the channel of packets that `Queue` has too.
  pub record Stream : Type 0 where
    pub channel_key : Text
    pub in_chan : Chan RtpPack
    pub q : Q d

  -- `App`, and the clients' writers by their pointers, of which `next` is the first free one. A nil
  -- map of publishers is `none`.
  pub record App : Type 0 where
    pub rtp_queue_map : Dict ℕ Stream
    pub publishers : Option (Dict ℕ Publisher)
    pub key_ssrc_map : Dict Text ℕ
    pub udp_buffer_size : ℕ
    pub flv_files : List (Option ℕ)
    pub heap : ℕ → FlvWriter
    pub next : ℕ
    pub net : d.node.Net

-- Reading a map that may be nil.
abbrev pub publisher_of : ℕ → Option (Dict ℕ Publisher) → Option Publisher
publisher_of ssrc none = none
publisher_of ssrc (some m) = lookup ssrc m
