-- ===== src/Cache/Queue.antt =====
-- `Queue` of cache/RtpQueue.go: its fields, the state that its methods share with the rest of the
-- node, and what they call of other components.
pub mod Slots
pub mod Retransmit
pub mod Extract
pub mod Receive
pub mod Print
mod Tests
use rtp_http_flv.Prelude.{ℕ, ◌*◌, Bool, Option, Run, Slice}
use rtp_http_flv.Rtp.{RtpPack}
use rtp_http_flv.Publishers.{Publisher}
use rtp_http_flv.HttpFlv.Writer.{FlvWriter}
use rtp_http_flv.Cache.ArrayList.{ArrayList}
use rtp_http_flv.Cache.Window.{Slot}
use rtp_http_flv.Cache.FlvRecord.{FlvRecord}
use rtp_http_flv.Cache.Segments.{SegmentCache}

-- `MAX_UDP_CACHE_SIZE` of configure/config.go
abbrev pub max_udp_cache_size : ℕ
max_udp_cache_size = 1024 * 1024 * 50

-- The calls that leave the queue: `Net` is the state of everything behind them.
pub record Node : Type 1 where
  pub Net : Type 0
  -- `GetByQuic` of protocol/quic/quic_client.go; `none` for nil
  pub get_by_quic : ℕ → ℕ → Net → Run (Option RtpPack × Net)
  -- `UDPConn.SetReadBuffer`; false for an error
  pub set_read_buffer : ℕ → Net → Bool × Net
  -- `time.Now().UnixMilli()`
  pub now : Net → ℕ × Net
  -- `UpdatePublishers` of utils/util.go, whose result is not used here
  pub update_publishers : Net → Run Net
  -- `Parse` of livego and `Write` of protocol/hls/source.go, by the pointer to the source; false for an
  -- error
  pub hls_write : ℕ → Slice → Net → Run (Bool × Net)
  -- `WriteTagDirect` of utils/flv.go, by the pointer to the file; false for an error
  pub write_tag_direct : ℕ → Slice → Net → Bool × Net

-- The libraries, the other components and the configuration. A client in `FlvWriters` is a pointer.
pub record Deps : Type 1 where
  pub slots : ArrayList Slot
  pub clients : ArrayList (Option ℕ)
  pub node : Node
  pub protect : Bool

-- `Queue`, without its lock, its channels and its key; the source and the file are pointers. The counters of type int are numbers.
pub record Queue (Slots Clients : Type 0) : Type 0 where
  pub ssrc : ℕ
  pub first_seq : ℕ
  pub padding_window_size : ℕ
  pub queue : Slots
  pub flv_record : FlvRecord
  pub flv_writers : Clients
  pub hls_writer : Option ℕ
  pub flv_file : Option ℕ
  pub cache : SegmentCache
  pub acc_packets : ℕ
  pub acc_loss : ℕ
  pub acc_flv_tags : ℕ
  pub previous_lost_seq : ℕ
  pub start_time : ℕ
  pub delay : ℕ

-- A queue, what it shares with the node (`App`), the clients' writers by their pointers, and `Net`.
pub record State (Slots Clients Net : Type 0) : Type 0 where
  pub q : Queue Slots Clients
  pub udp_buffer_size : ℕ
  pub publishers : ℕ → Option Publisher
  pub heap : ℕ → FlvWriter
  pub net : Net

module _ (d : Deps) where
  abbrev pub Q : Type 0
  Q = Queue d.slots.Carrier d.clients.Carrier

  abbrev pub S : Type 0
  S = State d.slots.Carrier d.clients.Carrier d.node.Net
