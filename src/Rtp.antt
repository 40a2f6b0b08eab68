-- ===== src/Rtp.antt =====
-- RTP packets: the packet of container/rtp/rtp.go and the parser of parser/rtp/rtp.go.
pub mod Parse
pub mod Bounds
pub mod Wire
pub mod RoundTrip
mod Tests
use rtp_http_flv.Prelude.{
  ℕ, ◌+◌, ◌-◌, ◌*◌, ◌/◌, ◌%◌, Bool, List, [], Option, Slice, length, if◌then◌else◌,
}

-- `RtpPack` of container/rtp/rtp.go. The payload is a part of the buffer that was received.
pub record RtpPack : Type 0 where
  pub version : ℕ
  pub padding : Bool
  pub extension : Bool
  pub csrc_cnt : ℕ
  pub marker : ℕ
  pub payload_type : ℕ
  pub sequence_number : ℕ
  pub timestamp : ℕ
  pub ssrc : ℕ
  pub payload : Slice
  pub payload_offset : ℕ

abbrev pub rtp_fixed_header_length : ℕ
rtp_fixed_header_length = 12

-- `RealData`: no payload type is implemented, and every branch returns the empty buffer.
unfoldable pub real_data : RtpPack → List ℕ
real_data rtp = []
