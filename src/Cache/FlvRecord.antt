-- ===== src/Cache/FlvRecord.antt =====
-- `FlvRecord` of cache/FlvRecord.go: the tag that is being put together from the payloads of RTP
-- packets.
pub mod Assemble
pub mod Rebuild
pub mod Overflow
mod Tests
use rtp_http_flv.Prelude.{ℕ, Bool, true, false, Option, none, some, Slice}

pub record FlvRecord : Type 0 where
  pub flv_tag : Option Slice
  pub tag_size : ℕ
  pub pos : ℕ
  pub jump_to_next_head : Bool

unfoldable pub new_flv_record : FlvRecord
new_flv_record = record { flv_tag = none; tag_size = 0; pos = 0; jump_to_next_head = false }

-- `Reset` leaves `jumpToNextHead` as it is.
unfoldable pub reset : FlvRecord → FlvRecord
reset flv_record = record flv_record { flv_tag = none; tag_size = 0; pos = 0 }
