-- ===== src/Hls/Status.antt =====
-- `status` of protocol/hls/status.go: the time stamps of the segment that is being made.
use rtp_http_flv.Prelude.{ℕ, ◌+◌, ◌-◌, Bool, true, false, if◌then◌else◌}

-- `status`; its two times are set and never read.
pub record Status : Type 0 where
  pub has_video : Bool
  pub seq_id : ℕ
  pub has_set_first_ts : Bool
  pub first_timestamp : ℕ
  pub last_timestamp : ℕ

unfoldable pub new_status : Status
new_status = record {
  has_video = false;
  seq_id = 0;
  has_set_first_ts = false;
  first_timestamp = 0;
  last_timestamp = 0;
}

unfoldable pub update : Status → Bool → ℕ → Status
update t is_video timestamp = record {
  has_video = if is_video then true else t.has_video;
  seq_id = t.seq_id;
  has_set_first_ts = true;
  first_timestamp = if t.has_set_first_ts then t.first_timestamp else timestamp;
  last_timestamp = timestamp;
}

unfoldable pub reset_and_new : Status → Status
reset_and_new t = record t { seq_id = t.seq_id + 1; has_video = false; has_set_first_ts = false }

-- `durationMs`, with 0 for a negative number: it is only compared with 3000, and used behind that.
unfoldable pub duration_ms : Status → ℕ
duration_ms t = t.last_timestamp - t.first_timestamp
