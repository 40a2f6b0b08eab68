-- ===== src/Hls/TsCache.antt =====
-- `TSCacheItem` of protocol/hls/cache.go and `TSItem` of item.go: the last segments of a stream, and
-- the play list that names them.
pub mod Recent
pub mod PlayLists
use rtp_http_flv.Prelude.{
  Text, Dict, text_eq, lookup, delete, put, ◌==◌, ℕ, zero, suc, ◌+◌, ◌/◌, Bool, true, false, List,
  [], ◌∷◌, ◌++◌, Option, none, some, ltb, if◌then◌else◌, length,
}

-- `TSItem`. Only segments of at least three seconds are made, so that a duration is not negative.
pub record TsItem : Type 0 where
  pub name : Text
  pub seq_num : ℕ
  pub duration : ℕ
  pub bytes : List ℕ

-- `NewTSItem`: the bytes are copied.
unfoldable pub new_ts_item : Text → ℕ → ℕ → List ℕ → TsItem
new_ts_item name duration seq_num b = record {
  name = name;
  seq_num = seq_num;
  duration = duration;
  bytes = b;
}

abbrev pub max_ts_cache_num : ℕ
max_ts_cache_num = 3

-- `TSCacheItem`: the keys in the order of their segments, and the segments by their keys.
pub record TsCacheItem : Type 0 where
  pub num : ℕ
  pub ll : List Text
  pub lm : Dict Text TsItem

unfoldable pub new_ts_cache_item : TsCacheItem
new_ts_cache_item = record { num = max_ts_cache_num; ll = []; lm = [] }

-- The oldest key and its segment are removed. (`Remove` of an empty list cannot happen.)
unfoldable pub evict : TsCacheItem → List Text → TsCacheItem
evict c [] = c
evict c (k ∷ ks) = record c { ll = ks; lm = delete k c.lm }

-- `SetItem`
unfoldable pub set_item : TsCacheItem → Text → TsItem → TsCacheItem
set_item c key item =
    let full = length c.ll == c.num in
    let c' = if full then evict c c.ll else c in
    record c' { lm = put key item c'.lm; ll = c'.ll ++ key ∷ [] }

-- `GetItem`: `none` for the error.
unfoldable pub get_item : TsCacheItem → Text → Option TsItem
get_item c key = lookup key c.lm

-- What the play list says: the target duration in seconds, the number of the first segment, and for
-- each segment its duration in milliseconds and its name.
pub record PlayList : Type 0 where
  pub target_duration : ℕ
  pub media_sequence : ℕ
  pub entries : List (ℕ × Text)

-- The variables of the loop of `GenM3U8PlayList`.
pub record Scan : Type 0 where
  pub seq : ℕ
  pub get_seq : Bool
  pub max_duration : ℕ
  pub body : List (ℕ × Text)

abbrev pub scan_item : Scan → Option TsItem → Scan
scan_item s none = s
scan_item s (some v) = record {
  seq = if s.get_seq then s.seq else v.seq_num;
  get_seq = true;
  max_duration = if ltb s.max_duration v.duration then v.duration else s.max_duration;
  body = s.body ++ (v.duration, v.name) ∷ [];
}

unfoldable pub scan : Dict Text TsItem → Scan → List Text → Scan
scan lm s [] = s
scan lm s (key ∷ keys) = scan lm (scan_item s (lookup key lm)) keys

-- `GenM3U8PlayList`, without the text around the values.
unfoldable pub gen_m3u8_play_list : TsCacheItem → PlayList
unfolding scan
gen_m3u8_play_list c =
    let s = scan c.lm (record { seq = 0; get_seq = false; max_duration = 0; body = [] }) c.ll in
    record { target_duration = s.max_duration / 1000 + 1; media_sequence = s.seq; entries = s.body }
