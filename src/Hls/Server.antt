-- ===== src/Hls/Server.antt =====
-- `Server` of protocol/hls/hls.go: the sources by their keys, and the requests of players.
pub mod Paths
pub mod Follows
pub mod Reach
pub mod Dropped
mod Tests
use rtp_http_flv.Prelude.{
  ℕ, ◌+◌, Bool, true, false, List, [], ◌∷◌, ◌++◌, Option, none, some, ◌==◌, if◌then◌else◌, Text,
  codes, text_beq, Dict, lookup, delete, put, text_eq, slash, base, ext, trim_left, split_3, until,
  get_elem?, Run, done, ◌>>=◌,
}
use rtp_http_flv.Hls.Livego.{Livego, AvPacket}
use rtp_http_flv.Hls.Source.{Source, new_source}
use rtp_http_flv.Hls.TsCache.{TsItem, TsCacheItem, PlayList, get_item, gen_m3u8_play_list}

-- What a request gets: the fixed text, an error (403 or 400), a play list, the bytes of a segment, or an
-- empty answer.
pub data Reply : Type 0 where
  crossdomain forbidden bad_request empty : Reply
  play_list : PlayList → Reply
  segment : List ℕ → Reply

abbrev pub m3u8 : Text
m3u8 = codes ".m3u8"

abbrev pub ts : Text
ts = codes ".ts"

abbrev pub crossdomain_xml : Text
crossdomain_xml = codes "crossdomain.xml"

-- `parseM3u8`, for a path with this extension
unfoldable pub parse_m3u8 : Text → Text
parse_m3u8 path = until m3u8 (trim_left slash path)

-- `parseTs`; the key is empty with the error, which `handle` does not look at.
abbrev key_of_parts : List Text → Text
key_of_parts (a ∷ b ∷ c ∷ []) = a ++ slash ∷ b
key_of_parts _ = []

unfoldable pub parse_ts : Text → Text
parse_ts path = key_of_parts (split_3 slash (trim_left slash path))

module _ (live : Livego) where
  -- `conns`, with the sources by their pointers, of which `next` is the first free one: a queue keeps
  -- its pointer also when the key has been deleted.
  pub record Server : Type 0 where
    pub conns : Dict Text ℕ
    pub heap : ℕ → Source live
    pub next : ℕ

  -- A pointer is written through.
  abbrev pub store_source : (ℕ → Source live) → ℕ → Source live → ℕ → Source live
  store_source heap a s b = if a == b then s else heap b

  -- `GetWriter`, with the server running.
  unfoldable pub get_writer : Text → Server → ℕ × Server
  get_writer key srv = elim (lookup key srv.conns) [
    | some a ↦ (a, srv)
    | none ↦ (
      srv.next,
      record {
        conns = put key srv.next srv.conns;
        heap = store_source srv.heap srv.next (new_source live key);
        next = srv.next + 1;
      },
    )
  ]

  -- `getConn`
  unfoldable pub get_conn : Server → Text → Option (Source live)
  get_conn srv key = elim (lookup key srv.conns) [ none ↦ none | some a ↦ some (srv.heap a) ]

  -- One key of a round of `checkStop` at a time. A key that has left the map is not visited.
  unfoldable pub check_conn : ℕ → Text → Server → Server
  check_conn now key srv = elim (lookup key srv.conns) [
    | none ↦ srv
    | some a ↦
        if live.alive now (srv.heap a).base
        then srv
        else record srv { conns = delete key srv.conns }
  ]

  -- A round of `checkStop`, over the keys in the order in which `Range` calls the function.
  unfoldable pub check_stop : ℕ → List Text → Server → Server
  check_stop now [] srv = srv
  check_stop now (key ∷ keys) srv = check_stop now keys (check_conn now key srv)

  -- The requests for a play list and for a segment.
  unfoldable pub handle_m3u8 : Server → Text → Reply
  handle_m3u8 srv url = elim (get_conn srv (parse_m3u8 url)) [
    | none ↦ forbidden
    | some s ↦ play_list (gen_m3u8_play_list s.ts_cache)
  ]

  unfoldable pub handle_ts : Server → Text → Reply
  handle_ts srv url = elim (get_conn srv (parse_ts url)) [
    | none ↦ forbidden
    | some s ↦ (elim (get_item s.ts_cache url) [
      | none ↦ bad_request
      | some item ↦ segment item.bytes
    ])
  ]

  -- `handle`, on the path of the URL
  unfoldable pub handle : Server → Text → Reply
  unfolding handle_m3u8 handle_ts
  handle srv url =
      if text_beq (base url) crossdomain_xml
      then crossdomain
      else if text_beq (ext url) m3u8
      then handle_m3u8 srv url
      else if text_beq (ext url) ts
      then handle_ts srv url
      else empty
