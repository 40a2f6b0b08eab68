-- ===== src/Flv/Packet.antt =====
-- container/flv/av.go and demuxer.go: a packet is parsed from the bytes of a tag, and its header
-- is read from them.
use rtp_http_flv.Prelude.{
  ℕ, ◌+◌, ◌*◌, Bool, true, false, Option, none, some, ◌&&◌, ◌==◌, if◌then◌else◌, Slice, Run, done,
  ◌>>=◌, >>=-eq-done, ◌≡◌, arith, index, slice_from, tail_from,
}
use rtp_http_flv.Flv.Tag.{Tag, zero_tag, codec_id, video_h264, parse_media_tag_header}

abbrev pub tag_audio : ℕ
tag_audio = 8

abbrev pub tag_video : ℕ
tag_video = 9

abbrev pub metadata_amf0 : ℕ
metadata_amf0 = 18

-- `Packet`. The header, if it has been read, is always a `Tag`.
pub record Packet : Type 0 where
  pub is_audio : Bool
  pub is_video : Bool
  pub is_metadata : Bool
  pub time_stamp : ℕ
  pub stream_id : ℕ
  pub header : Option Tag
  pub payload : Slice

-- `&flv.Packet{}` has no data yet.
abbrev pub zero_packet : Slice → Packet
zero_packet b = record {
  is_audio = false;
  is_video = false;
  is_metadata = false;
  time_stamp = 0;
  stream_id = 0;
  header = none;
  payload = b;
}

-- The switch of `Parse` on the kind of the tag.
abbrev pub with_kind : Packet → ℕ → Packet
with_kind packet kind =
    if kind == metadata_amf0
    then record packet { is_metadata = true }
    else if kind == tag_audio
    then record packet { is_audio = true }
    else if kind == tag_video
    then record packet { is_video = true }
    else packet

-- `Parse`. The four bytes of the time stamp do not overlap: the sum is below 2^32.
unfoldable pub parse : Packet → Slice → Bool → Run Packet
parse packet b move_head = do
  kind ← index b.elems 0
  b7 ← index b.elems 7
  b4 ← index b.elems 4
  b5 ← index b.elems 5
  b6 ← index b.elems 6
  rest ← (if move_head then tail_from b 11 else done b)
  done (record (with_kind packet kind) {
    time_stamp = b7 * 16777216 + b4 * 65536 + b5 * 256 + b6;
    payload = rest;
  })

pub data DemuxError : Type 0 where
  invalid_header avc_end_seq : DemuxError

pub data Demuxed : Type 0 where
  ok : Packet → Demuxed
  err : DemuxError → Demuxed

abbrev attach : Packet → Option (ℕ × Tag) → Demuxed
attach p none = err invalid_header
attach p (some (n, tag)) = ok (record p { header = some tag })

-- `DemuxHeader`: the header is read behind the eleven bytes of the tag's own.
unfoldable pub demux_header : Packet → Run Demuxed
unfolding parse_media_tag_header
demux_header p = do
  body ← slice_from p.payload.elems 11
  parsed ← parse_media_tag_header zero_tag body p.is_video
  done (attach p parsed)

-- The end of `Demux`: an H.264 end of sequence is an error; else the data starts behind the header.
unfoldable pub strip_header : Packet → Option (ℕ × Tag) → Run Demuxed
unfolding codec_id
strip_header p none = done (err invalid_header)
strip_header p (some (n, tag)) = do
  end_of_sequence ←
      (if codec_id tag == video_h264
        then (do
          b0 ← index p.payload.elems 0
          b1 ← index p.payload.elems 1
          done (b0 == 23 && b1 == 2))
        else done false)
  if end_of_sequence then done (err avc_end_seq) else (do
    rest ← tail_from p.payload n
    done (ok (record p { header = some tag; payload = rest })))

unfoldable pub demux : Packet → Run Demuxed
unfolding parse_media_tag_header strip_header
demux p = do
  parsed ← parse_media_tag_header zero_tag p.payload.elems p.is_video
  strip_header p parsed

attach-ok :
    (p p' : Packet) (o : Option (ℕ × Tag))
    → attach p o ≡ ok p'
    → (h : Tag) × (p' ≡ record p { header = some h })
attach-ok p p' none e = ground arith
attach-ok p p' (some (n, tag)) e = (tag, ground arith)

-- The header that is read is attached, and nothing else of the packet changes.
pub demux_header-ok :
    (p p' : Packet)
    → demux_header p ≡ done (ok p')
    → (h : Tag) × (p' ≡ record p { header = some h })
unfolding demux_header
demux_header-ok p p' e =
    let (body, eb, e') = >>=-eq-done (slice_from p.payload.elems 11) _ e in
    let (parsed, ep, e'') = >>=-eq-done (parse_media_tag_header zero_tag body p.is_video) _ e' in
    attach-ok p p' parsed (ground arith)
