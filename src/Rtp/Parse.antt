-- ===== src/Rtp/Parse.antt =====
-- `Parse` of parser/rtp/rtp.go, in the order of the source: the fixed header, then the identifiers
-- of contributing sources, the header extension, the padding, and the payload between them.
use rtp_http_flv.Prelude.{
  ℕ, ◌+◌, ◌-◌, ◌*◌, ◌/◌, ◌%◌, Bool, List, [], Option, none, some, ◌&&◌, ltb, leb, ◌==◌,
  if◌then◌else◌, length, Run, done, ◌>>=◌, index, uint16, uint32, slice_from, Slice, reslice,
}
use rtp_http_flv.Rtp.{RtpPack, rtp_fixed_header_length}

-- The end of the contributing sources, four bytes each, if they all fit.
unfoldable pub skip_csrc : ℕ → ℕ → ℕ → ℕ
skip_csrc offset size cnt = if leb (4 * cnt) (size - offset) then offset + 4 * cnt else offset

-- The end of the header extension: four bytes, and as many words as they say, if these fit.
unfoldable pub skip_extension : List ℕ → Bool → ℕ → Run ℕ
skip_extension b extension offset =
    if extension && leb 4 (length b - offset)
    then (do
      len_b ← slice_from b (offset + 2)
      words ← uint16 len_b
      let offset' = offset + 4
      done (if leb (4 * words) (length b - offset') then offset' + 4 * words else offset'))
    else done offset

-- The end of the payload: the last byte counts the bytes of padding, if so many are there.
unfoldable pub strip_padding : List ℕ → Bool → ℕ → Run ℕ
strip_padding b padding offset =
    if padding && ltb 0 (length b - offset)
    then (do
      padding_len ← index b (length b - 1)
      done (if leb padding_len (length b - offset) then length b - padding_len else length b))
    else done (length b)

-- The fields of the fixed header.
unfoldable pub parse_header : List ℕ → Run RtpPack
parse_header b = do
  first_byte ← index b 0
  second_byte ← index b 1
  seq_b ← slice_from b 2
  seq ← uint16 seq_b
  time_b ← slice_from b 4
  time ← uint32 time_b
  ssrc_b ← slice_from b 8
  ssrc ← uint32 ssrc_b
  done (record {
    version = first_byte / 64;
    padding = first_byte / 32 % 2 == 1;
    extension = first_byte / 16 % 2 == 1;
    csrc_cnt = first_byte % 16;
    marker = second_byte / 128;
    payload_type = second_byte % 128;
    sequence_number = seq;
    timestamp = time;
    ssrc = ssrc;
    payload = record { elems = []; spare = [] };
    payload_offset = 0;
  })

-- The payload of a packet whose header is known, from its offset on.
unfoldable pub parse_payload : Slice → RtpPack → ℕ → Run (Option RtpPack)
parse_payload s pack offset = do
  stop ← strip_padding s.elems pack.padding offset
  payload ← reslice s offset stop
  done (
      if ltb (stop - offset) 1
      then none
      else some (record pack { payload = payload; payload_offset = offset }))

unfoldable pub parse : Slice → Run (Option RtpPack)
unfolding skip_csrc skip_extension strip_padding parse_header parse_payload
parse s = if ltb (length s.elems) rtp_fixed_header_length then done none else do
  pack ← parse_header s.elems
  let offset = skip_csrc rtp_fixed_header_length (length s.elems) pack.csrc_cnt
  offset' ← skip_extension s.elems pack.extension offset
  parse_payload s pack offset'
