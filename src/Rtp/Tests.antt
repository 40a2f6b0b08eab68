-- ===== src/Rtp/Tests.antt =====
-- A packet with every optional part, and what the parser makes of it.
use rtp_http_flv.Prelude.{◌≡◌, refl, [], ◌∷◌, Option, some, WhenSome, done, arith}
use rtp_http_flv.Rtp.{RtpPack}
use rtp_http_flv.Rtp.Parse.{parse}
use rtp_http_flv.Rtp.Bounds.{Carries, parse_total}
use rtp_http_flv.Rtp.Wire.{Packet, encode, IsPacket}
use rtp_http_flv.Rtp.RoundTrip.{header, parse-encode}

-- One contributing source, an extension of one word, and two bytes of padding.
abbrev packet : Packet
packet = record {
  version = 2;
  marker = 1;
  payload_type = 96;
  sequence_number = 65535;
  timestamp = 4000000000;
  ssrc = 7;
  csrc_cnt = 1;
  csrcs = 1 ∷ 2 ∷ 3 ∷ 4 ∷ [];
  extension =
      some (record { profile_hi = 190; profile_lo = 222; words = 1; body = 5 ∷ 6 ∷ 7 ∷ 8 ∷ [] });
  payload = 9 ∷ 0 ∷ 1 ∷ [];
  padding = 2;
}

packet-IsPacket : IsPacket packet
packet-IsPacket = record {
  version = omega arith;
  marker = omega arith;
  payload_type = omega arith;
  sequence_number = omega arith;
  timestamp = omega arith;
  ssrc = omega arith;
  csrc_cnt = omega arith;
  csrcs = refl;
  extension = (omega arith, refl);
  payload = omega arith;
  padding = omega arith;
}

parse-encode_example :
    parse (record { elems = encode packet; spare = 0 ∷ [] })
    ≡ done (
        some (record (header packet) {
          payload = record { elems = 9 ∷ 0 ∷ 1 ∷ []; spare = 0 ∷ 2 ∷ 0 ∷ [] };
          payload_offset = 24;
        }))
parse-encode_example = parse-encode packet (0 ∷ []) packet-IsPacket

parse_total_example :
    (r : Option RtpPack) × (parse (record { elems = 191 ∷ 1 ∷ 2 ∷ []; spare = [] }) ≡ done r)
    × WhenSome (Carries (191 ∷ 1 ∷ 2 ∷ [])) r
parse_total_example = parse_total (record { elems = 191 ∷ 1 ∷ 2 ∷ []; spare = [] })
