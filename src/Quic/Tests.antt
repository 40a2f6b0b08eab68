-- ===== src/Quic/Tests.antt =====
-- A cloud node that has one packet.
use rtp_http_flv.Prelude.{
  ℕ, zero, suc, ◌<◌, ◌≡◌, refl, subst, false, true, List, [], ◌∷◌, Option, none, some, All, Run,
  done, arith,
}
use rtp_http_flv.Rtp.{RtpPack}
use rtp_http_flv.Quic.{QuicLib, QuicState, get_by_quic}
use rtp_http_flv.Rtp.Wire.{Packet}

-- The length on the first stream, the packet on the second.
abbrev answer : ℕ → List ℕ
answer zero = 0 ∷ 13 ∷ []
answer (suc s) = 128 ∷ 96 ∷ 255 ∷ 255 ∷ 0 ∷ 0 ∷ 0 ∷ 0 ∷ 0 ∷ 0 ∷ 0 ∷ 7 ∷ 9 ∷ []

answer-bytes : (s : ℕ) → All (λ x. x < 256) (answer s)
answer-bytes zero = omega arith
answer-bytes (suc s) = omega arith

answered :
    (s net net' : ℕ) (b : List ℕ)
    → ◌≡◌ {A = Run (Option (List ℕ) × ℕ)} (done (some (answer s), net)) (done (some b, net'))
    → All (λ x. x < 256) b
answered s net net' b h =
    let same : answer s ≡ b = ground arith in subst (All (λ x. x < 256)) same (answer-bytes s)

abbrev cloud : QuicLib
cloud = record {
  Net = ℕ;
  Connection = ℕ;
  Stream = ℕ;
  dial_addr = λ net. (some 0, net);
  open_stream = λ c net. (some 0, net);
  accept_stream = λ c net. done (some 1, net);
  read = λ s n net. done (some (answer s), net);
  write = λ s b net. (true, net);
  close = λ s net. (true, net);
  read_bytes = λ s n net net' b h. answered s net net' b h;
}

abbrev connected : QuicState cloud
connected = record {
  quic_conn = some (record { connection = 0; info_stream = some 0; data_stream = some 1 });
  net = 0;
}

abbrev packet : RtpPack
packet = record {
  version = 2;
  padding = false;
  extension = false;
  csrc_cnt = 0;
  marker = 0;
  payload_type = 96;
  sequence_number = 65535;
  timestamp = 0;
  ssrc = 7;
  payload = record { elems = 9 ∷ []; spare = [] };
  payload_offset = 12;
}

requested :
    get_by_quic cloud false 7 65535 (record { quic_conn = none; net = 0 })
    ≡ done (some packet, connected)
unfolding get_by_quic rtp_http_flv.Quic.new_conn rtp_http_flv.Quic.init_quic
    rtp_http_flv.Quic.write_seq rtp_http_flv.Quic.write_ssrc rtp_http_flv.Quic.accept_data
    rtp_http_flv.Quic.read_len rtp_http_flv.Quic.open_data rtp_http_flv.Quic.read_body
    rtp_http_flv.Quic.read_rtp rtp_http_flv.Quic.name_stream
requested = refl

-- The same packet, as it was sent.
abbrev sent : Packet
sent = record {
  version = 2;
  marker = 0;
  payload_type = 96;
  sequence_number = 65535;
  timestamp = 0;
  ssrc = 7;
  csrc_cnt = 0;
  csrcs = [];
  extension = none;
  payload = 9 ∷ [];
  padding = 0;
}
