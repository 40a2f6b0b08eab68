-- ===== src/Quic/Request.antt =====
-- A request of protocol/quic over a connection that stands, and the packet that answers it.
use rtp_http_flv.Prelude.{
  ℕ, ◌+◌, ◌/◌, ◌%◌, ◌≡◌, Bool, true, List, [], ◌∷◌, ◌++◌, some, length, done,
}
use rtp_http_flv.Rtp.{RtpPack}
use rtp_http_flv.Rtp.Wire.{Packet, padding_bytes, extension_bytes}
use rtp_http_flv.Rtp.RoundTrip.{header}
use rtp_http_flv.HttpFlv.Writer.{put_i32_be}
use rtp_http_flv.Quic.{QuicLib}

module _ (lib : QuicLib) where
  open lib use {Net, Stream, read, write}

  -- What passes over the two streams of a connection: the stream's number in four bytes and the packet's
  -- in two go out; the length of the packet in two bytes, then the packet come back, each in a single
  -- read.
  pub record Exchange (i t : Stream) (ssrc seq : ℕ) (bytes : List ℕ) (net net' : Net) : Type 0 where
    pub net1 : Net
    pub net2 : Net
    pub net3 : Net
    pub went : Bool
    pub named : write i (put_i32_be ssrc) net ≡ (true, net1)
    pub asked : write i ((seq / 256) ∷ (seq % 256) ∷ []) net1 ≡ (went, net2)
    pub sized : read i 2 net2 ≡ done (some ((length bytes / 256) ∷ (length bytes % 256) ∷ []), net3)
    pub sent : read t (length bytes) net3 ≡ done (some bytes, net')

  -- The packet as the parser reads it.
  abbrev pub parsed : Packet → RtpPack
  parsed p = record (header p) {
    payload = record { elems = p.payload; spare = padding_bytes p.padding ++ [] };
    payload_offset = 12 + length p.csrcs + length (extension_bytes p.extension);
  }
