-- ===== src/App/Delivery.antt =====
-- From the socket to the queue: `receiveRtp` and `handleNewPacket` of main.go on a packet of RFC 3550.
use rtp_http_flv.Prelude.{
  Text, ℕ, zero, suc, ◌+◌, ◌-◌, ◌≤◌, ◌≡◌, refl, ◌∙◌, ap, false, List, [], ◌∷◌, ◌++◌, Option, none,
  some, length, replicate, take, arith, lookup, put, nat_eq, Run, done, ◌>>=◌, Chan, send, ◌<◌,
}
use rtp_http_flv.Rtp.{RtpPack}
use rtp_http_flv.Rtp.Wire.{Packet, encode, extension_bytes, padding_bytes, IsPacket}
use rtp_http_flv.Rtp.RoundTrip.{header, parse-encode}
use rtp_http_flv.Cache.Queue.{Deps}
use rtp_http_flv.App.{Outside, Config, Stream, App}
use rtp_http_flv.App.Streams.{send_packet, handle_new_packet}
use rtp_http_flv.App.Receive.{Link, buffer_len, buffer, handle_datagram, receive_rtp}

-- The packet as the parser returns it from the buffer.
abbrev pub received : Packet → RtpPack
received p = record (header p) {
  payload = record {
    elems = p.payload;
    spare = padding_bytes p.padding ++ replicate (buffer_len - length (encode p)) 0;
  };
  payload_offset = 12 + length p.csrcs + length (extension_bytes p.extension);
}

take_short : (n : ℕ) (xs : List ℕ) → length xs ≤ n → take n xs ≡ xs
take_short zero [] h = refl
take_short (suc n) [] h = refl
take_short zero (x ∷ xs) h = absurd (omega arith)
take_short (suc n) (x ∷ xs) h = ap (λ t. x ∷ t) (take_short n xs (omega arith))

-- The channel with one value more.
abbrev pub sent {ℓ} : {A : Type ℓ} → Chan A → A → Chan A
sent c a = record c { pending = c.pending ++ a ∷ [] }

module _ (d : Deps) (out : Outside d.node.Net) (conf : Config) where
  send_packet_known :
      (app : App d) (rp : RtpPack) (st : Stream d)
      → lookup rp.ssrc app.rtp_queue_map ≡ some st
      → st.in_chan.is_closed ≡ false
      → length st.in_chan.pending < st.in_chan.capacity
      → handle_new_packet d out conf app rp
        ≡ done (record app {
          rtp_queue_map =
              put rp.ssrc (record st { in_chan = sent st.in_chan rp }) app.rtp_queue_map;
        })
  unfolding handle_new_packet send_packet
  send_packet_known app rp st found o r =
      let goes : send st.in_chan rp ≡ done (sent st.in_chan rp) = ground (arith, o, r) in
      ground (arith, found, goes)

  -- A packet of RFC 3550 that fits the buffer of 1300 bytes, of a stream whose channel is open and not
  -- full, behind the first datagram of the node and not counted as lost, ends up in that channel, as the
  -- last one, with the fields and the payload that were sent; nothing else changes.
  pub receive_rtp-encode :
      (link : Link) (app : App d) (sender : Text) (p : Packet) (st : Stream d)
      → IsPacket p
      → length (encode p) ≤ buffer_len
      → link.first_pkt ≡ false
      → lookup p.ssrc app.rtp_queue_map ≡ some st
      → st.in_chan.is_closed ≡ false
      → length st.in_chan.pending < st.in_chan.capacity
      → receive_rtp d out conf false sender (encode p) (link, app)
        ≡ done (
          link,
          record app {
            rtp_queue_map =
                put p.ssrc (record st { in_chan = sent st.in_chan (received p) }) app.rtp_queue_map;
          },
        )
  unfolding receive_rtp
  receive_rtp-encode link app sender p st v short later found o room =
      let whole : buffer (encode p)
          ≡ record { elems = encode p; spare = replicate (buffer_len - length (encode p)) 0 } =
        rw (take_short buffer_len (encode p) short) refl in
      let parsed = parse-encode p (replicate (buffer_len - length (encode p)) 0) v in
      let app' : App d = record app {
        rtp_queue_map =
            put p.ssrc (record st { in_chan = sent st.in_chan (received p) }) app.rtp_queue_map;
      } in
      let handled : handle_datagram d out conf false (buffer (encode p)) app ≡ done app' =
        unfold handle_datagram in
        ap (λ b. handle_datagram d out conf false b app) whole
        ∙ ap
            (λ (m : Run (Option RtpPack)).
              m >>= λ rp. elim rp [ none ↦ done app | some r ↦ handle_new_packet d out conf app r ])
            parsed
        ∙ send_packet_known app (received p) st found o room in
      ground (arith, later, handled)
