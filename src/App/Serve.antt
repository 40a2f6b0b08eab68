-- ===== src/App/Serve.antt =====
-- A round of the goroutine of a queue, `RecvPacket` of cache/RtpQueue.go, on the state of the node.
use rtp_http_flv.Prelude.{
  ℕ, Option, none, some, lookup, put, nat_eq, Run, done, ◌>>=◌, deref, recv, Chan,
}
use rtp_http_flv.Cache.Queue.{Deps, S}
use rtp_http_flv.Cache.Queue.Receive.{recv_packet}
use rtp_http_flv.App.{Stream, App, publisher_of}
use rtp_http_flv.Rtp.{RtpPack}

module _ (d : Deps) where
  -- What the goroutine works on: its queue, and what it shares with the rest of the node.
  abbrev pub view : Stream d → App d → S d
  view stream app = record {
    q = stream.q;
    udp_buffer_size = app.udp_buffer_size;
    publishers = λ ssrc. publisher_of ssrc app.publishers;
    heap = app.heap;
    net = app.net;
  }

  -- What it has written, with what is left in its channel.
  abbrev pub write_back : ℕ → Stream d → Chan RtpPack → S d → App d → App d
  write_back ssrc stream chan s app = record app {
    rtp_queue_map = put ssrc (record stream { in_chan = chan; q = s.q }) app.rtp_queue_map;
    udp_buffer_size = s.udp_buffer_size;
    heap = s.heap;
    net = s.net;
  }

  -- The packet, if there is one.
  abbrev pub serve_packet : ℕ → Option RtpPack → S d → Run (S d)
  serve_packet fuel none s = done s
  serve_packet fuel (some rp) s = recv_packet d fuel s (some rp)

  -- One round: it waits while its channel is empty.
  unfoldable pub serve : ℕ → ℕ → App d → Run (App d)
  serve fuel ssrc app = do
    stream ← deref (lookup ssrc app.rtp_queue_map)
    (rp, chan) ← recv stream.in_chan
    s ← serve_packet fuel rp (view stream app)
    done (write_back ssrc stream chan s app)
