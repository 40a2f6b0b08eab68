-- ===== src/App/Streams.antt =====
-- `main`, `handleNewStream` and `handleNewPacket` of main.go, with `NewQueue` of cache/RtpQueue.go.
use rtp_http_flv.Prelude.{
  slash, ◌*◌, ℕ, Option, [], ◌∷◌, ◌++◌, none, some, if◌then◌else◌, Text, lookup, put, nat_eq,
  text_eq, split_2, Run, done, ◌>>=◌, deref, get_elem?, make_chan, send,
}
use rtp_http_flv.Rtp.{RtpPack}
use rtp_http_flv.Publishers.{update_publishers}
use rtp_http_flv.HttpFlv.Writer.{fresh}
use rtp_http_flv.Cache.FlvRecord.{new_flv_record}
use rtp_http_flv.Cache.Segments.{new_cache}
use rtp_http_flv.Cache.Queue.{Deps, Q}
use rtp_http_flv.App.{Outside, Config, Stream, App, publisher_of}

-- The tables that `main` makes. No writer is allocated yet.
unfoldable pub new_app : (d : Deps) → d.node.Net → App d
new_app d net = record {
  rtp_queue_map = [];
  publishers = some [];
  key_ssrc_map = [];
  udp_buffer_size = 100 * 1024;
  flv_files = [];
  heap = λ a. fresh;
  next = 0;
  net = net;
}

module _ (d : Deps) (out : Outside d.node.Net) (conf : Config) where
  -- The call of `NewQueue` to the HLS server.
  unfoldable pub open_hls : Text → App d → Option ℕ × App d
  open_hls key app =
      if conf.enable_hls
      then (let (a, net') = out.get_writer key app.net in (some a, record app { net = net' }))
      else (none, app)

  -- The fields that `NewQueue` sets.
  unfoldable pub new_queue : ℕ → Option ℕ → Option ℕ → Q d
  new_queue ssrc flv_file hls_writer = record {
    ssrc = ssrc;
    first_seq = 0;
    padding_window_size = conf.padding_window_size;
    queue = d.slots.new;
    flv_record = new_flv_record;
    flv_writers = d.clients.new;
    hls_writer = hls_writer;
    flv_file = flv_file;
    cache = new_cache;
    acc_packets = 0;
    acc_loss = 0;
    acc_flv_tags = 0;
    previous_lost_seq = 0;
    start_time = 0;
    delay = 0;
  }

  unfoldable pub new_stream : ℕ → Text → Option ℕ → Option ℕ → Stream d
  unfolding new_queue
  new_stream ssrc key flv_file hls_writer = record {
    channel_key = key;
    in_chan = make_chan conf.chan_size;
    q = new_queue ssrc flv_file hls_writer;
  }

  -- `app.Publishers = utils.UpdatePublishers()`
  unfoldable pub refresh : App d → Run (App d)
  refresh app = do
    (answer, net') ← out.fetch app.net
    pubs ← update_publishers out.floats answer
    done (record app { publishers = pubs; net = net' })

  -- The record file, if there is one to be, which `FlvFiles` keeps also if it could not be created.
  unfoldable pub open_record : Text → App d → Option ℕ × App d
  open_record channel app =
      if conf.enable_record
      then (let (file, net') = out.create_flv_file channel app.net in
          (file, record app { flv_files = app.flv_files ++ file ∷ []; net = net' }))
      else (none, app)

  -- `handleNewStream`
  unfoldable pub handle_new_stream : App d → ℕ → Run (App d)
  unfolding refresh open_record open_hls new_stream
  handle_new_stream app ssrc = do
    app1 ← refresh app
    p ← deref (publisher_of ssrc app1.publishers)
    let app2 : App d = record app1 { key_ssrc_map = put p.key ssrc app1.key_ssrc_map }
    channel ← deref (get_elem? (split_2 slash p.key) 1)
    let (flv_file, app3) = open_record channel app2
    let (hls_writer, app4) = open_hls p.key app3
    done (record app4 {
      rtp_queue_map = put ssrc (new_stream ssrc p.key flv_file hls_writer) app4.rtp_queue_map;
    })

  -- `rtpQueue.InChan <- rp`
  unfoldable pub send_packet : App d → RtpPack → Run (App d)
  send_packet app rp = do
    stream ← deref (lookup rp.ssrc app.rtp_queue_map)
    chan ← send stream.in_chan rp
    done (record app {
      rtp_queue_map = put rp.ssrc (record stream { in_chan = chan }) app.rtp_queue_map;
    })

  -- `handleNewPacket`
  unfoldable pub handle_new_packet : App d → RtpPack → Run (App d)
  unfolding send_packet
  handle_new_packet app rp = do
    app1 ← (elim (lookup rp.ssrc app.rtp_queue_map) [
      | some stream ↦ done app
      | none ↦ handle_new_stream app rp.ssrc
    ])
    send_packet app1 rp
