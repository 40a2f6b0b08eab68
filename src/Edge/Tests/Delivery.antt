-- ===== src/Edge/Tests/Delivery.antt =====
-- A tag that a stream records with an open source and a file, and one with a source that has ended.
use rtp_http_flv.Prelude.{
  ◌≡◌, refl, true, false, [], ◌∷◌, ◌++◌, none, some, arith, nat_eq, text_eq, Run, done, panics,
  exact, Slice,
}
use rtp_http_flv.Recording.{OsFile}
use rtp_http_flv.Hls.Livego.{AvPacket}
use rtp_http_flv.Hls.Source.{Source, new_source}
use rtp_http_flv.Hls.Server.{check_stop}
use rtp_http_flv.HttpFlv.Writer.Stream.{frame}
use rtp_http_flv.Cache.ArrayList.{as_list}
use rtp_http_flv.Cache.Window.{Slot}
use rtp_http_flv.Cache.Queue.{S}
use rtp_http_flv.Cache.Queue.Extract.{record_tag}
use rtp_http_flv.App.Streams.{new_app, new_stream}
use rtp_http_flv.App.Serve.{view}
use rtp_http_flv.Edge.{System, Settings, World, outside}
use rtp_http_flv.Edge.Delivery.{record_tag_delivers}
use rtp_http_flv.Edge.Rounds.{Running, here, next, checks_stop}
use rtp_http_flv.Edge.Ended.{HasEnded, closed_source_panics}
use rtp_http_flv.Edge.Tests.Libraries.{
  movie, copying, av_packet, system, settings, config, D, quiet_world,
}

-- A stream with a source and a file, and a tag that it records.
abbrev ready : S D
ready =
    view D (new_stream D (outside system settings) config 7 movie (some 0) (some 0))
      (new_app D quiet_world)

abbrev tag : Slice
tag = exact (9 ∷ 0 ∷ 0 ∷ 1 ∷ 0 ∷ 0 ∷ 0 ∷ 0 ∷ 0 ∷ 0 ∷ 0 ∷ 23 ∷ [])

abbrev state_of : Run (S D) → S D
state_of (done s) = s
state_of _ = ready

abbrev after_tag : S D
after_tag = state_of (record_tag D ready tag)

records_tag : record_tag D ready tag ≡ done after_tag
unfolding record_tag new_stream rtp_http_flv.Edge.hls_write rtp_http_flv.Hls.Source.write new_app
    new_source rtp_http_flv.Edge.write_file rtp_http_flv.Recording.write_tag_direct
records_tag = refl

record_tag_delivers_example :
    ((ready.net.server.heap 0).closed ≡ false)
    × ((after_tag.net.server.heap 0).packet_queue.pending
        ≡ (ready.net.server.heap 0).packet_queue.pending ++ av_packet tag ∷ [])
    × (after_tag.net.files 0 ≡ ready.net.files 0 ++ frame tag)
unfolding new_stream
record_tag_delivers_example =
    record_tag_delivers system settings (as_list Slot) (as_list _) ready after_tag tag 0 0
      (av_packet tag) refl refl refl records_tag

-- A node whose source has closed, as after a failure of the demuxer, and `checkStop` a while later.
abbrev ended : Running system settings (as_list Slot) (as_list _) config
ended = (
  record { first_pkt = false; cloud_host = []; init = false; quic_port = none; api_port = none },
  new_app D (record quiet_world {
    server = record {
      conns = (movie, 0) ∷ [];
      heap = λ a. record (new_source copying movie) { closed = true };
      next = 1;
    };
  }),
)

abbrev checked : Running system settings (as_list Slot) (as_list _) config
checked = (
  ended.0,
  record ended.1 {
    net = record ended.1.net { server = check_stop copying 100 (movie ∷ []) ended.1.net.server };
  },
)

has_ended : HasEnded system settings (as_list Slot) (as_list _) config 0 ended.1.net
unfolding new_app new_source
has_ended = (omega arith, refl)

closed_source_panics_example :
    ((checked.1.net.server.heap 0).closed ≡ true)
    × ((t : S D) (tag : Slice) (p : AvPacket)
        → t.net ≡ checked.1.net
        → t.q.hls_writer ≡ some 0
        → done (av_packet tag) ≡ done p
        → record_tag D t tag ≡ panics)
closed_source_panics_example =
    closed_source_panics system settings (as_list Slot) (as_list _) config 0 ended checked has_ended
      (next here (checks_stop 100 (movie ∷ []) refl))
