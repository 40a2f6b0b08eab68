-- ===== src/App/Alive.antt =====
-- `CheckAlive` of cache/App.go: streams that the cloud node does not publish any more are closed.
use rtp_http_flv.Prelude.{
  ℕ, Bool, List, [], ◌∷◌, none, some, if◌then◌else◌, lookup, delete, nat_eq, text_eq, Run, done,
  ◌>>=◌,
}
use rtp_http_flv.Cache.Queue.{Deps}
use rtp_http_flv.App.{Outside, Config, Stream, App, publisher_of}
use rtp_http_flv.App.Streams.{refresh}

module _ (d : Deps) (out : Outside d.node.Net) (conf : Config) where
  -- `Close` of a queue that leaves the map: its file is closed. (Its number becomes 0, for the
  -- goroutine that prints its state.)
  unfoldable pub close_queue : Stream d → App d → App d
  close_queue stream app = elim stream.q.flv_file [
    | none ↦ app
    | some f ↦ record app { net = out.close_file f app.net }
  ]

  -- One stream of the map. A number that has left the map in the meantime is not visited.
  unfoldable pub check_stream : ℕ → App d → Run (App d)
  unfolding close_queue
  check_stream ssrc app = elim (publisher_of ssrc app.publishers) [
    | some info ↦ done app
    | none ↦ elim (lookup ssrc app.rtp_queue_map) [
      | none ↦ done app
      | some stream ↦ (do
        let app1 : App d = record app {
          key_ssrc_map = delete stream.channel_key app.key_ssrc_map;
          rtp_queue_map = delete stream.q.ssrc app.rtp_queue_map;
        }
        let app2 = close_queue stream app1
        net' ← out.close_quic app2.net
        done (record app2 { net = net' }))
    ]
  ]

  -- The streams in the order in which Go ranges over the map.
  unfoldable pub check_streams : List ℕ → App d → Run (App d)
  check_streams [] app = done app
  check_streams (ssrc ∷ order) app = check_stream ssrc app >>= check_streams order

  -- A round of `CheckAlive`, where `init` is `configure.Conf.INIT`.
  unfoldable pub check_alive : Bool → List ℕ → App d → Run (App d)
  check_alive init order app =
      if init then refresh d out conf app >>= check_streams order else done app
