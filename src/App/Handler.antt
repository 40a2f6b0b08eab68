-- ===== src/App/Handler.antt =====
-- The HTTP handlers: `MyHttpHandler` of main.go, and `handleConn` and `handleTime` of
-- protocol/httpflv/server.go.
use rtp_http_flv.Prelude.{
  slash, dot, ℕ, ◌+◌, Bool, false, not, List, Option, none, some, ◌==◌, if◌then◌else◌, Text, codes,
  text_beq, Dict, lookup, put, nat_eq, text_eq, split_2, trim_left, trim_suffix, from_last, length,
  Run, done, ◌>>=◌, deref, recover_with,
}
use rtp_http_flv.HttpFlv.Writer.{fresh}
use rtp_http_flv.Cache.Queue.{Deps}
use rtp_http_flv.Cache.Queue.Extract.{store_at}
use rtp_http_flv.App.{Stream, App, publisher_of}

-- A missing key reads as 0.
abbrev pub ssrc_of : Text → Dict Text ℕ → ℕ
ssrc_of key m = elim (lookup key m) [ none ↦ 0 | some ssrc ↦ ssrc ]

-- What a request for a stream gets: an error, no answer (also after a panic), or the stream, from
-- the writer with this pointer, where the handler then waits.
pub data Answer : Type 0 where
  bad_request nothing : Answer
  streams : ℕ → Answer

-- `Response`: the status, and the start time.
pub record Response : Type 0 where
  pub status : ℕ
  pub start_time : Option ℕ

abbrev pub flv : Text
flv = codes ".flv"

-- `pos < 0 || u[pos:] != ".flv"`, negated
abbrev pub is_flv : Text → Bool
is_flv u = elim (from_last dot u) [ none ↦ false | some ext ↦ text_beq ext flv ]

module _ (d : Deps) where
  unfoldable pub has_channel : App d → Text → Bool
  has_channel app path = not (ssrc_of path app.key_ssrc_map == 0)

  unfoldable pub handle_new_flv_writer_request : App d → Text → ℕ → Run (App d)
  handle_new_flv_writer_request app key writer = do
    let ssrc = ssrc_of key app.key_ssrc_map
    stream ← deref (lookup ssrc app.rtp_queue_map)
    let q' = record stream.q { flv_writers = d.clients.add stream.q.flv_writers (some writer) }
    done (record app { rtp_queue_map = put ssrc (record stream { q = q' }) app.rtp_queue_map })

  -- A panic is recovered, and then 0 is returned.
  unfoldable pub handle_delay_request : App d → Text → Run ℕ
  handle_delay_request app key =
      recover_with 0 (do
        p ← deref (publisher_of (ssrc_of key app.key_ssrc_map) app.publishers)
        done p.start_time)

  unfoldable pub handle_time : App d → Text → Run Response
  handle_time app path = do
    start_time ← handle_delay_request app path
    done (
        if start_time == 0
        then record { status = 404; start_time = none }
        else record { status = 200; start_time = some start_time })

  -- The request that is known to be for a stream.
  unfoldable pub open_stream : App d → Text → List Text → Run (Answer × App d)
  open_stream app path paths = if not (length paths == 2) then done (bad_request, app) else (do
    let writer = app.next
    let app1 : App d = record app { heap = store_at app.heap writer fresh; next = writer + 1 }
    app2 ← handle_new_flv_writer_request app1 path writer
    done (streams writer, app2))

  -- `handleConn` up to `Wait`, on the path of the request.
  unfoldable pub handle_conn : App d → Text → Run (Answer × App d)
  unfolding open_stream
  handle_conn app u =
      recover_with (nothing, app)
        (if not (is_flv u)
          then done (bad_request, app)
          else (let path = trim_suffix (trim_left slash u) flv in
              if not (has_channel app path)
              then done (nothing, app)
              else open_stream app path (split_2 slash path)))

  -- The node after a request for the stream `st`: a new writer, the last of the stream's clients.
  abbrev pub joined : App d → ℕ → Stream d → App d
  joined app ssrc st = record app {
    heap = store_at app.heap app.next fresh;
    next = app.next + 1;
    rtp_queue_map =
        put ssrc
          (record st {
            q = record st.q { flv_writers = d.clients.add st.q.flv_writers (some app.next) };
          })
          app.rtp_queue_map;
  }
