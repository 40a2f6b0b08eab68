-- ===== src/App/Routes.antt =====
-- `Serve` and `StartHTTPFlv` of protocol/httpflv/server.go: which handler gets a request, and whether the
-- server speaks TLS.
use rtp_http_flv.Prelude.{
  [], Bool, not, ◌||◌, Text, codes, length, ◌==◌, text_beq, if◌then◌else◌, Run, done, ◌>>=◌,
}
use rtp_http_flv.Cache.Queue.{Deps}
use rtp_http_flv.App.{App}
use rtp_http_flv.App.Handler.{Answer, Response, handle_conn, handle_time}

-- What a request gets.
pub data Reply : Type 0 where
  answer : Answer → Reply
  response : Response → Reply

abbrev pub stats_time : Text
stats_time = codes "/stats/time"

module _ (d : Deps) where
  -- The pattern "/stats/time" matches this path, and "/" every other one. `stream` is the value of the
  -- form by this name, empty if there is none.
  unfoldable pub route : App d → Text → Text → Run (Reply × App d)
  route app path stream =
      if text_beq path stats_time
      then (do r ← handle_time d app stream; done (response r, app))
      else (do (a, app') ← handle_conn d app path; done (answer a, app'))

-- The files of the settings `CERT_FILE` and `KEY_FILE`: both or none.
unfoldable pub tls_files : (Text → Bool) → Text × Text → Text × Text
tls_files path_exists (cert, key) =
    if not (path_exists key) || not (path_exists cert) then ([], []) else (cert, key)

-- `certFile == "" || keyFile == ""`, negated
unfoldable pub is_tls : Text × Text → Bool
is_tls (cert, key) = not (length cert == 0 || length key == 0)
