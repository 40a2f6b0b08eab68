-- ===== src/App/Registry/Reach.antt =====
-- The goroutines of the node as steps on its state: what main.go starts, the HTTP handlers, and the
-- goroutine of a client's writer (protocol/httpflv/writer.go).
use rtp_http_flv.Prelude.{refl, ap, ◌∙◌, ℕ, ◌≡◌, Bool, List, nat_eq, text_eq, Text, done, ◌<◌, All}
use rtp_http_flv.HttpFlv.Writer.{Sink, FlvWriter, send_packet}
use rtp_http_flv.Cache.Queue.{Deps}
use rtp_http_flv.Cache.Queue.Extract.{store_at}
use rtp_http_flv.App.{Outside, Config, App}
use rtp_http_flv.App.Streams.{new_app}
use rtp_http_flv.App.Alive.{check_alive}
use rtp_http_flv.App.Handler.{Answer, handle_conn}
use rtp_http_flv.App.Receive.{Link, receive_rtp}
use rtp_http_flv.App.Serve.{serve}
use rtp_http_flv.App.Registry.{IsApp}
use rtp_http_flv.App.Registry.Init.{receive_rtp-init}
use rtp_http_flv.App.Registry.Packets.{receive_rtp-IsApp, serve-IsApp}
use rtp_http_flv.App.Registry.Closes.{check_alive-IsApp}
use rtp_http_flv.App.Registry.Answers.{handle_conn-IsApp}

module _ (d : Deps) (out : Outside d.node.Net) (conf : Config) where
  -- What the goroutines share: the variables of the receiving loop and of the settings, and the tables.
  abbrev pub Shared : Type 0
  Shared = Link × App d

  -- One round of a goroutine that returns: the receiving loop, the check for streams that have ended,
  -- a queue's goroutine, a request, and the goroutine of a client's writer, which sends a tag to the
  -- client, whatever its response does with it, or marks the writer as closed. (`Wait` of the handler,
  -- a request for the start time of a stream and a round of `PrintInfo` change nothing.)
  pub data Step (s s' : Shared) : Type 1 where
    receives :
        (lost : Bool) (sender : Text) (datagram : List ℕ)
        → All (λ b. b < 256) datagram
        → receive_rtp d out conf lost sender datagram s ≡ done s'
        → Step s s'
    checks :
        (order : List ℕ) (app' : App d)
        → check_alive d out conf s.0.init order s.1 ≡ done app'
        → s' ≡ (s.0, app')
        → Step s s'
    serves :
        (fuel ssrc : ℕ) (app' : App d)
        → serve d fuel ssrc s.1 ≡ done app'
        → s' ≡ (s.0, app')
        → Step s s'
    answers :
        (url : Text) (answer : Answer) (app' : App d)
        → handle_conn d s.1 url ≡ done (answer, app')
        → s' ≡ (s.0, app')
        → Step s s'
    sends :
        (sink : Sink) (a : ℕ) (ctx ctx' : sink.World) (more : Bool) (w : FlvWriter)
        → a < s.1.next
        → send_packet sink (s.1.heap a) ctx ≡ done (more, w, ctx')
        → s' ≡ (s.0, record s.1 { heap = store_at s.1.heap a w })
        → Step s s'

  -- The rounds in any order.
  pub data Reach (s : Shared) : Shared → Type 1 where
    here : Reach s s
    next : {t u : Shared} → Reach s t → Step t u → Reach s u

  new_app-IsApp : (net : d.node.Net) → IsApp d (new_app d net)
  unfolding new_app
  new_app-IsApp net = record {
    numbered = λ ssrc st h. absurd (cc h);
    reachable = λ key ssrc h. absurd (cc h);
  }

  Step-IsApp : (s s' : Shared) → Step s s' → IsApp d s.1 → IsApp d s'.1
  Step-IsApp s s' (receives lost sender datagram bytes h) v =
      receive_rtp-IsApp d out conf lost sender datagram s s' v h
  Step-IsApp s s' (checks order app' h e) v =
      rw e (check_alive-IsApp d out conf s.0.init order s.1 app' v h)
  Step-IsApp s s' (serves fuel ssrc app' h e) v = rw e (serve-IsApp d fuel ssrc s.1 app' v h)
  Step-IsApp s s' (answers url answer app' h e) v =
      rw e (handle_conn-IsApp d s.1 url (answer, app') v h)
  Step-IsApp s s' (sends sink a ctx ctx' more w l h e) v =
      rw e (record { numbered = v.numbered; reachable = v.reachable })

  Step-init : (s s' : Shared) → Step s s' → s'.0.init ≡ s.0.init
  Step-init s s' (receives lost sender datagram bytes h) =
      receive_rtp-init d out conf lost sender datagram s s' h
  Step-init s s' (checks order app' h e) = ap (λ (x : Shared). x.0.init) e
  Step-init s s' (serves fuel ssrc app' h e) = ap (λ (x : Shared). x.0.init) e
  Step-init s s' (answers url answer app' h e) = ap (λ (x : Shared). x.0.init) e
  Step-init s s' (sends sink a ctx ctx' more w l h e) = ap (λ (x : Shared). x.0.init) e

  -- Whatever rounds the goroutines run, each to its end, in any order, those of the clients'
  -- writers included, from the tables that `main` makes: every stream is listed under its own
  -- number, and every key that a viewer can ask for leads to a stream that is there and has that
  -- key. `INIT` keeps the value that it had: no datagram sets it.
  pub Reach-IsApp :
      (link : Link) (net : d.node.Net) (s : Shared)
      → Reach (link, new_app d net) s
      → IsApp d s.1 × (s.0.init ≡ link.init)
  Reach-IsApp link net s here = (new_app-IsApp net, refl)
  Reach-IsApp link net s (next {t} r st) =
      let (v, e) = Reach-IsApp link net t r in (Step-IsApp t s st v, Step-init t s st ∙ e)
