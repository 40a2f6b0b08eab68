-- ===== src/App/Registry/Closes.antt =====
-- The check for streams that have ended keeps the tables of the node.
use rtp_http_flv.Prelude.{
  ℕ, ◌≡◌, refl, subst, Bool, true, false, List, [], ◌∷◌, Option, none, some, lookup, delete, nat_eq,
  text_eq, arith, done, ◌>>=◌, >>=-eq-done, done-inj,
}
use rtp_http_flv.Publishers.{Publisher}
use rtp_http_flv.Cache.Queue.{Deps}
use rtp_http_flv.App.{Outside, Config, Stream, App, publisher_of}
use rtp_http_flv.App.Streams.{refresh}
use rtp_http_flv.App.Alive.{close_queue, check_stream, check_streams, check_alive}
use rtp_http_flv.App.Registry.{IsApp, delete-IsRegistry}
use rtp_http_flv.App.Registry.Packets.{SameTables, SameTables-IsApp, refresh-SameTables}

module _ (d : Deps) (out : Outside d.node.Net) (conf : Config) where
  -- One stream of a round of `CheckAlive`.
  pub check_stream-IsApp :
      (ssrc : ℕ) (app app' : App d)
      → IsApp d app
      → check_stream d out conf ssrc app ≡ done app'
      → IsApp d app'
  unfolding check_stream
  check_stream-IsApp ssrc app app' v h =
      go (publisher_of ssrc app.publishers) (lookup ssrc app.rtp_queue_map) refl h
    where
      go :
          (p : Option Publisher) (o : Option (Stream d))
          → lookup ssrc app.rtp_queue_map ≡ o
          → (elim p [
            | some info ↦ done app
            | none ↦ elim o [
              | none ↦ done app
              | some stream ↦ (do
                let app1 : App d = record app {
                  key_ssrc_map = delete stream.channel_key app.key_ssrc_map;
                  rtp_queue_map = delete stream.q.ssrc app.rtp_queue_map;
                }
                let app2 = close_queue d out conf stream app1
                net' ← out.close_quic app2.net
                done (record app2 { net = net' }))
            ]
          ])
            ≡ done app'
          → IsApp d app'
      go (some info) o e k = subst (IsApp d) (done-inj app app' k) v
      go none none e k = subst (IsApp d) (done-inj app app' k) v
      go none (some st) e k =
          let app1 : App d = record app {
            key_ssrc_map = delete st.channel_key app.key_ssrc_map;
            rtp_queue_map = delete st.q.ssrc app.rtp_queue_map;
          } in
          let app2 : App d = close_queue d out conf st app1 in
          let (net', a, f) = >>=-eq-done (out.close_quic app2.net) _ k in
          let t : SameTables d out conf app1 app2 = unfold close_queue in ground arith in
          let same : record app2 { net = net' } ≡ app' = done-inj _ _ f in
          subst (IsApp d) same (
            rw (t.queues, t.keys)
              (delete-IsRegistry d app.rtp_queue_map app.key_ssrc_map ssrc st v e))

  pub check_streams-IsApp :
      (order : List ℕ) (app app' : App d)
      → IsApp d app
      → check_streams d out conf order app ≡ done app'
      → IsApp d app'
  unfolding check_streams
  check_streams-IsApp [] app app' v h = subst (IsApp d) (done-inj app app' h) v
  check_streams-IsApp (ssrc ∷ order) app app' v h =
      let (app1, a, f) = >>=-eq-done (check_stream d out conf ssrc app) _ h in
      check_streams-IsApp order app1 app' (check_stream-IsApp ssrc app app1 v a) f

  pub check_alive-IsApp :
      (init : Bool) (order : List ℕ) (app app' : App d)
      → IsApp d app
      → check_alive d out conf init order app ≡ done app'
      → IsApp d app'
  unfolding check_alive
  check_alive-IsApp false order app app' v h = subst (IsApp d) (done-inj app app' h) v
  check_alive-IsApp true order app app' v h =
      let (app1, a, f) = >>=-eq-done (refresh d out conf app) _ h in
      check_streams-IsApp order app1 app'
        (SameTables-IsApp d out conf app app1 (refresh-SameTables d out conf app app1 a) v) f
