-- ===== src/App/Invariant/Rounds.antt =====
-- The rounds of the goroutines of the node keep an invariant of its streams.
use rtp_http_flv.Prelude.{
  ℕ, ◌<◌, ◌≡◌, refl, sym, ap, ◌∙◌, subst, Bool, true, false, Bool-cases, inl, inr, List, [], ◌∷◌,
  ◌++◌, Option, none, some, Text, lookup, put, delete, nat_eq, text_eq, done, ◌>>=◌, >>=-eq-done,
  done-inj, deref, get_elem?, send, recv, split_2, slash, arith, Slice, All, All-take,
}
use rtp_http_flv.Rtp.{RtpPack}
use rtp_http_flv.Rtp.Parse.{parse}
use rtp_http_flv.Publishers.{Publisher, update_publishers}
use rtp_http_flv.Quic.Answer.{parse-sequence_number}
use rtp_http_flv.Cache.Queue.{Deps, S}
use rtp_http_flv.Cache.Queue.Receive.Keeps.{recv_packet-Goes}
use rtp_http_flv.App.{Outside, Config, Stream, App, publisher_of}
use rtp_http_flv.App.Streams.{
  refresh, open_record, open_hls, handle_new_stream, send_packet, handle_new_packet,
}
use rtp_http_flv.App.Alive.{close_queue, check_stream, check_streams, check_alive}
use rtp_http_flv.App.Handler.{Answer, handle_conn}
use rtp_http_flv.App.Receive.{
  Link, met, buffer_len, buffer, first_packet, handle_datagram, receive_rtp,
}
use rtp_http_flv.App.Serve.{view, write_back, serve_packet, serve}
use rtp_http_flv.App.Registry.Answers.{Joins, stays, joins, handle_conn-Joins}
use rtp_http_flv.App.Invariant.{
  opened, Invariant, AllHold, Moves, Moves-AllHold, put-AllHold, delete-AllHold,
}

module _ (d : Deps) (out : Outside d.node.Net) (conf : Config) (inv : Invariant d out conf) where
  open inv use {Kept, Holds}

  abbrev Good : App d → Type 0
  Good = AllHold d out conf inv

  refresh-Moves :
      (app app' : App d) → refresh d out conf app ≡ done app' → Moves d out conf inv app app'
  unfolding refresh
  refresh-Moves app app' h =
      let (r, a, f) = >>=-eq-done (out.fetch app.net) _ h in
      let (pubs, b, g) = >>=-eq-done (update_publishers out.floats r.0) _ f in
      let same : record app { publishers = pubs; net = r.1 } ≡ app' = done-inj _ _ g in
      subst (Moves d out conf inv app) same (record { queues = refl; net = inv.fetch app.net r a })

  open_record-Moves :
      (channel : Text) (app : App d)
      → Moves d out conf inv app (open_record d out conf channel app).1
  unfolding open_record
  open_record-Moves channel app = elim (Bool-cases conf.enable_record) [
    | inl on ↦
        rw (open_record, on) (record { queues = refl; net = inv.create_flv_file channel app.net })
    | inr off ↦ rw (open_record, off) (record { queues = refl; net = inv.calls.same app.net })
  ]

  open_hls-Moves :
      (key : Text) (app : App d) → Moves d out conf inv app (open_hls d out conf key app).1
  unfolding open_hls
  open_hls-Moves key app = elim (Bool-cases conf.enable_hls) [
    | inl on ↦ rw (open_hls, on) (record { queues = refl; net = inv.get_writer key app.net })
    | inr off ↦ rw (open_hls, off) (record { queues = refl; net = inv.calls.same app.net })
  ]

  handle_new_stream-Good :
      (app app' : App d) (ssrc : ℕ)
      → Good app
      → handle_new_stream d out conf app ssrc ≡ done app'
      → Good app'
  unfolding handle_new_stream
  handle_new_stream-Good app app' ssrc v h =
      let (app1, a, f) = >>=-eq-done (refresh d out conf app) _ h in
      let (p, b, g) = >>=-eq-done (deref (publisher_of ssrc app1.publishers)) _ f in
      let app2 : App d = record app1 { key_ssrc_map = put p.key ssrc app1.key_ssrc_map } in
      let (channel, c, k) = >>=-eq-done (deref (get_elem? (split_2 slash p.key) 1)) _ g in
      let o = opened d out conf channel p.key ssrc app2 in
      let r = open_record d out conf channel app2 in
      let m1 = open_record-Moves channel app2 in
      let m2 = open_hls-Moves p.key r.1 in
      let v1 = Moves-AllHold d out conf inv app app1 (refresh-Moves app app1 a) v in
      put-AllHold d out conf inv app1 app' ssrc o.0 v1
        (subst (λ (x : App d). Kept app1.net x.net) (done-inj _ _ k)
          (inv.calls.after app1.net r.1.net o.1.net m1.net m2.net))
        (sym (ap (λ (x : App d). x.rtp_queue_map) (done-inj _ _ k))
          ∙ ap (put ssrc o.0) (m2.queues ∙ m1.queues))
        (subst (λ (x : App d). Holds o.0 x.net) (done-inj _ _ k)
          (inv.opens channel p.key ssrc app2 v1.behind))

  send_packet-Good :
      (app app' : App d) (rp : RtpPack)
      → rp.sequence_number < 65536
      → Good app
      → send_packet d out conf app rp ≡ done app'
      → Good app'
  unfolding send_packet
  send_packet-Good app app' rp n v h =
      let (st, a, f) = >>=-eq-done (deref (lookup rp.ssrc app.rtp_queue_map)) _ h in
      let (chan, b, g) = >>=-eq-done (send st.in_chan rp) _ f in
      let found : lookup rp.ssrc app.rtp_queue_map ≡ some st = ground (arith, a) in
      let st' : Stream d = record st { in_chan = chan } in
      let app1 : App d = record app { rtp_queue_map = put rp.ssrc st' app.rtp_queue_map } in
      subst Good (done-inj app1 app' g) (
        put-AllHold d out conf inv app app1 rp.ssrc st' v (inv.calls.same app.net) refl
          (inv.receives st app.net rp chan n b (v.each rp.ssrc st found)))

  handle_new_packet-Good :
      (app app' : App d) (rp : RtpPack)
      → rp.sequence_number < 65536
      → Good app
      → handle_new_packet d out conf app rp ≡ done app'
      → Good app'
  unfolding handle_new_packet
  handle_new_packet-Good app app' rp n v h = go (lookup rp.ssrc app.rtp_queue_map) h
    where
      go :
          (o : Option (Stream d))
          → (elim o [ some stream ↦ done app | none ↦ handle_new_stream d out conf app rp.ssrc ]
              >>= λ app1. send_packet d out conf app1 rp)
            ≡ done app'
          → Good app'
      go (some st) k = send_packet-Good app app' rp n v k
      go none k =
          let (app1, a, f) = >>=-eq-done (handle_new_stream d out conf app rp.ssrc) _ k in
          send_packet-Good app1 app' rp n (handle_new_stream-Good app app1 rp.ssrc v a) f

  handle_datagram-Good :
      (lost : Bool) (buff : Slice) (app app' : App d)
      → All (λ b. b < 256) buff.elems
      → Good app
      → handle_datagram d out conf lost buff app ≡ done app'
      → Good app'
  unfolding handle_datagram
  handle_datagram-Good true buff app app' w v h = subst Good (done-inj app app' h) v
  handle_datagram-Good false buff app app' w v h =
      let (rp, a, f) = >>=-eq-done (parse buff) _ h in parsed rp a f
    where
      parsed :
          (rp : Option RtpPack)
          → parse buff ≡ done rp
          → elim rp [ none ↦ done app | some p ↦ handle_new_packet d out conf app p ] ≡ done app'
          → Good app'
      parsed none a f = subst Good (done-inj app app' f) v
      parsed (some p) a f = handle_new_packet-Good app app' p (parse-sequence_number buff p w a) v f

  pub receive_rtp-AllHold :
      (lost : Bool) (sender : Text) (datagram : List ℕ) (s s' : Link × App d)
      → All (λ b. b < 256) datagram
      → Good s.1
      → receive_rtp d out conf lost sender datagram s ≡ done s'
      → Good s'.1
  unfolding receive_rtp
  receive_rtp-AllHold lost sender datagram s s' w v h =
      let buff = buffer datagram in
      let bytes = All-take (λ b. b < 256) buffer_len datagram w in
      elim (Bool-cases s.0.first_pkt) [
        | inr later ↦
            let (app', a, f) =
              >>=-eq-done (handle_datagram d out conf lost buff s.1) _ (rw later at h) in
            subst (λ (x : Link × App d). Good x.1) (done-inj _ _ f)
              (handle_datagram-Good lost buff s.1 app' bytes v a)
        | inl first ↦
            let ((again, link'), a, f) =
              >>=-eq-done (first_packet (met sender s.0) (buff.elems ++ buff.spare)) _
                (rw first at h) in
            elim (Bool-cases again) [
              | inl stop ↦ subst (λ (x : Link × App d). Good x.1) (done-inj _ _ (rw stop at f)) v
              | inr go ↦
                  let (app', b, g) =
                    >>=-eq-done (handle_datagram d out conf lost buff s.1) _ (rw go at f) in
                  subst (λ (x : Link × App d). Good x.1) (done-inj _ _ g)
                    (handle_datagram-Good lost buff s.1 app' bytes v b)
            ]
      ]

  serve_packet-Kept :
      (fuel : ℕ) (rp : Option RtpPack) (s s' : S d)
      → serve_packet d fuel rp s ≡ done s'
      → Kept s.net s'.net
  serve_packet-Kept fuel none s s' h =
      subst (λ (x : S d). Kept s.net x.net) (done-inj s s' h) (inv.calls.same s.net)
  serve_packet-Kept fuel (some rp) s s' h =
      (recv_packet-Goes d Kept inv.calls fuel s s' (some rp) h).net

  pub serve-AllHold :
      (fuel ssrc : ℕ) (app app' : App d) → Good app → serve d fuel ssrc app ≡ done app' → Good app'
  unfolding serve
  serve-AllHold fuel ssrc app app' v h =
      let (st, a, f) = >>=-eq-done (deref (lookup ssrc app.rtp_queue_map)) _ h in
      let found : lookup ssrc app.rtp_queue_map ≡ some st = ground (arith, a) in
      let ((rp, chan), b, g) = >>=-eq-done (recv st.in_chan) _ f in
      let (s, c, k) = >>=-eq-done (serve_packet d fuel rp (view d st app)) _ g in
      let st' : Stream d = record st { in_chan = chan; q = s.q } in
      let app1 : App d = write_back d ssrc st chan s app in
      subst Good (done-inj app1 app' k) (
        put-AllHold d out conf inv app app1 ssrc st' v
          (serve_packet-Kept fuel rp (view d st app) s c) refl
          (inv.serves fuel st app rp chan s b c (v.each ssrc st found)))

  close_queue-Moves :
      (st : Stream d) (app : App d) → Moves d out conf inv app (close_queue d out conf st app)
  unfolding close_queue
  close_queue-Moves st app = go st.q.flv_file
    where
      go :
          (o : Option ℕ)
          → Moves d out conf inv app
              (elim o [ none ↦ app | some f ↦ record app { net = out.close_file f app.net } ])
      go none = record { queues = refl; net = inv.calls.same app.net }
      go (some f) = record { queues = refl; net = inv.close_file f app.net }

  check_stream-Good :
      (ssrc : ℕ) (app app' : App d)
      → Good app
      → check_stream d out conf ssrc app ≡ done app'
      → Good app'
  unfolding check_stream
  check_stream-Good ssrc app app' v h =
      go (publisher_of ssrc app.publishers) (lookup ssrc app.rtp_queue_map) h
    where
      go :
          (p : Option Publisher) (o : Option (Stream d))
          → (elim p [
            | some info ↦ done app
            | none ↦ elim o [
              | none ↦ done app
              | some stream ↦ (do
                let app1 : App d = record app {
                  key_ssrc_map = delete stream.channel_key app.key_ssrc_map;
                  rtp_queue_map = delete stream.q.ssrc app.rtp_queue_map;
                }
                let app2 = close_queue d out conf stream app1
                net' ← out.close_quic app2.net
                done (record app2 { net = net' }))
            ]
          ])
            ≡ done app'
          → Good app'
      go (some info) o k = subst Good (done-inj app app' k) v
      go none none k = subst Good (done-inj app app' k) v
      go none (some st) k =
          let app1 : App d = record app {
            key_ssrc_map = delete st.channel_key app.key_ssrc_map;
            rtp_queue_map = delete st.q.ssrc app.rtp_queue_map;
          } in
          let app2 : App d = close_queue d out conf st app1 in
          let m = close_queue-Moves st app1 in
          let (net', a, f) = >>=-eq-done (out.close_quic app2.net) _ k in
          let app3 : App d = record app2 { net = net' } in
          subst Good (done-inj app3 app' f) (
            delete-AllHold d out conf inv app app3 st.q.ssrc v
              (inv.calls.after app.net app2.net net' m.net (inv.close_quic app2.net net' a))
              m.queues)

  check_streams-Good :
      (order : List ℕ) (app app' : App d)
      → Good app
      → check_streams d out conf order app ≡ done app'
      → Good app'
  unfolding check_streams
  check_streams-Good [] app app' v h = subst Good (done-inj app app' h) v
  check_streams-Good (ssrc ∷ order) app app' v h =
      let (app1, a, f) = >>=-eq-done (check_stream d out conf ssrc app) _ h in
      check_streams-Good order app1 app' (check_stream-Good ssrc app app1 v a) f

  pub check_alive-AllHold :
      (init : Bool) (order : List ℕ) (app app' : App d)
      → Good app
      → check_alive d out conf init order app ≡ done app'
      → Good app'
  unfolding check_alive
  check_alive-AllHold false order app app' v h = subst Good (done-inj app app' h) v
  check_alive-AllHold true order app app' v h =
      let (app1, a, f) = >>=-eq-done (refresh d out conf app) _ h in
      check_streams-Good order app1 app'
        (Moves-AllHold d out conf inv app app1 (refresh-Moves app app1 a) v) f

  Joins-Good : (app app' : App d) → Good app → Joins d app app' → Good app'
  Joins-Good app app' v (stays e) = subst Good e v
  Joins-Good app app' v (joins ssrc st found e) = subst Good e (
      put-AllHold d out conf inv app _ ssrc
        (record st {
          q = record st.q { flv_writers = d.clients.add st.q.flv_writers (some app.next) };
        })
        v (inv.calls.same app.net) refl (inv.joins st app.net app.next (v.each ssrc st found)))

  pub handle_conn-AllHold :
      (app : App d) (u : Text) (r : Answer × App d)
      → Good app
      → handle_conn d app u ≡ done r
      → Good r.1
  handle_conn-AllHold app u r v h = Joins-Good app r.1 v (handle_conn-Joins d app u r h)
