-- ===== src/App/Registry/Packets.antt =====
-- Packets keep the tables of the node: the receiving loop, and the goroutine of a queue.
use rtp_http_flv.Prelude.{
  slash, ℕ, ◌≡◌, refl, sym, ap, ◌∙◌, subst, Bool, true, false, Bool-cases, inl, inr, List, Option,
  none, some, Text, Dict, lookup, put, nat_eq, text_eq, arith, done, ◌>>=◌, >>=-eq-done, done-inj,
  deref, get_elem?, send, recv, Slice, ◌++◌, split_2,
}
use rtp_http_flv.Rtp.{RtpPack}
use rtp_http_flv.Cache.Queue.{Deps, S}
use rtp_http_flv.Cache.Queue.Receive.Keeps.{recv_packet-SameEnds}
use rtp_http_flv.Rtp.Parse.{parse}
use rtp_http_flv.App.Receive.{met, Link, buffer, first_packet, handle_datagram, receive_rtp}
use rtp_http_flv.App.Serve.{view, write_back, serve_packet, serve}
use rtp_http_flv.App.{Outside, Config, Stream, App, publisher_of}
use rtp_http_flv.App.Streams.{
  refresh, open_record, open_hls, new_stream, handle_new_stream, send_packet, handle_new_packet,
}
use rtp_http_flv.App.Registry.{IsRegistry, IsApp, put-IsRegistry, update-IsRegistry}

module _ (d : Deps) (out : Outside d.node.Net) (conf : Config) where
  -- Both maps, and the number of the next writer.
  pub record SameTables (app app' : App d) : Type 0 where
    pub queues : app'.rtp_queue_map ≡ app.rtp_queue_map
    pub keys : app'.key_ssrc_map ≡ app.key_ssrc_map

  pub SameTables-IsApp : (app app' : App d) → SameTables app app' → IsApp d app → IsApp d app'
  SameTables-IsApp app app' k v = rw (k.queues, k.keys) v

  pub refresh-SameTables :
      (app app' : App d) → refresh d out conf app ≡ done app' → SameTables app app'
  unfolding refresh
  refresh-SameTables app app' h = ground arith

  open_record-SameTables :
      (channel : Text) (app : App d) → SameTables app (open_record d out conf channel app).1
  unfolding open_record
  open_record-SameTables channel app = ground arith

  open_hls-SameTables : (key : Text) (app : App d) → SameTables app (open_hls d out conf key app).1
  unfolding open_hls
  open_hls-SameTables key app = ground arith

  handle_new_stream-IsApp :
      (app app' : App d) (ssrc : ℕ)
      → IsApp d app
      → lookup ssrc app.rtp_queue_map ≡ none
      → handle_new_stream d out conf app ssrc ≡ done app'
      → IsApp d app'
  unfolding handle_new_stream
  handle_new_stream-IsApp app app' ssrc v free h =
      let (app1, a, f) = >>=-eq-done (refresh d out conf app) _ h in
      let (p, b, g) = >>=-eq-done (deref (publisher_of ssrc app1.publishers)) _ f in
      let app2 : App d = record app1 { key_ssrc_map = put p.key ssrc app1.key_ssrc_map } in
      let (channel, c, k) = >>=-eq-done (deref (get_elem? (split_2 slash p.key) 1)) _ g in
      let r = open_record d out conf channel app2 in
      let w = open_hls d out conf p.key r.1 in
      let app4 : App d = w.1 in
      let st : Stream d = new_stream d out conf ssrc p.key r.0 w.0 in
      let t1 = refresh-SameTables app app1 a in
      let t2 = open_record-SameTables channel app2 in
      let t3 = open_hls-SameTables p.key r.1 in
      let same : record app4 { rtp_queue_map = put ssrc st app4.rtp_queue_map } ≡ app' =
        done-inj _ _ k in
      let made : IsRegistry d (put ssrc st app1.rtp_queue_map) (put p.key ssrc app1.key_ssrc_map) =
        put-IsRegistry d app1.rtp_queue_map app1.key_ssrc_map ssrc p.key st
          (SameTables-IsApp app app1 t1 v) (ap (lookup ssrc) t1.queues ∙ free)
          (unfold new_stream in refl) (unfold new_stream in refl) in
      let keys : app4.key_ssrc_map ≡ put p.key ssrc app1.key_ssrc_map = t3.keys ∙ t2.keys in
      let queues : app4.rtp_queue_map ≡ app1.rtp_queue_map = t3.queues ∙ t2.queues in
      let opened =
        subst (λ (ks : Dict Text ℕ). IsRegistry d (put ssrc st app1.rtp_queue_map) ks) (sym keys)
          made in
      subst (IsApp d) same (
        subst (λ (qs : Dict ℕ (Stream d)). IsRegistry d (put ssrc st qs) app4.key_ssrc_map)
          (sym queues) opened)

  send_packet-IsApp :
      (app app' : App d) (rp : RtpPack)
      → IsApp d app
      → send_packet d out conf app rp ≡ done app'
      → IsApp d app'
  unfolding send_packet
  send_packet-IsApp app app' rp v h =
      let (st, a, f) = >>=-eq-done (deref (lookup rp.ssrc app.rtp_queue_map)) _ h in
      let (chan, b, g) = >>=-eq-done (send st.in_chan rp) _ f in
      let found : lookup rp.ssrc app.rtp_queue_map ≡ some st = ground (arith, a) in
      let st' : Stream d = record st { in_chan = chan } in
      let same : record app { rtp_queue_map = put rp.ssrc st' app.rtp_queue_map } ≡ app' =
        done-inj _ _ g in
      subst (IsApp d) same
        (update-IsRegistry d app.rtp_queue_map app.key_ssrc_map rp.ssrc st st' v found refl refl)

  pub handle_new_packet-IsApp :
      (app app' : App d) (rp : RtpPack)
      → IsApp d app
      → handle_new_packet d out conf app rp ≡ done app'
      → IsApp d app'
  unfolding handle_new_packet
  handle_new_packet-IsApp app app' rp v h = go (lookup rp.ssrc app.rtp_queue_map) refl h
    where
      go :
          (o : Option (Stream d))
          → lookup rp.ssrc app.rtp_queue_map ≡ o
          → (elim o [ some stream ↦ done app | none ↦ handle_new_stream d out conf app rp.ssrc ]
              >>= λ app1. send_packet d out conf app1 rp)
            ≡ done app'
          → IsApp d app'
      go (some st) e k = send_packet-IsApp app app' rp v k
      go none e k =
          let (app1, a, f) = >>=-eq-done (handle_new_stream d out conf app rp.ssrc) _ k in
          send_packet-IsApp app1 app' rp (handle_new_stream-IsApp app app1 rp.ssrc v e a) f

-- A round of the receiving loop.
module _ (d : Deps) (out : Outside d.node.Net) (conf : Config) where
  handle_datagram-IsApp :
      (lost : Bool) (buff : Slice) (app app' : App d)
      → IsApp d app
      → handle_datagram d out conf lost buff app ≡ done app'
      → IsApp d app'
  unfolding handle_datagram
  handle_datagram-IsApp true buff app app' v h = subst (IsApp d) (done-inj app app' h) v
  handle_datagram-IsApp false buff app app' v h =
      let (rp, a, f) = >>=-eq-done (parse buff) _ h in parsed rp f
    where
      parsed :
          (rp : Option RtpPack)
          → elim rp [ none ↦ done app | some p ↦ handle_new_packet d out conf app p ] ≡ done app'
          → IsApp d app'
      parsed none f = subst (IsApp d) (done-inj app app' f) v
      parsed (some p) f = handle_new_packet-IsApp d out conf app app' p v f

  pub receive_rtp-IsApp :
      (lost : Bool) (sender : Text) (datagram : List ℕ) (s s' : Link × App d)
      → IsApp d s.1
      → receive_rtp d out conf lost sender datagram s ≡ done s'
      → IsApp d s'.1
  unfolding receive_rtp
  receive_rtp-IsApp lost sender datagram s s' v h = elim (Bool-cases s.0.first_pkt) [
    | inr later ↦
        let (app', a, f) =
          >>=-eq-done (handle_datagram d out conf lost (buffer datagram) s.1) _ (rw later at h) in
        subst (λ (x : Link × App d). IsApp d x.1) (done-inj _ _ f)
          (handle_datagram-IsApp lost (buffer datagram) s.1 app' v a)
    | inl first ↦
        let buff = buffer datagram in
        let ((again, link'), a, f) =
          >>=-eq-done (first_packet (met sender s.0) (buff.elems ++ buff.spare)) _
            (rw first at h) in
        elim (Bool-cases again) [
          | inl stop ↦ subst (λ (x : Link × App d). IsApp d x.1) (done-inj _ _ (rw stop at f)) v
          | inr go ↦
              let (app', b, g) =
                >>=-eq-done (handle_datagram d out conf lost buff s.1) _ (rw go at f) in
              subst (λ (x : Link × App d). IsApp d x.1) (done-inj _ _ g)
                (handle_datagram-IsApp lost buff s.1 app' v b)
        ]
  ]

-- A round of the goroutine of a queue.
module _ (d : Deps) where
  serve_packet-ssrc :
      (fuel : ℕ) (rp : Option RtpPack) (s s' : S d)
      → serve_packet d fuel rp s ≡ done s'
      → s'.q.ssrc ≡ s.q.ssrc
  serve_packet-ssrc fuel none s s' h = sym (ap (λ (x : S d). x.q.ssrc) (done-inj _ _ h))
  serve_packet-ssrc fuel (some rp) s s' h = (recv_packet-SameEnds d fuel s s' (some rp) h).ssrc

  pub serve-IsApp :
      (fuel ssrc : ℕ) (app app' : App d)
      → IsApp d app
      → serve d fuel ssrc app ≡ done app'
      → IsApp d app'
  unfolding serve
  serve-IsApp fuel ssrc app app' v h =
      let (st, a, f) = >>=-eq-done (deref (lookup ssrc app.rtp_queue_map)) _ h in
      let found : lookup ssrc app.rtp_queue_map ≡ some st = ground (arith, a) in
      let ((rp, chan), b, g) = >>=-eq-done (recv st.in_chan) _ f in
      let (s, c, k) = >>=-eq-done (serve_packet d fuel rp (view d st app)) _ g in
      let same : write_back d ssrc st chan s app ≡ app' = done-inj _ _ k in
      subst (IsApp d) same (
        update-IsRegistry d app.rtp_queue_map app.key_ssrc_map ssrc st
          (record st { in_chan = chan; q = s.q }) v found
          (serve_packet-ssrc fuel rp (view d st app) s c) refl)
