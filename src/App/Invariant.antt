-- ===== src/App/Invariant.antt =====
-- An invariant of the streams of the node: what an operation of main.go has to keep of a stream, and of
-- what its calls leave behind, for the invariant to hold in every state.
pub mod Rounds
use rtp_http_flv.Prelude.{
  ℕ, ◌<◌, ◌≡◌, refl, sym, ap, ◌∙◌, subst, Bool, true, false, Bool-cases, inl, inr, Option, none,
  some, Text, Dict, lookup, put, delete, lookup-put, lookup-delete, nat_eq, nat_beq_iff, ◌==◌, Run,
  done, ◌>>=◌, >>=-eq-done, done-inj, deref, get_elem?, send, recv, split_2, slash, text_eq, Chan,
  arith, List, ◌++◌, ◌∷◌, [],
}
use rtp_http_flv.Rtp.{RtpPack}
use rtp_http_flv.Publishers.{Json}
use rtp_http_flv.Cache.Queue.{Deps, S}
use rtp_http_flv.Cache.Queue.Extract.Frame.{IsKept}
use rtp_http_flv.App.{Outside, Config, Stream, App, publisher_of}
use rtp_http_flv.App.Streams.{
  refresh, open_record, open_hls, new_stream, handle_new_stream, send_packet, handle_new_packet,
}
use rtp_http_flv.App.Serve.{view, serve_packet}

module _ (d : Deps) (out : Outside d.node.Net) (conf : Config) where
  -- The stream that `handleNewStream` makes, and the node with its source and its file.
  abbrev pub opened : Text → Text → ℕ → App d → Stream d × App d
  opened channel key ssrc app =
      let r = open_record d out conf channel app in
      let w = open_hls d out conf key r.1 in (new_stream d out conf ssrc key r.0 w.0, w.1)

  -- An invariant of a stream and of the state behind the node, and one of that state alone, which are
  -- stable under a relation that the calls of the node keep.
  pub record Invariant : Type 1 where
    pub Kept : d.node.Net → d.node.Net → Type 0
    pub Sound : d.node.Net → Type 0
    pub Holds : Stream d → d.node.Net → Type 0
    pub calls : IsKept d Kept
    pub fetch :
        (n : d.node.Net) (r : Option (Json out.floats.Float) × d.node.Net)
        → out.fetch n ≡ done r
        → Kept n r.1
    pub close_file : (f : ℕ) (n : d.node.Net) → Kept n (out.close_file f n)
    pub close_quic : (n n' : d.node.Net) → out.close_quic n ≡ done n' → Kept n n'
    pub create_flv_file : (name : Text) (n : d.node.Net) → Kept n (out.create_flv_file name n).1
    pub get_writer : (key : Text) (n : d.node.Net) → Kept n (out.get_writer key n).1
    pub sound : (n n' : d.node.Net) → Kept n n' → Sound n → Sound n'
    pub stable : (st : Stream d) (n n' : d.node.Net) → Kept n n' → Holds st n → Holds st n'
    pub opens :
        (channel key : Text) (ssrc : ℕ) (app : App d)
        → Sound app.net
        → Holds (opened channel key ssrc app).0 (opened channel key ssrc app).1.net
    pub receives :
        (st : Stream d) (n : d.node.Net) (rp : RtpPack) (chan : Chan RtpPack)
        → rp.sequence_number < 65536
        → send st.in_chan rp ≡ done chan
        → Holds st n
        → Holds (record st { in_chan = chan }) n
    pub serves :
        (fuel : ℕ) (st : Stream d) (app : App d) (rp : Option RtpPack) (chan : Chan RtpPack)
        (s : S d)
        → recv st.in_chan ≡ done (rp, chan)
        → serve_packet d fuel rp (view d st app) ≡ done s
        → Holds st app.net
        → Holds (record st { in_chan = chan; q = s.q }) s.net
    pub joins :
        (st : Stream d) (n : d.node.Net) (w : ℕ)
        → Holds st n
        → Holds
            (record st {
              q = record st.q { flv_writers = d.clients.add st.q.flv_writers (some w) };
            })
            n

  module _ (inv : Invariant) where
    -- Every stream of the node.
    pub record AllHold (app : App d) : Type 0 where
      pub behind : inv.Sound app.net
      pub each :
          (ssrc : ℕ) (st : Stream d)
          → lookup ssrc app.rtp_queue_map ≡ some st
          → inv.Holds st app.net

    -- The same streams, with the state behind them related.
    pub record Moves (app app' : App d) : Type 0 where
      pub queues : app'.rtp_queue_map ≡ app.rtp_queue_map
      pub net : inv.Kept app.net app'.net

    pub Moves-AllHold : (app app' : App d) → Moves app app' → AllHold app → AllHold app'
    Moves-AllHold app app' m v = record {
      behind = inv.sound app.net app'.net m.net v.behind;
      each = λ ssrc st e.
          inv.stable st app.net app'.net m.net
            (v.each ssrc st (sym (ap (lookup ssrc) m.queues) ∙ e));
    }

    -- A stream that is put into the map.
    pub put-AllHold :
        (app app' : App d) (ssrc : ℕ) (st : Stream d)
        → AllHold app
        → inv.Kept app.net app'.net
        → app'.rtp_queue_map ≡ put ssrc st app.rtp_queue_map
        → inv.Holds st app'.net
        → AllHold app'
    put-AllHold app app' ssrc st v k e h = record {
      behind = inv.sound app.net app'.net k v.behind;
      each = λ n t f.
          let g : lookup n (put ssrc st app.rtp_queue_map) ≡ some t = sym (ap (lookup n) e) ∙ f in
          elim (Bool-cases (ssrc == n)) [
            | inl same ↦
                let is : st ≡ t = cc (rw (lookup-put ssrc n st app.rtp_queue_map, same) at g) in
                subst (λ (x : Stream d). inv.Holds x app'.net) is h
            | inr other ↦
                inv.stable t app.net app'.net k
                  (v.each n t (rw (lookup-put ssrc n st app.rtp_queue_map, other) at g))
          ];
    }

    pub delete-AllHold :
        (app app' : App d) (ssrc : ℕ)
        → AllHold app
        → inv.Kept app.net app'.net
        → app'.rtp_queue_map ≡ delete ssrc app.rtp_queue_map
        → AllHold app'
    delete-AllHold app app' ssrc v k e = record {
      behind = inv.sound app.net app'.net k v.behind;
      each = λ n t f.
          let g : lookup n (delete ssrc app.rtp_queue_map) ≡ some t = sym (ap (lookup n) e) ∙ f in
          elim (Bool-cases (ssrc == n)) [
            | inl same ↦ absurd (cc (rw (lookup-delete ssrc n app.rtp_queue_map, same) at g))
            | inr other ↦
                inv.stable t app.net app'.net k
                  (v.each n t (rw (lookup-delete ssrc n app.rtp_queue_map, other) at g))
          ];
    }
