-- ===== src/Edge/Ended.antt =====
-- A source of the whole node that has ended: its queue goes on writing to it (`extractFlv` of
-- cache/RtpQueue.go, `Write` of protocol/hls/source.go).
use rtp_http_flv.Prelude.{
  ℕ, ◌<◌, ◌≡◌, refl, ap, ◌∙◌, true, Option, some, arith, done, panics, Slice,
}
use rtp_http_flv.Cache.ArrayList.{ArrayList}
use rtp_http_flv.Cache.Window.{Slot}
use rtp_http_flv.Cache.Queue.{S}
use rtp_http_flv.Cache.Queue.Extract.{record_tag}
use rtp_http_flv.Hls.Livego.{AvPacket}
use rtp_http_flv.Hls.Source as HlsSource
use rtp_http_flv.App.{Config}
use rtp_http_flv.App.Invariant.{Invariant}
use rtp_http_flv.Edge.{System, Settings, World, outside, hls_write}
use rtp_http_flv.Edge.Streams.{dep}
use rtp_http_flv.Edge.Grows.{Grows}
use rtp_http_flv.Edge.Rounds.{Running, Reach, node_invariant, Reach-Held}

module _ (sys : System) (set : Settings) (slots : ArrayList Slot) (clients : ArrayList (Option ℕ))
    (conf : Config) where
  -- The source at a pointer has closed.
  abbrev pub HasEnded : ℕ → World sys set → Type 0
  HasEnded a w = (a < w.server.next) × ((w.server.heap a).closed ≡ true)

  abbrev ended_invariant : ℕ → Invariant (dep sys set slots clients) (outside sys set) conf
  ended_invariant a =
      let inv = node_invariant sys set slots clients conf in
      record {
        Kept = Grows sys set;
        Sound = HasEnded a;
        Holds = λ st w. Unit {0};
        calls = inv.calls;
        fetch = inv.fetch;
        close_file = inv.close_file;
        close_quic = inv.close_quic;
        create_flv_file = inv.create_flv_file;
        get_writer = inv.get_writer;
        sound = λ w w' g v. (omega (arith, g.sources, v.0), g.closed a v.0 v.1);
        stable = λ st w w' g v. tt;
        opens = λ channel key ssrc app v. tt;
        receives = λ st w rp chan n e v. tt;
        serves = λ fuel st app rp chan s e f v. tt;
        joins = λ st w a v. tt;
      }

  record_tag-closed :
      (s : S (dep sys set slots clients)) (tag : Slice) (a : ℕ) (p : AvPacket)
      → s.q.hls_writer ≡ some a
      → sys.parse_tag tag ≡ done p
      → (s.net.server.heap a).closed ≡ true
      → record_tag (dep sys set slots clients) s tag ≡ panics
  unfolding record_tag hls_write HlsSource.write
  record_tag-closed s tag a p ha hp c = rw (ha, hp, c) refl

  -- A source that has once closed, after a failure of the demuxer, never takes a tag again:
  -- whatever rounds the goroutines of the whole node run to their ends after that, in any order,
  -- `checkStop` and a `GetWriter` of the same key included, the source at that pointer is still
  -- closed, and a queue that has this pointer panics when it records a tag that livego can parse.
  pub closed_source_panics :
      (a : ℕ) (s s' : Running sys set slots clients conf)
      → HasEnded a s.1.net
      → Reach sys set slots clients conf s s'
      → ((s'.1.net.server.heap a).closed ≡ true)
        × ((t : S (dep sys set slots clients)) (tag : Slice) (p : AvPacket)
            → t.net ≡ s'.1.net
            → t.q.hls_writer ≡ some a
            → sys.parse_tag tag ≡ done p
            → record_tag (dep sys set slots clients) t tag ≡ panics)
  closed_source_panics a s s' v r =
      let kept =
        Reach-Held sys set slots clients conf (ended_invariant a) (λ x y g. g) s s' r
          (record { behind = v; each = λ ssrc st h. tt }) in
      let ended = kept.behind.1 in
      (
        ended,
        λ t tag p e h k.
            record_tag-closed t tag a p h k
              (ap (λ (w : World sys set). (w.server.heap a).closed) e ∙ ended),
      )
