-- ===== src/Hls/Server/Reach.antt =====
-- The HLS server while queues open sources and write to them, sources run, and old ones are dropped.
use rtp_http_flv.Prelude.{
  ℕ, ◌+◌, ◌<◌, ◌≡◌, sym, subst, Bool, true, false, Bool-cases, Option-cases, inl, inr, List, [],
  ◌∷◌, some, ◌==◌, if◌then◌else◌, nat_beq_iff, Text, text_eq, text_beq, text_beq_iff, lookup, put,
  delete, lookup-put, lookup-delete, arith, All,
}
use rtp_http_flv.Hls.TsCache.{gen_m3u8_play_list}
use rtp_http_flv.Hls.Livego.{Livego}
use rtp_http_flv.Hls.Source.{Source, new_source}
use rtp_http_flv.Hls.Source.Segments.{IsSource}
use rtp_http_flv.Hls.Source.Reach.{Step as SourceStep, Step-IsSource, new_source-IsSource}
use rtp_http_flv.Hls.Server.{
  Server, store_source, get_writer, check_conn, check_stop, handle, play_list,
}
use rtp_http_flv.Hls.Server.Paths.{IsStreamKey, list_url}
use rtp_http_flv.Hls.Server.Follows.{Served, handle_follows}

module _ (live : Livego) where
  -- A step: a queue gets its source, or writes a packet to the source at a pointer; a round of a source's
  -- `SendPacket`; a round of `checkStop`.
  pub data Step (srv srv' : Server live) : Type 0 where
    opens : (key : Text) → srv' ≡ (get_writer live key srv).1 → Step srv srv'
    runs :
        (a : ℕ) (s : Source live)
        → SourceStep live (srv.heap a) s
        → srv' ≡ record srv { heap = store_source live srv.heap a s }
        → Step srv srv'
    stops : (now : ℕ) (keys : List Text) → srv' ≡ check_stop live now keys srv → Step srv srv'

  pub data Reach (srv : Server live) : Server live → Type 0 where
    here : Reach srv srv
    next : {t u : Server live} → Reach srv t → Step t u → Reach srv u

  -- Every key leads to a source with that key, below the first free pointer.
  pub record IsServer (srv : Server live) : Type 0 where
    pub sources :
        (key : Text) (a : ℕ)
        → lookup key srv.conns ≡ some a
        → (a < srv.next) × IsSource live key (srv.heap a)

  pub get_writer-IsServer :
      (key : Text) (srv : Server live) → IsServer srv → IsServer (get_writer live key srv).1
  unfolding get_writer
  get_writer-IsServer key srv v = elim (Option-cases (lookup key srv.conns)) [
    | inl e ↦ rw (get_writer, e) opened-IsServer
    | inr (a, e) ↦ rw (get_writer, e) v
  ]
    where
      opened : Server live
      opened = record {
        conns = put key srv.next srv.conns;
        heap = store_source live srv.heap srv.next (new_source live key);
        next = srv.next + 1;
      }

      made : (a : ℕ) → srv.next ≡ a → IsSource live key (opened.heap a)
      made a e =
          let here' : (srv.next == a) ≡ true = (nat_beq_iff srv.next a).1 e in
          rw here' (new_source-IsSource live key)

      kept :
          (k : Text) (a : ℕ)
          → a < srv.next
          → IsSource live k (srv.heap a)
          → IsSource live k (opened.heap a)
      kept k a l w = let apart : (srv.next == a) ≡ false = ground arith in rw apart w

      opened-IsServer : IsServer opened
      opened-IsServer = record {
        sources = λ k a e. elim (Bool-cases (text_beq key k)) [
          | inl same ↦
              let at : srv.next ≡ a = cc (rw (lookup-put key k srv.next srv.conns, same) at e) in
              let name : key ≡ k = (text_beq_iff key k).0 same in
              (omega arith, subst (λ t. IsSource live t (opened.heap a)) name (made a at))
          | inr other ↦
              let (l, w) = v.sources k a (rw (lookup-put key k srv.next srv.conns, other) at e) in
              (omega arith, kept k a l w)
        ];
      }

  runs-IsServer :
      (a : ℕ) (s : Source live) (srv : Server live)
      → SourceStep live (srv.heap a) s
      → IsServer srv
      → IsServer (record srv { heap = store_source live srv.heap a s })
  runs-IsServer a s srv st v = record {
    sources = λ k b e.
        let (l, w) = v.sources k b e in
        elim (Bool-cases (a == b)) [
          | inl same ↦
              let at : b ≡ a = sym ((nat_beq_iff a b).0 same) in
              let w' : IsSource live k (srv.heap a) =
                subst (λ (x : ℕ). IsSource live k (srv.heap x)) at w in
              (l, rw same (Step-IsSource live k (srv.heap a) s st w'))
          | inr apart ↦ (l, rw apart w)
        ];
  }

  check_conn-IsServer :
      (now : ℕ) (key : Text) (srv : Server live)
      → IsServer srv
      → IsServer (check_conn live now key srv)
  unfolding check_conn
  check_conn-IsServer now key srv v = elim (Option-cases (lookup key srv.conns)) [
    | inl e ↦ rw (check_conn, e) v
    | inr (a, e) ↦ rw (check_conn, e) (alive (live.alive now (srv.heap a).base))
  ]
    where
      alive : (b : Bool) → IsServer (if b then srv else record srv { conns = delete key srv.conns })
      alive true = v
      alive false = record {
        sources = λ k a e. elim (Bool-cases (text_beq key k)) [
          | inl same ↦ absurd (cc (rw (lookup-delete key k srv.conns, same) at e))
          | inr other ↦ v.sources k a (rw (lookup-delete key k srv.conns, other) at e)
        ];
      }

  pub check_stop-IsServer :
      (now : ℕ) (keys : List Text) (srv : Server live)
      → IsServer srv
      → IsServer (check_stop live now keys srv)
  unfolding check_stop
  check_stop-IsServer now [] srv v = v
  check_stop-IsServer now (key ∷ keys) srv v =
      check_stop-IsServer now keys (check_conn live now key srv) (check_conn-IsServer now key srv v)

  Step-IsServer : (srv srv' : Server live) → Step srv srv' → IsServer srv → IsServer srv'
  Step-IsServer srv srv' (opens key e) v = rw e (get_writer-IsServer key srv v)
  Step-IsServer srv srv' (runs a s st e) v = rw e (runs-IsServer a s srv st v)
  Step-IsServer srv srv' (stops now keys e) v = rw e (check_stop-IsServer now keys srv v)

  Reach-IsServer : (srv srv' : Server live) → srv.conns ≡ [] → Reach srv srv' → IsServer srv'
  Reach-IsServer srv srv' e here = rw e (record { sources = λ key a h. absurd (cc h) })
  Reach-IsServer srv srv' e (next {t} r st) = Step-IsServer t srv' st (Reach-IsServer srv t e r)

  -- Whatever the queues, the sources and `checkStop` have done since a server without sources, in
  -- any order: a player that asks for the play list of a key that the server knows, and that is of
  -- the form `room/name` with a room that is not empty, no other slash and no dot, gets one; and
  -- each name in it, when it is asked for next, is answered with the segment of that name, which
  -- lasts as long as the list says, and at least three seconds.
  pub reach_follows :
      (srv srv' : Server live) (key room name : Text) (a : ℕ)
      → srv.conns ≡ []
      → Reach srv srv'
      → IsStreamKey key room name
      → lookup key srv'.conns ≡ some a
      → let p = gen_m3u8_play_list (srv'.heap a).ts_cache in
        (handle live srv' (list_url key) ≡ play_list p)
        × All (Served live srv' (srv'.heap a)) p.entries
  reach_follows srv srv' key room name a e r k h =
      handle_follows live srv' key room name a k h ((Reach-IsServer srv srv' e r).sources key a h).1
