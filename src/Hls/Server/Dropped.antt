-- ===== src/Hls/Server/Dropped.antt =====
-- `checkStop` of protocol/hls/hls.go and the queues, which ask for their source only once: what becomes
-- of a stream that was silent, when it goes on.
use rtp_http_flv.Prelude.{
  ℕ, ◌≡◌, ◌≢◌, refl, ap, ◌∙◌, Bool, true, false, Bool-cases, Option-cases, ◌⊎◌, inl, inr, List, [],
  ◌∷◌, Option, none, some, if◌then◌else◌, Text, text_eq, text_beq, text_beq_iff, lookup, delete,
  lookup-put, lookup-delete, arith, ext,
}
use rtp_http_flv.Hls.Livego.{Livego}
use rtp_http_flv.Hls.Source.{Source}
use rtp_http_flv.Hls.Source.Names.{segment_name}
use rtp_http_flv.Hls.Source.Reach.{Step as SourceStep}
use rtp_http_flv.Hls.TsCache.{get_item, gen_m3u8_play_list}
use rtp_http_flv.Hls.Server.{
  Server, forbidden, bad_request, segment, play_list, m3u8, ts, store_source, get_writer, get_conn,
  check_conn, check_stop, parse_m3u8, parse_ts, handle_m3u8, handle_ts, handle,
}
use rtp_http_flv.Hls.Server.Paths.{
  IsStreamKey, list_url, list_url-IsFile, segment_name-IsFile, IsFile-ext, IsFile-base,
  parse_m3u8_url, parse_ts_name,
}

abbrev pub occurs : Text → List Text → Bool
occurs key [] = false
occurs key (k ∷ keys) = if text_beq k key then true else occurs key keys

module _ (live : Livego) where
  -- The steps of the server but for a `GetWriter` of the given key: a `GetWriter` of another key, a
  -- packet that is written to the source at a pointer or a round of that source, a round of
  -- `checkStop`.
  pub data Runs (key : Text) (srv srv' : Server live) : Type 0 where
    opens : (k : Text) → k ≢ key → srv' ≡ (get_writer live k srv).1 → Runs key srv srv'
    runs :
        (a : ℕ) (s : Source live)
        → SourceStep live (srv.heap a) s
        → srv' ≡ record srv { heap = store_source live srv.heap a s }
        → Runs key srv srv'
    stops : (now : ℕ) (keys : List Text) → srv' ≡ check_stop live now keys srv → Runs key srv srv'

  pub data Goes (key : Text) (srv : Server live) : Server live → Type 0 where
    here : Goes key srv srv
    next : {t u : Server live} → Goes key srv t → Runs key t u → Goes key srv u

  check_conn-gone :
      (now : ℕ) (key k : Text) (srv : Server live)
      → lookup key srv.conns ≡ none
      → lookup key (check_conn live now k srv).conns ≡ none
  unfolding check_conn
  check_conn-gone now key k srv e = elim (Option-cases (lookup k srv.conns)) [
    | inl f ↦ rw (check_conn, f) e
    | inr (a, f) ↦ rw (check_conn, f) (alive (live.alive now (srv.heap a).base))
  ]
    where
      alive :
          (b : Bool)
          → lookup key (if b then srv else record srv { conns = delete k srv.conns }).conns ≡ none
      alive true = e
      alive false = ground (arith, lookup-delete k key srv.conns, e)

  check_stop-gone :
      (now : ℕ) (key : Text) (keys : List Text) (srv : Server live)
      → lookup key srv.conns ≡ none
      → lookup key (check_stop live now keys srv).conns ≡ none
  unfolding check_stop
  check_stop-gone now key [] srv e = e
  check_stop-gone now key (k ∷ keys) srv e =
      check_stop-gone now key keys (check_conn live now k srv) (check_conn-gone now key k srv e)

  get_writer-gone :
      (key k : Text) (srv : Server live)
      → k ≢ key
      → lookup key srv.conns ≡ none
      → lookup key (get_writer live k srv).1.conns ≡ none
  unfolding get_writer
  get_writer-gone key k srv n e = elim (Option-cases (lookup k srv.conns)) [
    | inl f ↦
        rw (get_writer, f)
          (elim (Bool-cases (text_beq k key)) [
            | inl same ↦ absurd (n ((text_beq_iff k key).0 same))
            | inr other ↦ rw (lookup-put k key srv.next srv.conns, other) e
          ])
    | inr (a, f) ↦ rw (get_writer, f) e
  ]

  Goes-gone :
      (key : Text) (srv srv' : Server live)
      → lookup key srv.conns ≡ none
      → Goes key srv srv'
      → lookup key srv'.conns ≡ none
  Goes-gone key srv srv' e here = e
  Goes-gone key srv srv' e (next {t} g (opens k n f)) =
      rw f (get_writer-gone key k t n (Goes-gone key srv t e g))
  Goes-gone key srv srv' e (next {t} g (runs a s st f)) = rw f (Goes-gone key srv t e g)
  Goes-gone key srv srv' e (next {t} g (stops now keys f)) =
      rw f (check_stop-gone now key keys t (Goes-gone key srv t e g))

  -- The key leads to a source that is silent for too long, or to none any more.
  abbrev IsSilent : ℕ → Text → ℕ → Server live → Type 0
  IsSilent now key a srv =
      (lookup key srv.conns ≡ none)
      ⊎ ((lookup key srv.conns ≡ some a) × (live.alive now (srv.heap a).base ≡ false))

  check_conn-IsSilent :
      (now : ℕ) (key k : Text) (a : ℕ) (srv : Server live)
      → IsSilent now key a srv
      → IsSilent now key a (check_conn live now k srv)
  check_conn-IsSilent now key k a srv (inl e) = inl (check_conn-gone now key k srv e)
  check_conn-IsSilent now key k a srv (inr (e, f)) = elim (Option-cases (lookup k srv.conns)) [
    | inl g ↦
        inr (unfold check_conn in rw (check_conn, g) e, unfold check_conn in rw (check_conn, g) f)
    | inr (b, g) ↦
        unfold check_conn in rw (check_conn, g) (looked (live.alive now (srv.heap b).base))
  ]
    where
      looked :
          (alive : Bool)
          → IsSilent now key a (if alive then srv else record srv { conns = delete k srv.conns })
      looked true = inr (e, f)
      looked false = elim (Bool-cases (text_beq k key)) [
        | inl same ↦ inl (rw (lookup-delete k key srv.conns, same) refl)
        | inr other ↦ inr (rw (lookup-delete k key srv.conns, other) e, f)
      ]

  check_conn-drops :
      (now : ℕ) (key : Text) (a : ℕ) (srv : Server live)
      → IsSilent now key a srv
      → lookup key (check_conn live now key srv).conns ≡ none
  check_conn-drops now key a srv (inl e) = check_conn-gone now key key srv e
  check_conn-drops now key a srv (inr (e, f)) =
      let same : text_beq key key ≡ true = (text_beq_iff key key).1 refl in
      unfold check_conn in rw (check_conn, e, f, lookup-delete key key srv.conns, same) refl

  check_stop-drops :
      (now : ℕ) (key : Text) (keys : List Text) (a : ℕ) (srv : Server live)
      → occurs key keys ≡ true
      → IsSilent now key a srv
      → lookup key (check_stop live now keys srv).conns ≡ none
  unfolding check_stop
  check_stop-drops now key [] a srv o v = absurd (cc o)
  check_stop-drops now key (k ∷ keys) a srv o v = elim (Bool-cases (text_beq k key)) [
    | inl same ↦
        check_stop-gone now key keys (check_conn live now k srv)
          (rw ((text_beq_iff k key).0 same) (check_conn-drops now key a srv v))
    | inr other ↦
        check_stop-drops now key keys a (check_conn live now k srv) (rw other at o)
          (check_conn-IsSilent now key k a srv v)
  ]

  handle_m3u8-gone :
      (srv : Server live) (key room name : Text)
      → IsStreamKey key room name
      → lookup key srv.conns ≡ none
      → handle_m3u8 live srv (list_url key) ≡ forbidden
  unfolding handle_m3u8 get_conn
  handle_m3u8-gone srv key room name k e =
      let conn : get_conn live srv (parse_m3u8 (list_url key)) ≡ none =
        ap (get_conn live srv) (parse_m3u8_url key room name k) ∙ missing in
      ap
        (λ (o : Option (Source live)). elim o [
          | none ↦ forbidden
          | some s ↦ play_list (gen_m3u8_play_list s.ts_cache)
        ])
        conn
    where
      missing : get_conn live srv key ≡ none
      missing = rw (get_conn, e) refl

  handle_ts-gone :
      (srv : Server live) (key room name : Text) (time : ℕ)
      → IsStreamKey key room name
      → lookup key srv.conns ≡ none
      → handle_ts live srv (segment_name key time) ≡ forbidden
  unfolding handle_ts get_conn
  handle_ts-gone srv key room name time k e =
      let conn : get_conn live srv (parse_ts (segment_name key time)) ≡ none =
        ap (get_conn live srv) (parse_ts_name key room name time k) ∙ missing in
      ap
        (λ (o : Option (Source live)). elim o [
          | none ↦ forbidden
          | some s ↦ (elim (get_item s.ts_cache (segment_name key time)) [
            | none ↦ bad_request
            | some x ↦ segment x.bytes
          ])
        ])
        conn
    where
      missing : get_conn live srv key ≡ none
      missing = rw (get_conn, e) refl

  list_refused :
      (srv : Server live) (key room name : Text)
      → IsStreamKey key room name
      → lookup key srv.conns ≡ none
      → handle live srv (list_url key) ≡ forbidden
  unfolding handle
  list_refused srv key room name k e =
      let f = list_url-IsFile key room name k in
      let other = IsFile-base _ _ _ _ f (λ h. cc h) in
      let kind : text_beq (ext (list_url key)) m3u8 ≡ true = rw (IsFile-ext _ _ _ _ f) refl in
      rw (other, kind) (handle_m3u8-gone srv key room name k e)

  segment_refused :
      (srv : Server live) (key room name : Text) (time : ℕ)
      → IsStreamKey key room name
      → lookup key srv.conns ≡ none
      → handle live srv (segment_name key time) ≡ forbidden
  unfolding handle
  segment_refused srv key room name time k e =
      let f = segment_name-IsFile key time in
      let other = IsFile-base _ _ _ _ f (λ h. cc h) in
      let url = segment_name key time in
      let no_list : text_beq (ext url) m3u8 ≡ false = rw (IsFile-ext _ _ _ _ f) refl in
      let kind : text_beq (ext url) ts ≡ true = rw (IsFile-ext _ _ _ _ f) refl in
      rw (other, no_list, kind) (handle_ts-gone srv key room name time k e)

  -- A source that is not alive when `checkStop` makes a round over its key is gone for good, also
  -- if its queue goes on: whatever is then written to that source or to others, whichever sources
  -- run, whatever other keys get a source, and however often `checkStop` runs, every request for
  -- the play list of the key, and for each of its segments, is refused. That holds as long as
  -- `GetWriter` is not called for this key again, and of a key of the form `room/name` with a room
  -- that is not empty, no other slash and no dot.
  pub dropped_stays :
      (now : ℕ) (keys : List Text) (srv srv' : Server live) (key room name : Text) (a : ℕ)
      → IsStreamKey key room name
      → lookup key srv.conns ≡ some a
      → live.alive now (srv.heap a).base ≡ false
      → occurs key keys ≡ true
      → Goes key (check_stop live now keys srv) srv'
      → (handle live srv' (list_url key) ≡ forbidden)
        × ((time : ℕ) → handle live srv' (segment_name key time) ≡ forbidden)
  dropped_stays now keys srv srv' key room name a k there silent o g =
      let gone =
        Goes-gone key _ srv' (check_stop-drops now key keys a srv o (inr (there, silent))) g in
      (
        list_refused srv' key room name k gone,
        λ time. segment_refused srv' key room name time k gone,
      )
