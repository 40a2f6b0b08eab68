-- ===== src/Hls/Server/Follows.antt =====
-- A player that follows a stream: it asks for the play list, and then for each segment that it names.
use rtp_http_flv.Prelude.{
  ℕ, ◌≤◌, ◌≡◌, refl, ap, subst, ◌∙◌, true, false, Option-cases, inl, inr, List, [], ◌∷◌, ◌++◌,
  Option, none, some, Text, text_beq, lookup, text_eq, All, ext,
}
use rtp_http_flv.Hls.TsCache.{TsItem, Scan, scan, scan_item, get_item, gen_m3u8_play_list}
use rtp_http_flv.Hls.Livego.{Livego}
use rtp_http_flv.Hls.Source.{Source, duration}
use rtp_http_flv.Hls.Source.Names.{segment_name}
use rtp_http_flv.Hls.Source.Segments.{IsSource}
use rtp_http_flv.Hls.Server.{
  forbidden, bad_request, play_list, segment, m3u8, ts, parse_m3u8, parse_ts, Server, get_conn,
  handle_m3u8, handle_ts, handle,
}
use rtp_http_flv.Hls.Server.Paths.{
  IsStreamKey, IsFile-ext, IsFile-base, list_url, list_url-IsFile, segment_name-IsFile,
  parse_m3u8_url, parse_ts_name,
}

module _ (P : ℕ × Text → Type 0) (lm : List (Text × TsItem)) where
  abbrev Rows : Type 0
  Rows = (name : Text) (item : TsItem) → lookup name lm ≡ some item → P (item.duration, item.name)

  All-append_one : (xs : List (ℕ × Text)) (x : ℕ × Text) → All P xs → P x → All P (xs ++ x ∷ [])
  All-append_one [] x a b = (b, tt)
  All-append_one (y ∷ xs) x a b = (a.0, All-append_one xs x a.1 b)

  scan_item-All :
      (s : Scan) (name : Text) → Rows → All P s.body → All P (scan_item s (lookup name lm)).body
  scan_item-All s name r a = elim (Option-cases (lookup name lm)) [
    | inl e ↦ rw e a
    | inr (item, e) ↦ rw e (All-append_one s.body (item.duration, item.name) a (r name item e))
  ]

  -- What holds of every segment that the cache finds holds of every row of its play list.
  scan-All : (s : Scan) (ll : List Text) → Rows → All P s.body → All P (scan lm s ll).body
  unfolding scan
  scan-All s [] r a = a
  scan-All s (name ∷ ll) r a =
      scan-All (scan_item s (lookup name lm)) ll r (scan_item-All s name r a)

m3u8_beq : text_beq m3u8 m3u8 ≡ true
m3u8_beq = refl

module _ (live : Livego) where
  -- The answer for the row of a play list: the segment of that name, of this duration.
  abbrev pub Served : Server live → Source live → ℕ × Text → Type 0
  Served srv s (time, name) =
      (item : TsItem) × (get_item s.ts_cache name ≡ some item)
      × (item.duration ≡ time)
      × (duration ≤ time)
      × (handle live srv name ≡ segment item.bytes)

  get_conn-some :
      (srv : Server live) (key : Text) (a : ℕ)
      → lookup key srv.conns ≡ some a
      → get_conn live srv key ≡ some (srv.heap a)
  unfolding get_conn
  get_conn-some srv key a e = rw (get_conn, e) refl

  handle_m3u8_list :
      (srv : Server live) (key room name : Text) (a : ℕ)
      → IsStreamKey key room name
      → lookup key srv.conns ≡ some a
      → handle_m3u8 live srv (list_url key) ≡ play_list (gen_m3u8_play_list (srv.heap a).ts_cache)
  unfolding handle_m3u8
  handle_m3u8_list srv key room name a k e =
      let conn : get_conn live srv (parse_m3u8 (list_url key)) ≡ some (srv.heap a) =
        ap (get_conn live srv) (parse_m3u8_url key room name k) ∙ get_conn-some srv key a e in
      ap
        (λ (o : Option (Source live)). elim o [
          | none ↦ forbidden
          | some s ↦ play_list (gen_m3u8_play_list s.ts_cache)
        ])
        conn

  handle_ts_known :
      (srv : Server live) (key room name : Text) (a now : ℕ) (item : TsItem)
      → IsStreamKey key room name
      → lookup key srv.conns ≡ some a
      → get_item (srv.heap a).ts_cache (segment_name key now) ≡ some item
      → handle_ts live srv (segment_name key now) ≡ segment item.bytes
  unfolding handle_ts
  handle_ts_known srv key room name a now item k e h =
      let url = segment_name key now in
      let conn : get_conn live srv (parse_ts url) ≡ some (srv.heap a) =
        ap (get_conn live srv) (parse_ts_name key room name now k) ∙ get_conn-some srv key a e in
      ap
        (λ (o : Option (Source live)). elim o [
          | none ↦ forbidden
          | some s ↦ (elim (get_item s.ts_cache url) [
            | none ↦ bad_request
            | some x ↦ segment x.bytes
          ])
        ])
        conn
      ∙ ap (λ (o : Option TsItem). elim o [ none ↦ bad_request | some x ↦ segment x.bytes ]) h

  handle_list :
      (srv : Server live) (key room name : Text) (a : ℕ)
      → IsStreamKey key room name
      → lookup key srv.conns ≡ some a
      → handle live srv (list_url key) ≡ play_list (gen_m3u8_play_list (srv.heap a).ts_cache)
  unfolding handle
  handle_list srv key room name a k e =
      let f = list_url-IsFile key room name k in
      let other = IsFile-base _ _ _ _ f (λ h. cc h) in
      let kind : text_beq (ext (list_url key)) m3u8 ≡ true = rw (IsFile-ext _ _ _ _ f) refl in
      let answer : handle_m3u8 live srv (list_url key)
          ≡ play_list (gen_m3u8_play_list (srv.heap a).ts_cache) =
        handle_m3u8_list srv key room name a k e in
      rw (other, kind) answer

  handle_known :
      (srv : Server live) (key room name : Text) (a now : ℕ) (item : TsItem)
      → IsStreamKey key room name
      → lookup key srv.conns ≡ some a
      → get_item (srv.heap a).ts_cache (segment_name key now) ≡ some item
      → handle live srv (segment_name key now) ≡ segment item.bytes
  unfolding handle
  handle_known srv key room name a now item k e h =
      let f = segment_name-IsFile key now in
      let other = IsFile-base _ _ _ _ f (λ h. cc h) in
      let url = segment_name key now in
      let no_list : text_beq (ext url) m3u8 ≡ false = rw (IsFile-ext _ _ _ _ f) refl in
      let kind : text_beq (ext url) ts ≡ true = rw (IsFile-ext _ _ _ _ f) refl in
      let answer : handle_ts live srv url ≡ segment item.bytes =
        handle_ts_known srv key room name a now item k e h in
      rw (other, no_list, kind) answer

  -- A player that asks for the play list of a key that the server knows gets the list of the source that
  -- stands under it; and each name of that list, when it is asked for next, is answered with the bytes
  -- of the segment of that name, which lasts as long as the list says, and at least three seconds.
  pub handle_follows :
      (srv : Server live) (key room name : Text) (a : ℕ)
      → IsStreamKey key room name
      → lookup key srv.conns ≡ some a
      → IsSource live key (srv.heap a)
      → let p = gen_m3u8_play_list (srv.heap a).ts_cache in
        (handle live srv (list_url key) ≡ play_list p) × All (Served srv (srv.heap a)) p.entries
  unfolding gen_m3u8_play_list
  handle_follows srv key room name a k e v =
      let s = srv.heap a in
      (
        unfold gen_m3u8_play_list in handle_list srv key room name a k e,
        scan-All (Served srv s) s.ts_cache.lm
            (record { seq = 0; get_seq = false; max_duration = 0; body = [] }) s.ts_cache.ll served
            tt,
      )
    where
      served :
          (n : Text) (item : TsItem)
          → lookup n (srv.heap a).ts_cache.lm ≡ some item
          → Served srv (srv.heap a) (item.duration, item.name)
      served n item h =
          let g = v.segments n item h in
          let (now, path) = g.path in
          let found : get_item (srv.heap a).ts_cache (segment_name key now) ≡ some item =
            unfold get_item in
            subst (λ t. lookup t (srv.heap a).ts_cache.lm ≡ some item)
              (path ∙ ap (λ t. segment_name t now) v.own) h in
          let called : item.name ≡ segment_name key now =
            g.named ∙ path ∙ ap (λ t. segment_name t now) v.own in
          rw called (item, found, refl, g.long, handle_known srv key room name a now item k e found)
