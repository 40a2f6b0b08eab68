-- ===== src/App/Requests.antt =====
-- A viewer's request, from the path of the URL to the list of the stream's clients.
use rtp_http_flv.Prelude.{
  slash, dot, ℕ, ◌+◌, ◌≡◌, ◌≢◌, refl, true, [], ◌∷◌, ◌++◌, some, Text, codes, lookup, nat_eq,
  text_eq, split_2, trim_left, trim_suffix, from_last, Without, from_last-append,
  trim_suffix-append, split_2-append, append_assoc, done, arith,
}
use rtp_http_flv.HttpFlv.Writer.{fresh}
use rtp_http_flv.Cache.Queue.{Deps}
use rtp_http_flv.Cache.Queue.Extract.{store_at}
use rtp_http_flv.App.{Stream, App}
use rtp_http_flv.App.Registry.{IsApp}
use rtp_http_flv.App.Handler.{
  joined, streams, flv, is_flv, ssrc_of, has_channel, handle_new_flv_writer_request, open_stream,
  handle_conn,
}

-- The path of the URL for a key.
abbrev pub url_of : Text → Text
url_of key = slash ∷ (key ++ flv)

-- A key as the cloud node makes it: the name of the application, a slash, the name of the stream.
pub record IsKey (key room name : Text) : Type 0 where
  pub parts : key ≡ room ++ slash ∷ name
  pub first : Without slash room
  pub letter : room ≢ []

is_flv_url : (key : Text) → is_flv (url_of key) ≡ true
is_flv_url key =
    let last : from_last dot (slash ∷ key ++ dot ∷ codes "flv") ≡ some (dot ∷ codes "flv") =
      from_last-append dot (slash ∷ key) (codes "flv")
        (λ e. omega arith, (λ e. omega arith, (λ e. omega arith, tt))) in
    rw (is_flv, last) refl

trim_left_room :
    (room rest : Text)
    → room ≢ []
    → Without slash room
    → trim_left slash (room ++ rest) ≡ room ++ rest
trim_left_room [] rest n w = absurd (n refl)
trim_left_room (x ∷ room) rest n w = ground (arith, w.0)

path_url :
    (key room name : Text)
    → IsKey key room name
    → trim_suffix (trim_left slash (url_of key)) flv ≡ key
path_url key room name k =
    let whole : key ++ flv ≡ room ++ (slash ∷ name ++ flv) =
      rw k.parts (append_assoc room (slash ∷ name) flv) in
    let trimmed : trim_left slash (url_of key) ≡ key ++ flv =
      rw whole (trim_left_room room (slash ∷ name ++ flv) k.letter k.first) in
    rw trimmed (trim_suffix-append key flv)

module _ (d : Deps) where
  -- A request for the path of a known key, `/room/name.flv`, is answered with the stream: the viewer gets
  -- a fresh writer, which becomes the last client of the stream that has this key; no other stream,
  -- key or writer changes.
  pub handle_conn_streams :
      (app : App d) (key room name : Text) (ssrc : ℕ)
      → IsApp d app
      → IsKey key room name
      → lookup key app.key_ssrc_map ≡ some ssrc
      → ssrc ≢ 0
      → (st : Stream d) × (lookup ssrc app.rtp_queue_map ≡ some st)
        × (st.channel_key ≡ key)
        × (handle_conn d app (url_of key) ≡ done (streams app.next, joined d app ssrc st))
        × (d.clients.values (d.clients.add st.q.flv_writers (some app.next))
            ≡ d.clients.values st.q.flv_writers ++ some app.next ∷ [])
  unfolding handle_conn open_stream
  handle_conn_streams app key room name ssrc v k e n =
      let (st, found, own) = v.reachable key ssrc e in
      let number : ssrc_of key app.key_ssrc_map ≡ ssrc = rw (ssrc_of, e) refl in
      let known : has_channel d app key ≡ true = unfold has_channel in ground (arith, n, number) in
      let app1 : App d = record app {
        heap = store_at app.heap app.next fresh;
        next = app.next + 1;
      } in
      let added : handle_new_flv_writer_request d app1 key app.next ≡ done (joined d app ssrc st) =
        unfold handle_new_flv_writer_request in rw (number, found) refl in
      let two : split_2 slash key ≡ room ∷ name ∷ [] =
        rw k.parts (split_2-append slash room name k.first) in
      let path = path_url key room name k in
      (
        st,
        found,
        own,
        rw (is_flv_url key, path, two, known, added) refl,
        d.clients.values-add st.q.flv_writers (some app.next),
      )
