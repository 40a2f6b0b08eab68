-- ===== src/App/Registry/Answers.antt =====
-- Requests keep the tables of the node.
use rtp_http_flv.Prelude.{
  slash, ℕ, ◌+◌, ◌≡◌, refl, ap, ◌∙◌, subst, not, Bool-cases, inl, inr, List, some, ◌==◌,
  if◌then◌else◌, Text, lookup, nat_eq, text_eq, arith, Run, done, panics, blocks, out_of_fuel,
  >>=-eq-done, done-inj, deref, recover_with, split_2, trim_left, trim_suffix, length,
}
use rtp_http_flv.HttpFlv.Writer.{fresh}
use rtp_http_flv.Cache.Queue.{Deps}
use rtp_http_flv.Cache.Queue.Extract.{store_at}
use rtp_http_flv.App.{Stream, App}
use rtp_http_flv.App.Handler.{
  Answer, bad_request, nothing, is_flv, flv, has_channel, handle_new_flv_writer_request,
  open_stream, handle_conn, ssrc_of, joined,
}
use rtp_http_flv.App.Registry.{IsApp, update-IsRegistry}

-- What a request does to the node: nothing, or a new client joins a stream that is there.
module _ (d : Deps) where
  pub data Joins (app app' : App d) : Type 0 where
    stays : app ≡ app' → Joins app app'
    joins :
        (ssrc : ℕ) (st : Stream d)
        → lookup ssrc app.rtp_queue_map ≡ some st
        → joined d app ssrc st ≡ app'
        → Joins app app'

  -- The state of an answer that is known.
  stays_at :
      (a : Answer) (app : App d) (r : Answer × App d)
      → ◌≡◌ {A = Run (Answer × App d)} (done (a, app)) (done r)
      → Joins app r.1
  stays_at a app r e = stays (ap (λ (x : Answer × App d). x.1) (done-inj _ _ e))

  open_stream-Joins :
      (app : App d) (path : Text) (paths : List Text) (r : Answer × App d)
      → open_stream d app path paths ≡ done r
      → Joins app r.1
  unfolding open_stream handle_new_flv_writer_request
  open_stream-Joins app path paths r h = elim (Bool-cases (not (length paths == 2))) [
    | inl bad ↦ stays_at bad_request app r (rw bad at h)
    | inr good ↦
        let app1 : App d = record app {
          heap = store_at app.heap app.next fresh;
          next = app.next + 1;
        } in
        let (app2, a, f) =
          >>=-eq-done (handle_new_flv_writer_request d app1 path app.next) _ (rw good at h) in
        let ssrc = ssrc_of path app.key_ssrc_map in
        let (st, b, g) = >>=-eq-done (deref (lookup ssrc app.rtp_queue_map)) _ a in
        let found : lookup ssrc app.rtp_queue_map ≡ some st = ground (arith, b) in
        joins ssrc st found (done-inj _ _ g ∙ ap (λ (x : Answer × App d). x.1) (done-inj _ _ f))
  ]

  -- The state that a handler leaves: the old one after a panic.
  recover-Joins :
      (m : Run (Answer × App d)) (app : App d) (r : Answer × App d)
      → ((t : Answer × App d) → m ≡ done t → Joins app t.1)
      → recover_with (nothing, app) m ≡ done r
      → Joins app r.1
  recover-Joins (done t) app r k h =
      subst (λ (x : Answer × App d). Joins app x.1) (done-inj t r h) (k t refl)
  recover-Joins panics app r k h = stays_at nothing app r h
  recover-Joins blocks app r k h = absurd (cc h)
  recover-Joins out_of_fuel app r k h = absurd (cc h)

  pub handle_conn-Joins :
      (app : App d) (u : Text) (r : Answer × App d) → handle_conn d app u ≡ done r → Joins app r.1
  unfolding handle_conn
  handle_conn-Joins app u r h = recover-Joins _ app r inside h
    where
      inside :
          (t : Answer × App d)
          → (if not (is_flv u)
              then done (bad_request, app)
              else (let path = trim_suffix (trim_left slash u) flv in
                  if not (has_channel d app path)
                  then done (nothing, app)
                  else open_stream d app path (split_2 slash path)))
            ≡ done t
          → Joins app t.1
      inside t e = elim (Bool-cases (not (is_flv u))) [
        | inl bad ↦ stays_at bad_request app t (rw bad at e)
        | inr good ↦
            let path = trim_suffix (trim_left slash u) flv in
            elim (Bool-cases (not (has_channel d app path))) [
              | inl unknown ↦ stays_at nothing app t (rw (good, unknown) at e)
              | inr known ↦
                  open_stream-Joins app path (split_2 slash path) t (rw (good, known) at e)
            ]
      ]

  Joins-IsApp : (app app' : App d) → IsApp d app → Joins app app' → IsApp d app'
  Joins-IsApp app app' v (stays e) = subst (IsApp d) e v
  Joins-IsApp app app' v (joins ssrc st found e) = subst (IsApp d) e (
      update-IsRegistry d app.rtp_queue_map app.key_ssrc_map ssrc st
        (record st {
          q = record st.q { flv_writers = d.clients.add st.q.flv_writers (some app.next) };
        })
        v found refl refl)

  pub handle_conn-IsApp :
      (app : App d) (u : Text) (r : Answer × App d)
      → IsApp d app
      → handle_conn d app u ≡ done r
      → IsApp d r.1
  handle_conn-IsApp app u r v h = Joins-IsApp app r.1 v (handle_conn-Joins app u r h)
