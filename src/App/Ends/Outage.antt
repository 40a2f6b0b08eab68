-- ===== src/App/Ends/Outage.antt =====
-- `CheckAlive` of cache/App.go when the cloud node cannot be asked.
use rtp_http_flv.Prelude.{
  ℕ, ◌≡◌, ◌≢◌, refl, Bool, true, false, if◌then◌else◌, inl, inr, List, [], ◌∷◌, none, lookup,
  delete, nat_eq, text_eq, Text, arith, done, Option-cases,
}
use rtp_http_flv.Publishers.{update_publishers, get}
use rtp_http_flv.Cache.Queue.{Deps}
use rtp_http_flv.App.{Outside, Config, App, publisher_of}
use rtp_http_flv.App.Streams.{refresh}
use rtp_http_flv.App.Alive.{close_queue, check_stream, check_streams, check_alive}
use rtp_http_flv.App.Registry.{IsApp}
use rtp_http_flv.App.Ends.{is_published, occurs, check_alive_leaves, check_streams-Kept}

module _ (d : Deps) (out : Outside d.node.Net) (conf : Config) where
  -- `CloseQuic` returns.
  abbrev pub Closes : Type 0
  Closes = (net : d.node.Net) → (net' : d.node.Net) × (out.close_quic net ≡ done net')

  check_stream-done :
      (ssrc : ℕ) (app : App d)
      → Closes
      → (app' : App d) × (check_stream d out conf ssrc app ≡ done app')
  unfolding check_stream
  check_stream-done ssrc app c = elim (Option-cases (publisher_of ssrc app.publishers)) [
    | inr (info, e) ↦ (app, rw (check_stream, e) refl)
    | inl e ↦ elim (Option-cases (lookup ssrc app.rtp_queue_map)) [
      | inl f ↦ (app, rw (check_stream, e, f) refl)
      | inr (st, f) ↦
          let app1 : App d = record app {
            key_ssrc_map = delete st.channel_key app.key_ssrc_map;
            rtp_queue_map = delete st.q.ssrc app.rtp_queue_map;
          } in
          let (net', k) = c (close_queue d out conf st app1).net in
          (record (close_queue d out conf st app1) { net = net' }, rw (check_stream, e, f, k) refl)
    ]
  ]

  check_streams-done :
      (order : List ℕ) (app : App d)
      → Closes
      → (app' : App d) × (check_streams d out conf order app ≡ done app')
  unfolding check_streams
  check_streams-done [] app c = (app, refl)
  check_streams-done (ssrc ∷ order) app c =
      let (app1, a) = check_stream-done ssrc app c in
      let (app', b) = check_streams-done order app1 c in (app', rw a b)

  outage :
      (order : List ℕ) (app : App d) (net' : d.node.Net)
      → IsApp d app
      → ((ssrc : ℕ) → lookup ssrc app.rtp_queue_map ≢ none → occurs ssrc order ≡ true)
      → Closes
      → out.fetch app.net ≡ done (none, net')
      → (app' : App d) × (check_alive d out conf true order app ≡ done app')
        × ((ssrc : ℕ) → lookup ssrc app'.rtp_queue_map ≡ none)
        × ((key : Text) → lookup key app'.key_ssrc_map ≡ none)
  outage order app net' v all c h =
      let app1 : App d = record app { publishers = none; net = net' } in
      let asked : refresh d out conf app ≡ done app1 =
        unfold refresh update_publishers get in rw h refl in
      let (app', a) = check_streams-done order app1 c in
      let b : check_alive d out conf true order app ≡ done app' =
        unfold check_alive in rw asked a in
      let (left, keys) = check_alive_leaves d out conf true order app app' v all b in
      let gone : app'.publishers ≡ none =
        (check_streams-Kept d out conf order app1 app' v a).publishers in
      let unpublished : (ssrc : ℕ) → is_published ssrc app'.publishers ≡ false =
        λ ssrc. rw gone refl in
      (
        app',
        b,
        λ ssrc. ground (arith, left ssrc, unpublished ssrc),
        λ key. elim (Option-cases (lookup key app'.key_ssrc_map)) [
          | inl e ↦ e
          | inr (ssrc, e) ↦ absurd (ground (arith, keys key ssrc e, unpublished ssrc))
        ],
      )

  -- When the request for the statistics fails, and connections can be closed, a round of `CheckAlive`
  -- over an order in which every stream occurs returns; and whatever the cloud node still publishes, no
  -- stream is left and no key leads to one, if `INIT` is set. Where `INIT` is not set, the round
  -- returns as well, and every stream and every key is left as it was.
  pub check_alive_outage :
      (init : Bool) (order : List ℕ) (app : App d) (net' : d.node.Net)
      → IsApp d app
      → ((ssrc : ℕ) → lookup ssrc app.rtp_queue_map ≢ none → occurs ssrc order ≡ true)
      → Closes
      → out.fetch app.net ≡ done (none, net')
      → (app' : App d) × (check_alive d out conf init order app ≡ done app')
        × ((ssrc : ℕ)
            → lookup ssrc app'.rtp_queue_map
              ≡ (if init then none else lookup ssrc app.rtp_queue_map))
        × ((key : Text)
            → lookup key app'.key_ssrc_map ≡ (if init then none else lookup key app.key_ssrc_map))
  check_alive_outage true order app net' v all c h = outage order app net' v all c h
  check_alive_outage false order app net' v all c h =
      (app, unfold check_alive in refl, λ ssrc. refl, λ key. refl)
