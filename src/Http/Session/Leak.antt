-- ===== src/Http/Session/Leak.antt =====
-- Two subscriptions of one WebSocket session under one id.
use usps_main.Common.{
  ◌≡◌, refl, sym, ap, ◌∙◌, subst, String, Bool, true, false, ℕ, List, [], ◌∷◌, some, ◌==◌, any,
  keep, not, length, length-append, set, arith, str_eq, str_eq_refl, str_eq_iff, eq→==,
  if◌then◌else◌, Bool-cases, inl, inr,
}
use usps_main.Common.Maps.{
  index, insert, lookup, index-insert, index-lookup, lookup-insert_self, Map,
}
use usps_main.Api.Broker.{Broker, Channel, subscribe, unsubscribe, drop_sub}
use usps_main.Api.Broker.Sets.{Holds, any-keep, index-left_over, drop_sub-left_over}
use usps_main.Api.Broker.Sends.{get_elem?-last}
use usps_main.Http.Backend.{Backend}
use usps_main.Model.{Any}
use usps_main.Api.Principal.{get_principal}
use usps_main.Http.Handlers.Plans.{is_planner}
use usps_main.Http.Handlers.Misc.{variable}
use usps_main.Http.Act.{Server, Web, Request, principal, ◌>>=◌, give}
use usps_main.Http.Handlers.Routes.{close_stream}
use usps_main.Http.Live.{then_run, bind_run}
use usps_main.Http.Session.{
  follow, clean_up, Subs, on_subscribe, on_message, session, subscribe_to, Message, Sent,
}

-- A later channel that leaves its route takes no other with it.
Holds-drop_later :
    (subs : Map (List ℕ)) (rid other : String) (ch gone : ℕ) (chs : List ℕ)
    → lookup other subs ≡ some chs
    → (gone == ch) ≡ false
    → Holds subs rid ch
    → Holds (drop_sub other gone subs) rid ch
Holds-drop_later subs rid other ch gone chs e apart h =
    let kept = keep (λ c. not (c == gone)) chs in
    let left : index [] rid (drop_sub other gone subs)
        ≡ (if str_eq other rid then kept else index [] rid subs) =
      ap (index [] rid) (drop_sub-left_over other gone subs chs e)
      ∙ index-left_over other rid subs kept in
    elim (Bool-cases (str_eq other rid)) [
      | inl same ↦
          let here : index [] rid subs ≡ chs =
            ap (λ k. index [] k subs) (sym ((str_eq_iff other rid).0 same))
            ∙ index-lookup [] other subs e in
          ap (any (λ c. c == ch)) (left ∙ ap (λ b. if b then kept else index [] rid subs) same)
          ∙ any-keep gone ch chs
          ∙ ground (arith, apart, subst (λ xs. any (λ c. c == ch) xs ≡ true) here h)
      | inr differs ↦
          ap (any (λ c. c == ch)) (left ∙ ap (λ b. if b then kept else index [] rid subs) differs)
          ∙ h
    ]

Holds-subscribe_new :
    (rid : String) (b : Broker) → Holds (subscribe rid b).0.subs rid (length b.channels)
unfolding subscribe
Holds-subscribe_new rid b =
    ap (any (λ c. c == length b.channels))
      (index-insert [] rid rid (length b.channels ∷ index [] rid b.subs) b.subs)
    ∙ ground (arith, str_eq_refl rid, eq→== (length b.channels) (length b.channels) refl)

Holds-subscribe_old :
    (rid other : String) (ch : ℕ) (b : Broker)
    → Holds b.subs rid ch
    → Holds (subscribe other b).0.subs rid ch
unfolding subscribe
Holds-subscribe_old rid other ch b h =
    ap (any (λ c. c == ch))
      (index-insert [] other rid (length b.channels ∷ index [] other b.subs) b.subs)
    ∙ (elim (Bool-cases (str_eq other rid)) [
      | inl same ↦
          let moved : index [] other b.subs ≡ index [] rid b.subs =
            ap (λ k. index [] k b.subs) ((str_eq_iff other rid).0 same) in
          ground (arith, same, h, ap (any (λ c. c == ch)) moved)
      | inr differs ↦ ground (arith, differs, h)
    ])

module _ (rid other : String) (b : Broker) where
  abbrev first : Broker
  first = (subscribe rid b).0

  abbrev second : Broker
  second = (subscribe other first).0

  -- The broker when the second channel has left.
  unsubscribe-second :
      (b' : Broker) × (unsubscribe other (length first.channels) second ≡ some b')
      × Holds b'.subs rid (length b.channels)
  unfolding unsubscribe subscribe
  unsubscribe-second =
      let fresh : Channel = record { buffer = []; closed = false } in
      let gone = length first.channels in
      let b' : Broker = record {
        subs = drop_sub other gone second.subs;
        channels = set second.channels gone (record fresh { closed = true });
      } in
      (
        b',
        ground (arith, get_elem?-last first.channels fresh),
        Holds-drop_later second.subs rid other (length b.channels) gone
            (gone ∷ index [] other first.subs)
            (lookup-insert_self other (gone ∷ index [] other first.subs) first.subs)
            (ground (arith, length-append b.channels (fresh ∷ [])))
            (Holds-subscribe_old rid other (length b.channels) first (Holds-subscribe_new rid b)),
      )

module _ {S : Type 0} (api : Backend S) (web : Web) where
  close_stream-run :
      (route : String) (ch : ℕ) (s : Server S) (b' : Broker)
      → unsubscribe route ch s.broker ≡ some b'
      → close_stream api web route ch s ≡ (record s { broker = b' }, some tt)
  unfolding close_stream
  close_stream-run route ch s b' e = rw (e, close_stream)

  clean_up-run :
      (id route : String) (ch : ℕ) (s : Server S) (b' : Broker)
      → unsubscribe route ch s.broker ≡ some b'
      → clean_up api web ((id, (route, ch)) ∷ []) s ≡ (record s { broker = b' }, some tt)
  unfolding clean_up give
  clean_up-run id route ch s b' e =
      let run = close_stream-run route ch s b' e in
      then_run (close_stream api web route ch) (give tt) s tt (ap (λ o. o.1) run)
      ∙ ap (λ o. (o.0, some tt)) run

  -- The server with the key set that the verification of the request's token leaves.
  abbrev pub with_keys : Request → Server S → Server S
  with_keys r s = record s { auth = (get_principal web.auth s.auth r.headers).0 }

  abbrev pub plans : Request → Server S → Bool
  plans r s = is_planner (get_principal web.auth s.auth r.headers).1

  on_subscribe-run :
      (r : Request) (id rid : String) (subs : Subs) (s : Server S)
      → plans r s ≡ true
      → on_subscribe api web r id rid subs s ≡ follow api web id rid subs (with_keys r s)
  unfolding on_subscribe principal ◌>>=◌
  on_subscribe-run r id rid subs s p = ground (arith, p)

  -- The states between the two subscriptions and behind them.
  abbrev once : Request → String → Server S → Server S
  once r rid s = record (with_keys r s) { broker = (subscribe rid s.broker).0 }

  on_message-run :
      (r : Request) (id query : String) (vars : Map Any) (subs : Subs) (s : Server S)
      → plans r s ≡ true
      → on_message api web r (subscribe_to id query vars) subs s ≡ (
        once r (variable api web "routeId" vars) s,
        some (insert id (variable api web "routeId" vars, length s.broker.channels) subs, []),
      )
  unfolding on_message follow subscribe
  on_message-run r id query vars subs s p =
      on_subscribe-run r id (variable api web "routeId" vars) subs s p

  session-step :
      (r : Request) (msg : Message) (msgs : List Message) (subs : Subs) (s s' : Server S)
      (v : Subs × List Sent)
      → on_message api web r msg subs s ≡ (s', some v)
      → session api web r (msg ∷ msgs) subs s ≡ session api web r msgs v.0 s'
  unfolding session
  session-step r msg msgs subs s s' v e =
      bind_run (on_message api web r msg subs) (λ done. session api web r msgs done.0) s v
        (ap (λ o. o.1) e)
      ∙ ap (λ o. session api web r msgs v.0 o.0) e

  -- Where an administrator or a dispatcher subscribes twice under one id in one session, and the session
  -- then ends, the clean-up returns, and the channel of the first subscription stands in its route's set
  -- still: nothing closes it any more. The caller's role is the same at both messages.
  pub session-Holds :
      (r : Request) (id query query' : String) (vars vars' : Map Any) (s : Server S)
      → plans r s ≡ true
      → plans r (with_keys r s) ≡ true
      → let out =
          session api web r (subscribe_to id query vars ∷ subscribe_to id query' vars' ∷ []) [] s in
        (out.1 ≡ some tt)
        × Holds out.0.broker.subs (variable api web "routeId" vars) (length s.broker.channels)
  unfolding session insert
  session-Holds r id query query' vars vars' s p q =
      let rid = variable api web "routeId" vars in
      let other = variable api web "routeId" vars' in
      let ch = length (subscribe rid s.broker).0.channels in
      let s1 = once r rid s in
      let s2 = once r other s1 in
      let entry : Subs = insert id (rid, length s.broker.channels) [] in
      let m1 = subscribe_to id query vars in
      let m2 = subscribe_to id query' vars' in
      let (b', e, h) = unsubscribe-second rid other s.broker in
      let two =
        session-step r m1 (m2 ∷ []) [] s s1 _ (on_message-run r id query vars [] s p)
        ∙ session-step r m2 [] entry s1 s2 _ (on_message-run r id query' vars' entry s1 q)
        ∙ ap
            (λ c.
              clean_up api web
                (if c
                  then (id, (other, ch)) ∷ []
                  else (id, (rid, length s.broker.channels)) ∷ (id, (other, ch)) ∷ [])
                s2)
            (str_eq_refl id)
        ∙ clean_up-run id other ch s2 b' e in
      (
        ap (λ o. o.1) two,
        subst (λ o. Holds o.0.broker.subs rid (length s.broker.channels)) (sym two) h,
      )
