-- ===== src/Api/Broker/Safety.antt =====
-- Why the broker never sends on a closed channel, nor closes one twice.
use usps_main.Common.{
  ℕ, ◌≤◌, ◌≡◌, ◌⊎◌, inl, inr, refl, sym, ap, ◌∙◌, subst, String, true, false, Option, none, some,
  List, [], ◌∷◌, ◌++◌, ◌==◌, length, get_elem?, set, any, All, str_eq, str_eq_iff, eq→==, arith,
}
use usps_main.Common.Maps.{lookup, index}
use usps_main.Api.Broker.{
  SseEvent, Channel, Broker, new_broker, subscribe, drop_sub, unsubscribe, publish, receive,
  capacity,
}
use usps_main.Api.Broker.Sets.{Holds, Holds-subscribe, Holds-drop_sub}
use usps_main.Api.Broker.Sends.{
  Open, get_elem?-append, get_elem?-last, get_elem?-length, set-Open_ne, set-Open, offer_all-Sent,
  Holds-All,
}

-- Every channel in a route's set is open, and stands in the set of one route only.
abbrev pub IsSafe : Broker → Type 0
IsSafe b =
    ((route : String) (ch : ℕ) → Holds b.subs route ch → Open b.channels ch)
    × ((route other : String) (ch : ℕ)
        → Holds b.subs route ch
        → Holds b.subs other ch
        → str_eq route other ≡ true)

pub new_broker-IsSafe : IsSafe new_broker
unfolding new_broker index lookup
new_broker-IsSafe = ((λ route ch h. ground (arith, h)), (λ route other ch h k. ground (arith, h)))

-- The order in which Go ranges over a set names only what is in the set.
abbrev pub IsRange : (List ℕ → List ℕ) → Type 0
IsRange order = (chs : List ℕ) → All (λ ch. any (λ c. c == ch) chs ≡ true) (order chs)

pub publish-IsSafe :
    (order : List ℕ → List ℕ) (route : String) (evt : SseEvent) (b : Broker)
    → IsRange order
    → IsSafe b
    → (b' : Broker) × (publish order route evt b ≡ some b') × IsSafe b'
unfolding publish
publish-IsSafe order route evt b range (opened, apart) =
    let chs = index [] route b.subs in
    let sent =
      offer_all-Sent evt (order chs) b.channels
        (Holds-All b.channels (order chs) chs (opened route) (range chs)) in
    (
      record b { channels = sent.0 },
      ground (arith, sent.1),
      (λ r ch h. sent.2 ch (opened r ch h), apart),
    )

-- A channel that is made only now is in no set.
new-Apart :
    (b : Broker) (route : String) (ch : ℕ)
    → ((r : String) (j : ℕ) → Holds b.subs r j → Open b.channels j)
    → length b.channels ≡ ch
    → Holds b.subs route ch
    → ⊥
new-Apart b route ch opened e h =
    let o = opened route ch h in
    ground (
      arith,
      get_elem?-length b.channels,
      subst (λ i. get_elem? b.channels i ≡ some o.0) (sym e) o.1,
    )

pub subscribe-IsSafe : (route : String) (b : Broker) → IsSafe b → IsSafe (subscribe route b).0
unfolding subscribe
subscribe-IsSafe route b (opened, apart) =
    let new = length b.channels in
    let fresh : Channel = record { buffer = []; closed = false } in
    (
      λ r ch h. elim (Holds-subscribe b.subs route r new ch h) [
        | inl (e, f) ↦ (
          fresh,
          subst (λ i. get_elem? (b.channels ++ fresh ∷ []) i ≡ some fresh) f
              (get_elem?-last b.channels fresh),
          refl,
          omega arith,
        )
        | inr k ↦
            let o = opened r ch k in
            (o.0, get_elem?-append b.channels (fresh ∷ []) ch o.1, o.2, o.3)
      ],
      λ r other ch h k. elim (Holds-subscribe b.subs route r new ch h) [
        | inl (e, f) ↦ elim (Holds-subscribe b.subs route other new ch k) [
          | inl (g, _) ↦
              ground (arith, e, g, str_eq_iff route r, str_eq_iff route other, str_eq_iff r other)
          | inr k' ↦ absurd (new-Apart b other ch opened f k')
        ]
        | inr h' ↦ elim (Holds-subscribe b.subs route other new ch k) [
          | inl (g, f) ↦ absurd (new-Apart b r ch opened f h')
          | inr k' ↦ apart r other ch h' k'
        ]
      ],
    )

pub unsubscribe-IsSafe :
    (route : String) (ch : ℕ) (b : Broker)
    → Holds b.subs route ch
    → IsSafe b
    → (b' : Broker) × (unsubscribe route ch b ≡ some b') × IsSafe b'
unfolding unsubscribe
unsubscribe-IsSafe route ch b held (opened, apart) =
    let (c, e, o, l) = opened route ch held in
    let subs = drop_sub route ch b.subs in
    let shut : Channel = record c { closed = true } in
    (
      record { subs = subs; channels = set b.channels ch shut },
      ground (arith, e, o),
      (
        λ r j h.
            let k = Holds-drop_sub b.subs route r ch j h in
            set-Open_ne b.channels ch j shut
              (λ same. ground (
                arith,
                apart route r j (subst (λ i. Holds b.subs route i) same held) k.0,
                k.1,
                eq→== ch j same,
              ))
              (opened r j k.0),
        λ r other j h k.
            apart r other j (Holds-drop_sub b.subs route r ch j h).0
              (Holds-drop_sub b.subs route other ch j k).0,
      ),
    )

List-cases :
    (xs : List SseEvent) → (xs ≡ []) ⊎ ((x : SseEvent) × (rest : List SseEvent) × (xs ≡ x ∷ rest))
List-cases [] = inl refl
List-cases (x ∷ xs) = inr (x, xs, refl)

-- A subscriber of a route takes an event from its channel.
pub receive-IsSafe :
    (route : String) (ch : ℕ) (b : Broker)
    → Holds b.subs route ch
    → IsSafe b
    → IsSafe (receive ch b).0
unfolding receive
receive-IsSafe route ch b held (opened, apart) =
    let (c, e, o, l) = opened route ch held in
    elim (List-cases c.buffer) [
      | inl none_left ↦ subst IsSafe (ground (arith, e, none_left)) (opened, apart)
      | inr (evt, rest, more) ↦
          let left : Channel = record c { buffer = rest } in
          let size : length rest ≤ capacity = omega (arith, l, ap length more) in
          let safe : IsSafe (record b { channels = set b.channels ch left }) =
            (λ r j h. set-Open b.channels ch j left o size (opened r j h), apart) in
          subst IsSafe (ground (arith, e, more)) safe
    ]

-- The brokers that the program reaches: a subscriber takes events from its channel and leaves the set it is
-- in, and nothing else closes a channel.
pub data Reached (order : List ℕ → List ℕ) : Broker → Type 0 where
  start : Reached order new_broker
  subscribed : (route : String) (b : Broker) → Reached order b → Reached order (subscribe route b).0
  unsubscribed :
      (route : String) (ch : ℕ) (b b' : Broker)
      → Reached order b
      → Holds b.subs route ch
      → unsubscribe route ch b ≡ some b'
      → Reached order b'
  published :
      (route : String) (evt : SseEvent) (b b' : Broker)
      → Reached order b
      → publish order route evt b ≡ some b'
      → Reached order b'
  received :
      (route : String) (ch : ℕ) (b : Broker)
      → Reached order b
      → Holds b.subs route ch
      → Reached order (receive ch b).0

same_result :
    (o : Option Broker) (b' : Broker)
    → ((b : Broker) × (o ≡ some b) × IsSafe b)
    → o ≡ some b'
    → IsSafe b'
same_result o b' (b, e, s) f =
    subst IsSafe (ap (λ x. elim x [ none ↦ b | some y ↦ y ]) (sym e ∙ f)) s

Reached-IsSafe : (order : List ℕ → List ℕ) (b : Broker) → IsRange order → Reached order b → IsSafe b
Reached-IsSafe order _ range start = new_broker-IsSafe
Reached-IsSafe order _ range (subscribed route b r) =
    subscribe-IsSafe route b (Reached-IsSafe order b range r)
Reached-IsSafe order _ range (unsubscribed route ch b b' r h e) =
    same_result (unsubscribe route ch b) b'
      (unsubscribe-IsSafe route ch b h (Reached-IsSafe order b range r)) e
Reached-IsSafe order _ range (published route evt b b' r e) =
    same_result (publish order route evt b) b'
      (publish-IsSafe order route evt b range (Reached-IsSafe order b range r)) e
Reached-IsSafe order _ range (received route ch b r h) =
    receive-IsSafe route ch b h (Reached-IsSafe order b range r)

-- In every broker that the program reaches, a publication does not panic, and neither does a subscriber
-- that leaves; and a channel in the set of a route is open and holds 8 events at most. The order in which
-- Go ranges over a set names only what is in the set.
pub Reached-Open :
    (order : List ℕ → List ℕ) (b : Broker) (route : String) (evt : SseEvent) (ch : ℕ)
    → IsRange order
    → Reached order b
    → Holds b.subs route ch
    → ((b' : Broker) × (publish order route evt b ≡ some b'))
      × ((b' : Broker) × (unsubscribe route ch b ≡ some b'))
      × Open b.channels ch
Reached-Open order b route evt ch range r h =
    let safe = Reached-IsSafe order b range r in
    let sent = publish-IsSafe order route evt b range safe in
    let left = unsubscribe-IsSafe route ch b h safe in
    ((sent.0, sent.1), (left.0, left.1), safe.0 route ch h)
