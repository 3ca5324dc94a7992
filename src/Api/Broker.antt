-- ===== src/Api/Broker.antt =====
-- internal/api/broker.go: the fan-out of events to the channels of a route. A channel is named by its
-- place in the list of all channels made so far.
pub mod Sets
pub mod Sends
pub mod Safety
use usps_main.Common.{
  ℕ, String, Bool, true, false, Option, none, some, List, [], ◌∷◌, ◌++◌, ◌==◌, not, ltb,
  if◌then◌else◌, length, get_elem?, set, keep,
}
use usps_main.Common.Maps.{lookup, index, insert, delete, Map}
use usps_main.Model.{Any}

pub record SseEvent : Type 0 where
  pub kind : String  -- Type
  pub payload : Map Any  -- Data

-- A buffered channel and whether it is closed.
pub record Channel : Type 0 where
  pub buffer : List SseEvent
  pub closed : Bool

pub record Broker : Type 0 where
  pub subs : Map (List ℕ)
  pub channels : List Channel

unfoldable pub new_broker : Broker
new_broker = record { subs = []; channels = [] }

-- `make(chan SSEEvent, 8)`.
abbrev pub capacity : ℕ
capacity = 8

unfoldable pub subscribe : String → Broker → Broker × ℕ
subscribe route b =
    let ch = length b.channels in
    (
      record {
        subs = insert route (ch ∷ index [] route b.subs) b.subs;
        channels = b.channels ++ record { buffer = []; closed = false } ∷ [];
      },
      ch,
    )

-- `delete(m, ch); if len(m) == 0 { delete(b.subs, routeID) }`, for a route that has subscribers.
unfoldable pub drop_sub : String → ℕ → Map (List ℕ) → Map (List ℕ)
drop_sub route ch subs = elim (lookup route subs) [
  | none ↦ subs
  | some chs ↦ elim (keep (λ c. not (c == ch)) chs) [
    | [] ↦ delete route subs
    | c ∷ cs ↦ insert route (c ∷ cs) subs
  ]
]

-- `close(ch)` panics on a channel that is closed, and so does a send.
unfoldable pub unsubscribe : String → ℕ → Broker → Option Broker
unfolding drop_sub
unsubscribe route ch b = elim (get_elem? b.channels ch) [
  | none ↦ none
  | some c ↦
      if c.closed
      then none
      else some (record {
        subs = drop_sub route ch b.subs;
        channels = set b.channels ch (record c { closed = true });
      })
]

-- `select { case ch <- evt: default: }`: a full buffer loses the event; `none` is the panic.
unfoldable pub offer : SseEvent → ℕ → List Channel → Option (List Channel)
offer evt ch channels = elim (get_elem? channels ch) [
  | none ↦ none
  | some c ↦
      if c.closed
      then none
      else if ltb (length c.buffer) capacity
      then some (set channels ch (record c { buffer = c.buffer ++ evt ∷ [] }))
      else some channels
]

-- The loop over the route's channels, in the order of the list.
unfoldable pub offer_all : SseEvent → List ℕ → List Channel → Option (List Channel)
unfolding offer
offer_all evt [] channels = some channels
offer_all evt (ch ∷ chs) channels = elim (offer evt ch channels) [
  | none ↦ none
  | some channels' ↦ offer_all evt chs channels'
]

-- `order` is the order in which Go ranges over the set of channels.
unfoldable pub publish : (List ℕ → List ℕ) → String → SseEvent → Broker → Option Broker
unfolding offer_all
publish order route evt b = elim (offer_all evt (order (index [] route b.subs)) b.channels) [
  | none ↦ none
  | some channels ↦ some (record b { channels = channels })
]

-- `evt := <-ch` of a subscriber on an open channel: the oldest event, if there is one; an empty channel
-- leaves the subscriber waiting.
unfoldable pub receive : ℕ → Broker → Broker × Option SseEvent
receive ch b = elim (get_elem? b.channels ch) [
  | none ↦ (b, none)
  | some c ↦ elim c.buffer [
    | [] ↦ (b, none)
    | evt ∷ rest ↦
        (record b { channels = set b.channels ch (record c { buffer = rest }) }, some evt)
  ]
]
