-- ===== src/Http/Live/Served.antt =====
-- The server of cmd/api/main.go over the in-memory store, from its start: every request is answered
-- whose page of subscriptions can be cut.
use usps_main.Common.{
  ◌≡◌, sym, subst, String, ℕ, ◌+◌, ◌<◌, ◌≤◌, true, leb, ℤ, Bool, false, refl, ap, Option-cases,
  List, length, pos, find_index, [], ◌∷◌, Option, some, none, arith, inl, inr, str_eq,
}
use usps_main.Common.Maps.{index}
use usps_main.Model.{Subscription}
use usps_main.Store.{new_memory}
use usps_main.Store.Page.{limit_or_100}
use usps_main.Store.Subscriptions.{start_at, page_of, list_subscriptions, int_bound}
use usps_main.Store.Hos.Typed.{HasStatus, new_memory-HasStatus, same-HasStatus}
use usps_main.Api.Broker.{Broker, new_broker, unsubscribe, receive}
use usps_main.Api.Broker.Sets.{Holds}
use usps_main.Api.Broker.Safety.{
  IsSafe, IsRange, new_broker-IsSafe, unsubscribe-IsSafe, receive-IsSafe,
}
use usps_main.Http.Backend.{ok}
use usps_main.Http.Act.{Request, Response, Server, Web, int_param}
use usps_main.Http.Handlers.Routes.{close_stream}
use usps_main.Http.InMemory.{World, in_memory, answer_of}
use usps_main.Http.Mux.{Packages, serve_mux}
use usps_main.Http.Live.{IsSound}
use usps_main.Http.Live.Fine.{IsPaged}
use usps_main.Http.Live.Endpoints.{serve_mux-IsFine}
use usps_main.Http.Live.Whole.{IsTyped, in_memory-IsLawful}

-- The states of the server between two requests: what main starts, with an AUTH_JWKS_URL that is empty or
-- can be parsed; what a request leaves, one whose handler panics included; what is left when a client's
-- event stream takes an event or is closed; and what the webhook worker and the clock change meanwhile.
pub data Reached (web : Web) (out : Packages) : Server World → Type 0 where
  start :
      (s : Server World)
      → s.broker ≡ new_broker
      → s.store.memory ≡ new_memory
      → web.auth.parses s.auth.jwks_url ≡ true
      → Reached web out s
  served :
      (s : Server World) (r : Request)
      → Reached web out s
      → Reached web out (serve_mux in_memory web out r s).0
  closed :
      (s : Server World) (route : String) (ch : ℕ)
      → Reached web out s
      → Holds s.broker.subs route ch
      → Reached web out (close_stream in_memory web route ch s).0
  received :
      (s : Server World) (route : String) (ch : ℕ)
      → Reached web out s
      → Holds s.broker.subs route ch
      → Reached web out (record s { broker = (receive ch s.broker).0 })
  worked :
      (s : Server World) (w : World)
      → Reached web out s
      → w.memory.hos ≡ s.store.memory.hos
      → Reached web out (record s { store = w })

-- The server behind Unsubscribe.
abbrev shut : Server World → Option Broker → Server World
shut s none = s
shut s (some b) = record s { broker = b }

close_stream-shut :
    (web : Web) (s : Server World) (route : String) (ch : ℕ)
    → (close_stream in_memory web route ch s).0 ≡ shut s (unsubscribe route ch s.broker)
unfolding close_stream
close_stream-shut web s route ch = ground arith

closed-IsSound :
    (web : Web) (s : Server World) (route : String) (ch : ℕ)
    → IsSound IsTyped s
    → Holds s.broker.subs route ch
    → IsSound IsTyped (close_stream in_memory web route ch s).0
closed-IsSound web s route ch (safe, typed) h =
    let (b, e, q) = unsubscribe-IsSafe route ch s.broker h safe in
    subst (IsSound IsTyped) (sym (close_stream-shut web s route ch))
      (subst (λ o. IsSound IsTyped (shut s o)) (sym e) (q, typed))

Reached-IsSound :
    (web : Web) (out : Packages) (s : Server World)
    → IsRange web.order_channels
    → Reached web out s
    → IsSound IsTyped s
Reached-IsSound web out s range (start _ e f _) =
    (subst IsSafe (sym e) new_broker-IsSafe, subst HasStatus (sym f) new_memory-HasStatus)
Reached-IsSound web out _ range (served s r h) =
    ((serve_mux-IsFine IsTyped in_memory web out in_memory-IsLawful range r).ends s
      (Reached-IsSound web out s range h)).0
Reached-IsSound web out _ range (closed s route ch h held) =
    closed-IsSound web s route ch (Reached-IsSound web out s range h) held
Reached-IsSound web out _ range (received s route ch h held) =
    let (safe, typed) = Reached-IsSound web out s range h in
    (receive-IsSafe route ch s.broker held safe, typed)
Reached-IsSound web out _ range (worked s w h e) =
    let (safe, typed) = Reached-IsSound web out s range h in
    (safe, same-HasStatus s.store.memory w.memory e typed)

-- The page of subscriptions that a request asks for ends below 2 ^ 63, whatever the tenant.
abbrev pub IsShort : Web → Request → Server World → Type 0
IsShort web r s =
    (tenant : String)
    → length (index [] tenant s.store.memory.subs)
        + limit_or_100 (int_param web "limit" (pos 100) r)
      < int_bound

find_index_lt :
    (p : Subscription → Bool) (xs : List Subscription) (i : ℕ)
    → find_index p xs ≡ some i
    → i < length xs
find_index_lt p [] i e = absurd (ground (arith, e))
find_index_lt p (x ∷ xs) i e = elim (Option-cases (find_index p xs)) [
  | inl f ↦ ground (arith, e, f)
  | inr (j, f) ↦ ground (arith, e, f, find_index_lt p xs j f)
]

start_at_le : (cursor : String) (list : List Subscription) → start_at cursor list ≤ length list
unfolding start_at
start_at_le cursor list = elim (Option-cases (find_index (λ s. str_eq s.id cursor) list)) [
  | inl e ↦ ground (arith, e)
  | inr (i, e) ↦ ground (arith, e, find_index_lt (λ s. str_eq s.id cursor) list i e)
]

page_of-returns :
    (list : List Subscription) (cursor : String) (limit : ℤ)
    → length list + limit_or_100 limit < int_bound
    → (t : List Subscription × String) × (page_of list cursor limit ≡ some t)
unfolding page_of
page_of-returns list cursor limit h =
    let fits : leb int_bound (start_at cursor list + limit_or_100 limit) ≡ false =
      ground (arith, start_at_le cursor list) in
    rw (fits, page_of) (_, refl)

IsShort-IsPaged :
    (web : Web) (r : Request) (s : Server World) → IsShort web r s → IsPaged in_memory web r s
unfolding list_subscriptions
IsShort-IsPaged web r s short tenant cursor =
    let (t, e) =
      page_of-returns (index [] tenant s.store.memory.subs) cursor
        (int_param web "limit" (pos 100) r) (short tenant) in
    (ok t, ap answer_of e)

-- In every state that the server over the in-memory store reaches, the mux answers every request whose
-- limit and the tenants' subscriptions add up to less than 2 ^ 63: no handler panics. The order in which Go
-- ranges over a set names only what is in the set; between requests the worker leaves the hours of service
-- as they are, and a client takes events from a stream, or closes one, that is open; AUTH_JWKS_URL is
-- empty or can be parsed.
pub serve_mux-answers :
    (web : Web) (out : Packages) (s : Server World) (r : Request)
    → IsRange web.order_channels
    → Reached web out s
    → IsShort web r s
    → (resp : Response) × ((serve_mux in_memory web out r s).1 ≡ some resp)
serve_mux-answers web out s r range h short =
    ((serve_mux-IsFine IsTyped in_memory web out in_memory-IsLawful range r).ends s
        (Reached-IsSound web out s range h)).1
      (IsShort-IsPaged web r s short)
