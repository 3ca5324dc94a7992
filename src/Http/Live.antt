-- ===== src/Http/Live.antt =====
-- Steps of the server that answer, whatever the state, and keep a property of it. A panic in a handler is
-- what these rule out; the rules follow the combinators of which the handlers are made.
pub mod Laws
pub mod Rules
pub mod Admin
pub mod Planner
pub mod Routes
pub mod Events
pub mod Misc
pub mod Fine
pub mod Whole
pub mod Endpoints
pub mod Served
use usps_main.Common.{
  ◌≡◌, refl, sym, subst, String, Bool, true, false, ℕ, Option, none, some, List, [], ◌∷◌,
  if◌then◌else◌, ◌⊎◌, inl, inr, arith, Option-cases,
}
use usps_main.Model.{Any}
use usps_main.Api.Broker.{Broker, SseEvent, publish, subscribe}
use usps_main.Api.Broker.Safety.{IsSafe, IsRange, publish-IsSafe, subscribe-IsSafe}
use usps_main.Api.Principal.{get_principal}
use usps_main.Http.Backend.{Try, ok, err, Op}
use usps_main.Http.Act.{
  Request, Response, Body, Server, Web, Act, ◌>>=◌, ◌>>◌, give, reply, write_problem, require, call,
  or_problem, principal, send, send_all,
}

-- A call of the store that returns, and keeps a property of the state.
pub record IsTotal {S A : Type 0} (P : S → Type 0) (op : Op S A) : Type 0 where
  pub returns : (w : S) → P w → ((a : Try A) × ((op w).1 ≡ some a)) × P (op w).0

-- What holds between two requests: a safe broker, and the property of the store.
abbrev pub IsSound : {S : Type 0} → (S → Type 0) → Server S → Type 0
IsSound P s = IsSafe s.broker × P s.store

-- A value and such a state.
abbrev pub Ended : {S A : Type 0} → (S → Type 0) → Server S × Option A → Type 0
Ended {S} {A} P out = ((a : A) × (out.1 ≡ some a)) × IsSound P out.0

pub record IsLive {S A : Type 0} (P : S → Type 0) (m : Act S A) : Type 0 where
  pub answers : (s : Server S) → IsSound P s → Ended P (m s)

-- A step whose first part has given a value.
pub bind_run :
    {S A B : Type 0} (m : Act S A) (f : A → Act S B) (s : Server S) (a : A)
    → (m s).1 ≡ some a
    → (m >>= f) s ≡ f a (m s).0
unfolding ◌>>=◌
bind_run m f s a e = rw (e, ◌>>=◌)

pub then_run :
    {S A B : Type 0} (m : Act S A) (k : Act S B) (s : Server S) (a : A)
    → (m s).1 ≡ some a
    → (m >> k) s ≡ k (m s).0
unfolding ◌>>◌
then_run m k s a e = rw (e, ◌>>◌)

send_run :
    {S : Type 0} (web : Web) (route_id : String) (evt : SseEvent) (s : Server S) (b : Broker)
    → publish web.order_channels route_id evt s.broker ≡ some b
    → send web route_id evt s ≡ (record s { broker = b }, some tt)
unfolding send
send_run web route_id evt s b e = rw (e, send)

module _ {S : Type 0} {P : S → Type 0} where
  pub give-IsLive : {A : Type 0} (a : A) → IsLive P (give a)
  unfolding give
  give-IsLive a = record { answers = λ s p. ((a, refl), p) }

  pub reply-IsLive : (code : ℕ) (body : Body) → IsLive P (reply code body)
  unfolding reply
  reply-IsLive code body = give-IsLive (record { status = code; body = body })

  pub write_problem-IsLive :
      (code : ℕ) (title detail : String) (r : Request)
      → IsLive P (write_problem code title detail r)
  unfolding write_problem
  write_problem-IsLive code title detail r = reply-IsLive code (Body.problem title detail r.path)

  pub bind-IsLive :
      {A B : Type 0} (m : Act S A) (f : A → Act S B)
      → IsLive P m
      → ((a : A) → IsLive P (f a))
      → IsLive P (m >>= f)
  bind-IsLive m f l k = record {
    answers = λ s p.
        let ((a, e), q) = l.answers s p in
        subst (Ended P) (sym (bind_run m f s a e)) ((k a).answers (m s).0 q);
  }

  pub then-IsLive :
      {A B : Type 0} (m : Act S A) (k : Act S B) → IsLive P m → IsLive P k → IsLive P (m >> k)
  then-IsLive m k l l' = record {
    answers = λ s p.
        let ((a, e), q) = l.answers s p in
        subst (Ended P) (sym (then_run m k s a e)) (l'.answers (m s).0 q);
  }

  pub if-IsLive :
      {A : Type 0} (c : Bool) (m k : Act S A)
      → IsLive P m
      → IsLive P k
      → IsLive P (if c then m else k)
  if-IsLive true m k l l' = l
  if-IsLive false m k l l' = l'

  pub option-IsLive :
      {A X : Type 0} (o : Option X) (m : Act S A) (f : X → Act S A)
      → IsLive P m
      → ((x : X) → IsLive P (f x))
      → IsLive P (elim o [ none ↦ m | some x ↦ f x ])
  option-IsLive none m f l k = l
  option-IsLive (some x) m f l k = k x

  pub try-IsLive :
      {A X : Type 0} (t : Try X) (f : X → Act S A) (g : String → Act S A)
      → ((x : X) → IsLive P (f x))
      → ((e : String) → IsLive P (g e))
      → IsLive P (elim t [ ok x ↦ f x | err e ↦ g e ])
  try-IsLive (ok x) f g l k = l x
  try-IsLive (err e) f g l k = k e

  pub require-IsLive :
      (c : Bool) (m k : Act S Response) → IsLive P m → IsLive P k → IsLive P (require c m k)
  unfolding require
  require-IsLive true m k l l' = l'
  require-IsLive false m k l l' = l

  pub or_problem-IsLive :
      {A : Type 0} (code : ℕ) (title : String) (r : Request) (got : Try A) (k : A → Act S Response)
      → ((a : A) → IsLive P (k a))
      → IsLive P (or_problem code title r got k)
  unfolding or_problem
  or_problem-IsLive code title r (ok a) k l = l a
  or_problem-IsLive code title r (err e) k l = write_problem-IsLive code title e r

  pub call-IsLive : {A : Type 0} (op : Op S A) → IsTotal P op → IsLive P (call op)
  unfolding call
  call-IsLive op t = record {
    answers = λ s p. let got = t.returns s.store p.1 in (got.0, (p.0, got.1));
  }

module _ {S : Type 0} (P : S → Type 0) (web : Web) where
  pub principal-IsLive : (r : Request) → IsLive P (principal web r)
  unfolding principal
  principal-IsLive r = record {
    answers = λ s p. (((get_principal web.auth s.auth r.headers).1, refl), p);
  }

  pub send-IsLive :
      (route_id : String) (evt : SseEvent)
      → IsRange web.order_channels
      → IsLive P (send web route_id evt)
  send-IsLive route_id evt range = record {
    answers = λ s p.
        let (b, e, q) = publish-IsSafe web.order_channels route_id evt s.broker range p.0 in
        subst (Ended P) (sym (send_run web route_id evt s b e)) ((tt, refl), (q, p.1));
  }

  pub send_all-IsLive :
      (evt : SseEvent) (ids : List String)
      → IsRange web.order_channels
      → IsLive P (send_all web evt ids)
  unfolding send_all
  send_all-IsLive evt [] range = give-IsLive tt
  send_all-IsLive evt (id ∷ ids) range =
      then-IsLive (send web id evt) (send_all web evt ids) (send-IsLive id evt range)
        (send_all-IsLive evt ids range)
