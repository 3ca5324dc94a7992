-- ===== src/Http/Live/Fine.antt =====
-- Steps that keep what holds between two requests, and that answer where the page of subscriptions that
-- the request asks for can be cut (ListSubscriptions may panic).
use usps_main.Common.{
  ◌≡◌, sym, ap, ◌∙◌, subst, String, Bool, true, false, Option, none, some, pos, arith,
  if◌then◌else◌, Option-cases, inl, inr, List,
}
use usps_main.Model.{Subscription}
use usps_main.Api.Principal.{Principal, get_principal, is_admin}
use usps_main.Http.Backend.{Backend, Try, Op}
use usps_main.Http.Act.{
  Request, Response, Server, Web, Act, ◌>>=◌, require, call, int_param, principal,
}
use usps_main.Http.Handlers.Subscriptions.{subscriptions_handler, subscriptions_get}
use usps_main.Http.Live.{
  IsLive, IsSound, bind_run, reply-IsLive, write_problem-IsLive, or_problem-IsLive,
}
use usps_main.Http.Live.Laws.{IsLawful}
use usps_main.Http.Live.Admin.{subscriptions_post-IsLive}

-- ListSubscriptions does not panic in the state, whatever the tenant and the cursor, at the request's limit.
abbrev pub IsPaged : {S : Type 0} → Backend S → Web → Request → Server S → Type 0
IsPaged api web r s =
    (tenant cursor : String)
    → (t : Try (List Subscription × String)) × ((api.list_subscriptions tenant cursor
          (int_param web "limit" (pos 100) r) s.store).1
        ≡ some t)

pub record IsFine {S A : Type 0} (P : S → Type 0) (Fit : Server S → Type 0) (m : Act S A)
    : Type 0 where
  pub ends :
      (s : Server S) → IsSound P s → IsSound P (m s).0 × (Fit s → (a : A) × ((m s).1 ≡ some a))

module _ {S : Type 0} {P : S → Type 0} {Fit : Server S → Type 0} where
  pub live-IsFine : {A : Type 0} (m : Act S A) → IsLive P m → IsFine P Fit m
  live-IsFine m l = record { ends = λ s p. let (got, q) = l.answers s p in (q, λ _. got) }

  pub if-IsFine :
      {A : Type 0} (c : Bool) (m k : Act S A)
      → IsFine P Fit m
      → IsFine P Fit k
      → IsFine P Fit (if c then m else k)
  if-IsFine true m k l l' = l
  if-IsFine false m k l l' = l'

  pub option-IsFine :
      {A X : Type 0} (o : Option X) (m : Act S A) (f : X → Act S A)
      → IsFine P Fit m
      → ((x : X) → IsFine P Fit (f x))
      → IsFine P Fit (elim o [ none ↦ m | some x ↦ f x ])
  option-IsFine none m f l k = l
  option-IsFine (some x) m f l k = k x

  require-IsFine :
      (c : Bool) (m k : Act S Response)
      → IsFine P Fit m
      → IsFine P Fit k
      → IsFine P Fit (require c m k)
  unfolding require
  require-IsFine true m k l l' = l'
  require-IsFine false m k l l' = l

-- A call that may panic, and keeps the property, with what follows it.
call-IsFine :
    {S A B : Type 0} (P : S → Type 0) (Fit : Server S → Type 0) (op : Op S A) (f : Try A → Act S B)
    → ((w : S) → P w → P (op w).0)
    → ((s : Server S) → Fit s → (t : Try A) × ((op s.store).1 ≡ some t))
    → ((t : Try A) → IsLive P (f t))
    → IsFine P Fit (call op >>= f)
unfolding call ◌>>=◌
call-IsFine {S = S} {A = A} {B = B} P Fit op f kept fits l = record {
  ends = λ s p.
      let s' : Server S = record s { store = (op s.store).0 } in
      elim (Option-cases (op s.store).1) [
        | inl e ↦ (
          let stopped : s' ≡ ((call op >>= f) s).0 = ground (arith, e) in
              subst (IsSound P) stopped (p.0, kept s.store p.1),
          λ fit. let (t, e') = fits s fit in absurd (ground (arith, e, e')),
        )
        | inr (t, e) ↦
            let (got, q) = (l t).answers s' (p.0, kept s.store p.1) in
            let run : (call op >>= f) s ≡ f t s' = bind_run (call op) f s t e in
            (subst (λ x. IsSound P x.0) (sym run) q, λ _. (got.0, ap (λ x. x.1) run ∙ got.1))
      ];
}

-- The caller is found out in front of a step; the store is as it was.
principal-IsFine :
    {S : Type 0} (P : S → Type 0) (api : Backend S) (web : Web) (r : Request)
    (f : Principal → Act S Response)
    → ((p : Principal) → IsFine P (IsPaged api web r) (f p))
    → IsFine P (IsPaged api web r) (principal web r >>= f)
unfolding principal ◌>>=◌
principal-IsFine P api web r f k = record {
  ends = λ s p.
      let got = get_principal web.auth s.auth r.headers in
      (k got.1).ends (record s { auth = got.0 }) p;
}

module _ {S : Type 0} (P : S → Type 0) (api : Backend S) (web : Web) (laws : IsLawful P api) where
  subscriptions_get-IsFine :
      (r : Request) → IsFine P (IsPaged api web r) (subscriptions_get api web r)
  unfolding subscriptions_get
  subscriptions_get-IsFine r = principal-IsFine P api web r _ λ p.
      require-IsFine (is_admin p) _ _ (live-IsFine _ (write_problem-IsLive _ _ _ r)) (
        call-IsFine P (IsPaged api web r) _ _
          (laws.list_subscriptions p.tenant (r.query "cursor") _)
          (λ s fit. fit p.tenant (r.query "cursor"))
          (λ t. or_problem-IsLive _ _ r t _ (λ out. reply-IsLive _ _)))

  pub subscriptions_handler-IsFine :
      (r : Request) → IsFine P (IsPaged api web r) (subscriptions_handler api web r)
  unfolding subscriptions_handler
  subscriptions_handler-IsFine r =
      if-IsFine _ _ _ (live-IsFine _ (subscriptions_post-IsLive P api web laws r))
        (if-IsFine _ _ _ (subscriptions_get-IsFine r) (live-IsFine _ (reply-IsLive _ _)))
