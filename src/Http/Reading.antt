-- ===== src/Http/Reading.antt =====
-- What a GET does to the in-memory store through the handlers of internal/api/handlers.go.
pub mod Get
use usps_main.Common.{
  ◌≡◌, refl, sym, ap, ◌∙◌, subst, String, Bool, true, false, ℕ, List, [], ◌∷◌, Option, some, none,
  All, arith, if◌then◌else◌, not, ◌||◌, str_eq, str_eq_iff, Option-cases, inl, inr,
}
use usps_main.Store.{Memory}
use usps_main.Http.Backend.{Try, ok, err, Op}
use usps_main.Http.Act.{
  Request, Response, Body, Server, Web, Act, ◌>>=◌, ◌>>◌, give, reply, write_problem, require, call,
  or_problem, principal,
}
use usps_main.Http.InMemory.{World, in_memory}
use usps_main.Http.Live.{bind_run}

-- A step that leaves the store's contents as they are.
pub record IsReading {A : Type 0} (m : Act World A) : Type 0 where
  pub keeps : (s : Server World) → (m s).0.store.memory ≡ s.store.memory

pub give-IsReading : {A : Type 0} (a : A) → IsReading (give a)
unfolding give
give-IsReading a = record { keeps = λ s. refl }

pub reply-IsReading : (code : ℕ) (body : Body) → IsReading (reply code body)
unfolding reply
reply-IsReading code body = give-IsReading _

pub problem-IsReading :
    (code : ℕ) (title detail : String) (r : Request) → IsReading (write_problem code title detail r)
unfolding write_problem
problem-IsReading code title detail r = reply-IsReading _ _

pub bind-IsReading :
    {A B : Type 0} (m : Act World A) (f : A → Act World B)
    → IsReading m
    → ((a : A) → IsReading (f a))
    → IsReading (m >>= f)
unfolding ◌>>=◌
bind-IsReading m f l k = record {
  keeps = λ s. elim (Option-cases (m s).1) [
    | inl e ↦ ground (arith, e, l.keeps s)
    | inr (a, e) ↦ ap (λ o. o.0.store.memory) (bind_run m f s a e) ∙ (k a).keeps (m s).0 ∙ l.keeps s
  ];
}

pub if-IsReading :
    {A : Type 0} (c : Bool) (m k : Act World A)
    → IsReading m
    → IsReading k
    → IsReading (if c then m else k)
if-IsReading true m k l l' = l
if-IsReading false m k l l' = l'

pub if_then-IsReading :
    {A : Type 0} (c : Bool) (m k : Act World A)
    → c ≡ true
    → IsReading m
    → IsReading (if c then m else k)
if_then-IsReading c m k e l = subst (λ b. IsReading (if b then m else k)) (sym e) l

pub if_else-IsReading :
    {A : Type 0} (c : Bool) (m k : Act World A)
    → c ≡ false
    → IsReading k
    → IsReading (if c then m else k)
if_else-IsReading c m k e l = subst (λ b. IsReading (if b then m else k)) (sym e) l

pub require-IsReading :
    (c : Bool) (m k : Act World Response) → IsReading m → IsReading k → IsReading (require c m k)
unfolding require
require-IsReading true m k l l' = l'
require-IsReading false m k l l' = l

pub or_problem-IsReading :
    {A : Type 0} (code : ℕ) (title : String) (r : Request) (got : Try A)
    (k : A → Act World Response)
    → ((a : A) → IsReading (k a))
    → IsReading (or_problem code title r got k)
unfolding or_problem
or_problem-IsReading code title r (ok a) k l = l a
or_problem-IsReading code title r (err e) k l = problem-IsReading code title e r

pub call-IsReading :
    {A : Type 0} (op : Op World A)
    → ((w : World) → (op w).0.memory ≡ w.memory)
    → IsReading (call op)
unfolding call
call-IsReading op e = record { keeps = λ s. e s.store }

pub principal-IsReading : (web : Web) (r : Request) → IsReading (principal web r)
unfolding principal
principal-IsReading web r = record { keeps = λ s. refl }

pub ruleset reading = (
  reply-IsReading, problem-IsReading, give-IsReading, bind-IsReading, if_then-IsReading,
  if_else-IsReading, if-IsReading, require-IsReading, or_problem-IsReading, call-IsReading,
  principal-IsReading, refl,
)

-- What the method GET is not.
pub other_method :
    (r : Request) (m : String)
    → str_eq "GET" m ≡ false
    → str_eq r.method "GET" ≡ true
    → str_eq r.method m ≡ false
other_method r m e g = subst (λ t. str_eq t m ≡ false) (sym ((str_eq_iff r.method "GET").0 g)) e
