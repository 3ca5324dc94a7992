-- ===== src/Http/Once.antt =====
-- The loop of DriverEventsHandler in internal/api/handlers.go over the in-memory store.
use usps_main.Common.{
  ◌≡◌, refl, sym, ap, ◌∙◌, String, Bool, true, false, ℕ, List, [], ◌∷◌, Option, some, none, arith,
  not, if◌then◌else◌, Bool-cases, inl, inr,
}
use usps_main.Common.Maps.{Map}
use usps_main.Model.{Any, Subscription, DriverEvent, AdvanceRequest, AdvanceResult, AdvanceResponse}
use usps_main.Store.{Memory, not_found}
use usps_main.Http.Publish.{enqueue_all, emit_event}
use usps_main.Http.Handlers.Routes.{advance_data}
use usps_main.Store.Routes
use usps_main.Store.Advance.{advance_route}
use usps_main.Http.Act.{Server, Web, Act, ◌>>=◌, ◌>>◌, call, give}
use usps_main.Http.InMemory.{World, in_memory, checked}
use usps_main.Http.Live.{then_run}
use usps_main.Http.Handlers.Events.{after_advance, auto_advance, is_trigger, reason_of}

-- Whether the answer of AdvanceRoute says that the route changed.
abbrev has_changed : Routes.Result AdvanceResponse → Bool
has_changed (Routes.ok res) = res.result.changed
has_changed (Routes.err e) = false

advance_route-unchanged :
    (m : Memory) (tenant id : String) (req : AdvanceRequest) (ts : String)
    → has_changed (advance_route m tenant id req ts).1 ≡ false
    → (advance_route m tenant id req ts).0 ≡ m
unfolding advance_route
advance_route-unchanged m tenant id req ts e = ground (arith, e)

abbrev request_for : DriverEvent → AdvanceRequest
request_for e = record { reason = reason_of e; force = false }

-- The change that the first event makes whose request changes its route, each tried on the one store.
abbrev pub change_or : Option AdvanceResult → Routes.Result AdvanceResponse → Option AdvanceResult
change_or rest (Routes.err e) = rest
change_or rest (Routes.ok res) = if res.result.changed then some res.result else rest

unfoldable pub first_change : Memory → String → String → List DriverEvent → Option AdvanceResult
first_change m tenant ts [] = none
first_change m tenant ts (e ∷ events) =
    let rest = first_change m tenant ts events in
    if is_trigger e
    then change_or rest (advance_route m tenant e.route_id (request_for e) ts).1
    else rest

module _ (web : Web) (tenant : String) where
  enqueue_all-answers :
      (event_type : String) (body : List ℕ) (subs : List Subscription) (s : Server World)
      → (enqueue_all in_memory web tenant event_type body subs s).1 ≡ some tt
  unfolding enqueue_all ◌>>◌ call give
  enqueue_all-answers event_type body [] s = refl
  enqueue_all-answers event_type body (sub ∷ subs) s = enqueue_all-answers event_type body subs _

  emit_event-answers :
      (event_type : String) (fields : Map Any) (s : Server World)
      → (emit_event in_memory web tenant event_type fields s).1 ≡ some tt
  unfolding emit_event ◌>>=◌ call
  emit_event-answers event_type fields s = enqueue_all-answers event_type _ _ _

  after_advance-rest :
      (rest : Act World (Option AdvanceResult)) (out : Routes.Result AdvanceResponse)
      (s : Server World) (tried : Option AdvanceResult)
      → has_changed out ≡ false
      → (rest s).1 ≡ some tried
      → (after_advance in_memory web tenant rest (checked out) s).1 ≡ some (change_or tried out)
  unfolding after_advance
  after_advance-rest rest (Routes.err not_found) s tried e f = f
  after_advance-rest rest (Routes.ok res) s tried e f = ground (arith, e, f)

  after_advance-change :
      (rest : Act World (Option AdvanceResult)) (out : Routes.Result AdvanceResponse)
      (s : Server World) (tried : Option AdvanceResult)
      → has_changed out ≡ true
      → (after_advance in_memory web tenant rest (checked out) s).1 ≡ some (change_or tried out)
  unfolding after_advance give
  after_advance-change rest (Routes.err not_found) s tried e = ground (arith, e)
  after_advance-change rest (Routes.ok res) s tried e =
      let emitted = emit_event-answers "stop.advanced" (advance_data res.result) s in
      let m = emit_event in_memory web tenant "stop.advanced" (advance_data res.result) in
      let k : Act World (Option AdvanceResult) = give (some res.result) in
      ap (λ b. ((if not b then rest else m >> k) s).1) e
      ∙ ap (λ o. o.1) (then_run m k s tt emitted)
      ∙ sym (ap (λ b. some (if b then some res.result else tried)) e)

  -- The request of one event, and what follows it.
  abbrev after_call : DriverEvent → List DriverEvent → Act World (Option AdvanceResult)
  after_call e events = do
    got ← call (in_memory.advance_route tenant e.route_id (request_for e))
    after_advance in_memory web tenant (auto_advance in_memory web tenant events) got

  after_call-run :
      (e : DriverEvent) (events : List DriverEvent) (s : Server World)
      → let out =
          advance_route s.store.memory tenant e.route_id
            (request_for e)
            (s.store.format s.store.now) in
        after_call e events s
        ≡ after_advance in_memory web tenant
            (auto_advance in_memory web tenant events)
            (checked out.1)
            (record s { store = record s.store { memory = out.0 } })
  unfolding ◌>>=◌ call
  after_call-run e events s = refl

  -- Over the in-memory store, the loop over the driver's events answers with the change of the first
  -- pod, depart or arrive event whose AdvanceRoute request changes its route, each event tried on the store
  -- as it was before the loop; and with no change where there is no such event.
  pub auto_advance-first_change :
      (events : List DriverEvent) (s : Server World)
      → (auto_advance in_memory web tenant events s).1
        ≡ some (first_change s.store.memory tenant (s.store.format s.store.now) events)
  unfolding auto_advance first_change give
  auto_advance-first_change [] s = refl
  auto_advance-first_change (e ∷ events) s =
      let ts = s.store.format s.store.now in
      let m = s.store.memory in
      let rest = auto_advance in_memory web tenant events in
      let tried = first_change m tenant ts events in
      let out = advance_route m tenant e.route_id (request_for e) ts in
      let with_memory : Memory → Server World =
        λ m'. record s { store = record s.store { memory = m' } } in
      let later = auto_advance-first_change events s in
      elim (Bool-cases (is_trigger e)) [
        | inl f ↦
            ap (λ b. ((if not b then rest else after_call e events) s).1) f
            ∙ ap (λ o. o.1) (after_call-run e events s)
            ∙ (elim (Bool-cases (has_changed out.1)) [
              | inl c ↦ after_advance-change rest out.1 (with_memory out.0) tried c
              | inr u ↦ after_advance-rest rest out.1 (with_memory out.0) tried u (
                  ap (λ m'. (rest (with_memory m')).1)
                    (advance_route-unchanged m tenant e.route_id (request_for e) ts u)
                  ∙ later)
            ])
            ∙ sym (ap (λ b. some (if b then change_or tried out.1 else tried)) f)
        | inr f ↦
            ap (λ b. ((if not b then rest else after_call e events) s).1) f
            ∙ later
            ∙ sym (ap (λ b. some (if b then change_or tried out.1 else tried)) f)
      ]
