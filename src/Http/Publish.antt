-- ===== src/Http/Publish.antt =====
-- Emit of internal/webhooks/publisher.go over the store interface. Errors of the store are passed over.
use usps_main.Common.{String, ℕ, List, [], ◌∷◌}
use usps_main.Common.Maps.{Map}
use usps_main.Model.{Any, Subscription}
use usps_main.Http.Backend.{Backend, ok, err}
use usps_main.Http.Act.{Web, Act, ◌>>=◌, ◌>>◌, give, call}

module _ {S : Type 0} (api : Backend S) (web : Web) where
  unfoldable pub enqueue_all : String → String → List ℕ → List Subscription → Act S (Unit {0})
  enqueue_all tenant event_type body [] = give tt
  enqueue_all tenant event_type body (s ∷ subs) =
      call (api.enqueue_webhook tenant s.id event_type s.url s.secret body)
      >> enqueue_all tenant event_type body subs

  unfoldable pub emit_event : String → String → Map Any → Act S (Unit {0})
  unfolding enqueue_all
  emit_event tenant event_type fields = do
    found ← call (api.get_subscriptions_for_event tenant event_type)
    elim found [
      | err e ↦ give tt
      | ok subs ↦ enqueue_all tenant event_type (web.marshal_event event_type tenant fields) subs
    ]
