-- ===== src/Http/Live/Rules.antt =====
-- The rules by which a handler is followed, for `search`, and the publisher's part.
use usps_main.Common.{String, List, [], ◌∷◌, ℕ}
use usps_main.Common.Maps.{Map}
use usps_main.Model.{Any, Subscription}
use usps_main.Http.Backend.{Backend}
use usps_main.Http.Act.{Web}
use usps_main.Http.Publish.{enqueue_all, emit_event}
use usps_main.Http.Live.{
  IsLive, give-IsLive, reply-IsLive, write_problem-IsLive, bind-IsLive, then-IsLive, if-IsLive,
  option-IsLive, try-IsLive, require-IsLive, or_problem-IsLive, call-IsLive, principal-IsLive,
}
use usps_main.Http.Live.Laws.{IsLawful}

pub ruleset live = (
  give-IsLive, reply-IsLive, write_problem-IsLive, bind-IsLive, then-IsLive, if-IsLive,
  option-IsLive, try-IsLive, require-IsLive, or_problem-IsLive, call-IsLive, principal-IsLive,
)

module _ {S : Type 0} (P : S → Type 0) (api : Backend S) (web : Web) (laws : IsLawful P api) where
  enqueue_all-IsLive :
      (tenant event_type : String) (body : List ℕ) (subs : List Subscription)
      → IsLive P (enqueue_all api web tenant event_type body subs)
  unfolding enqueue_all
  enqueue_all-IsLive tenant event_type body [] = give-IsLive tt
  enqueue_all-IsLive tenant event_type body (s ∷ subs) =
      then-IsLive _ _ (search (live, laws.enqueue_webhook))
        (enqueue_all-IsLive tenant event_type body subs)

  pub emit_event-IsLive :
      (tenant event_type : String) (fields : Map Any)
      → IsLive P (emit_event api web tenant event_type fields)
  unfolding emit_event
  emit_event-IsLive tenant event_type fields =
      bind-IsLive _ _ (search (live, laws.get_subscriptions_for_event)) λ found.
        try-IsLive found _ _
          (λ subs.
            enqueue_all-IsLive tenant event_type (web.marshal_event event_type tenant fields) subs)
          (λ e. give-IsLive tt)
