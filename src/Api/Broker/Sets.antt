-- ===== src/Api/Broker/Sets.antt =====
-- What Subscribe and Unsubscribe do to the sets of channels.
use usps_main.Common.{
  ℕ, ◌≡◌, ◌⊎◌, inl, inr, refl, sym, ap, ◌∙◌, String, true, false, none, some, List, [], ◌∷◌, ◌==◌,
  ◌&&◌, not, if◌then◌else◌, keep, any, str_eq, str_eq_iff, Bool-cases, Option-cases, ==→eq, arith,
  and_true,
}
use usps_main.Common.Maps.{
  lookup, index, insert, delete, Map, index-insert, lookup-delete, lookup-insert,
}
use usps_main.Api.Broker.{drop_sub}

-- The route's set names the channel.
abbrev pub Holds : Map (List ℕ) → String → ℕ → Type 0
Holds subs route ch = any (λ c. c == ch) (index [] route subs) ≡ true

-- What the sets hold behind Subscribe.
pub Holds-subscribe :
    (subs : Map (List ℕ)) (route other : String) (new ch : ℕ)
    → Holds (insert route (new ∷ index [] route subs) subs) other ch
    → ((str_eq route other ≡ true) × (new ≡ ch)) ⊎ Holds subs other ch
Holds-subscribe subs route other new ch h = elim (Bool-cases (str_eq route other && (new == ch))) [
  | inl f ↦
      let both = and_true (str_eq route other) (new == ch) f in inl (both.0, ==→eq new ch both.1)
  | inr f ↦ inr (
      ground (
        arith,
        h,
        f,
        index-insert [] route other (new ∷ index [] route subs) subs,
        str_eq_iff route other,
      ))
]

pub any-keep :
    (gone ch : ℕ) (xs : List ℕ)
    → any (λ c. c == ch) (keep (λ c. not (c == gone)) xs)
      ≡ any (λ c. c == ch) xs && not (gone == ch)
any-keep gone ch [] = refl
any-keep gone ch (x ∷ xs) = ground (arith, any-keep gone ch xs)

-- The sets behind the two branches of Unsubscribe.
abbrev left_over : String → Map (List ℕ) → List ℕ → Map (List ℕ)
left_over route subs [] = delete route subs
left_over route subs (c ∷ cs) = insert route (c ∷ cs) subs

pub index-left_over :
    (route other : String) (subs : Map (List ℕ)) (xs : List ℕ)
    → index [] other (left_over route subs xs)
      ≡ (if str_eq route other then xs else index [] other subs)
unfolding index
index-left_over route other subs [] = ground (arith, lookup-delete route other subs)
index-left_over route other subs (c ∷ cs) = ground (arith, lookup-insert route other (c ∷ cs) subs)

pub drop_sub-left_over :
    (route : String) (gone : ℕ) (subs : Map (List ℕ)) (chs : List ℕ)
    → lookup route subs ≡ some chs
    → drop_sub route gone subs ≡ left_over route subs (keep (λ c. not (c == gone)) chs)
unfolding drop_sub
drop_sub-left_over route gone subs chs e = ground (arith, e)

drop_sub-missing :
    (route : String) (gone : ℕ) (subs : Map (List ℕ))
    → lookup route subs ≡ none
    → drop_sub route gone subs ≡ subs
unfolding drop_sub
drop_sub-missing route gone subs e = ground (arith, e)

pub Holds-drop_sub :
    (subs : Map (List ℕ)) (route other : String) (gone ch : ℕ)
    → Holds (drop_sub route gone subs) other ch
    → Holds subs other ch × ((str_eq route other && (gone == ch)) ≡ false)
unfolding drop_sub index
Holds-drop_sub subs route other gone ch h = elim (Option-cases (lookup route subs)) [
  | inl e ↦ ground (arith, e, h, drop_sub-missing route gone subs e, str_eq_iff route other)
  | inr (chs, e) ↦
      let kept = keep (λ c. not (c == gone)) chs in
      let h' : any (λ c. c == ch) (if str_eq route other then kept else index [] other subs)
          ≡ true =
        sym (
          ap (any (λ c. c == ch)) (
            ap (index [] other) (drop_sub-left_over route gone subs chs e)
            ∙ index-left_over route other subs kept))
        ∙ h in
      ground (arith, h', e, any-keep gone ch chs, str_eq_iff route other)
]
