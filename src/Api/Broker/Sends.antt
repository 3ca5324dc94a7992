-- ===== src/Api/Broker/Sends.antt =====
-- Sends to the channels of a route: on open channels they do not panic and leave the channels open.
use usps_main.Common.{
  ℕ, zero, suc, ◌≤◌, ◌≡◌, inl, inr, refl, sym, ap, ◌∙◌, subst, true, false, Option, none, some,
  List, [], ◌∷◌, ◌++◌, ◌==◌, ltb, length, get_elem?, set, any, All, length-append, Bool-cases,
  ==→eq, arith,
}
use usps_main.Api.Broker.{SseEvent, Channel, capacity, offer, offer_all}

-- The channel was made, is open, and holds no more than its capacity.
abbrev pub Open : List Channel → ℕ → Type 0
Open channels ch =
    (c : Channel) × (get_elem? channels ch ≡ some c)
    × (c.closed ≡ false)
    × (length c.buffer ≤ capacity)

get_elem?-set_self :
    {A : Type 0} (xs : List A) (i : ℕ) (v : A) {c : A}
    → get_elem? xs i ≡ some c
    → get_elem? (set xs i v) i ≡ some v
get_elem?-set_self [] i v e = ground (arith, e)
get_elem?-set_self (x ∷ xs) zero v e = refl
get_elem?-set_self (x ∷ xs) (suc i) v e = get_elem?-set_self xs i v e

get_elem?-set_ne :
    {A : Type 0} (xs : List A) (i j : ℕ) (v : A)
    → (i ≡ j → ⊥)
    → get_elem? (set xs i v) j ≡ get_elem? xs j
get_elem?-set_ne [] i j v h = refl
get_elem?-set_ne (x ∷ xs) zero zero v h = absurd (h refl)
get_elem?-set_ne (x ∷ xs) zero (suc j) v h = refl
get_elem?-set_ne (x ∷ xs) (suc i) zero v h = refl
get_elem?-set_ne (x ∷ xs) (suc i) (suc j) v h = get_elem?-set_ne xs i j v (λ e. h (ap suc e))

pub get_elem?-append :
    {A : Type 0} (xs ys : List A) (i : ℕ) {c : A}
    → get_elem? xs i ≡ some c
    → get_elem? (xs ++ ys) i ≡ some c
get_elem?-append [] ys i e = ground (arith, e)
get_elem?-append (x ∷ xs) ys zero e = e
get_elem?-append (x ∷ xs) ys (suc i) e = get_elem?-append xs ys i e

pub get_elem?-last :
    {A : Type 0} (xs : List A) (v : A) → get_elem? (xs ++ v ∷ []) (length xs) ≡ some v
get_elem?-last [] v = refl
get_elem?-last (x ∷ xs) v = get_elem?-last xs v

pub get_elem?-length : {A : Type 0} (xs : List A) → get_elem? xs (length xs) ≡ none
get_elem?-length [] = refl
get_elem?-length (x ∷ xs) = get_elem?-length xs

pub set-Open_ne :
    (channels : List Channel) (ch j : ℕ) (v : Channel)
    → (ch ≡ j → ⊥)
    → Open channels j
    → Open (set channels ch v) j
set-Open_ne channels ch j v h (d, e, o, l) = (d, get_elem?-set_ne channels ch j v h ∙ e, o, l)

-- A write that leaves the channel open leaves every open channel open.
pub set-Open :
    (channels : List Channel) (ch j : ℕ) (v : Channel)
    → v.closed ≡ false
    → length v.buffer ≤ capacity
    → Open channels j
    → Open (set channels ch v) j
set-Open channels ch j v o l h = elim (Bool-cases (ch == j)) [
  | inl f ↦ (
    v,
    subst (λ i. get_elem? (set channels i v) j ≡ some v) (sym (==→eq ch j f))
        (get_elem?-set_self channels j v h.1),
    o,
    l,
  )
  | inr f ↦ set-Open_ne channels ch j v (λ e. ground (arith, e, f)) h
]

-- What a send to open channels leaves: no panic, and every open channel open.
abbrev pub Sent : List Channel → Option (List Channel) → Type 0
Sent channels sent =
    (channels' : List Channel) × (sent ≡ some channels')
    × ((j : ℕ) → Open channels j → Open channels' j)

offer-Sent :
    (evt : SseEvent) (ch : ℕ) (channels : List Channel)
    → Open channels ch
    → Sent channels (offer evt ch channels)
unfolding offer
offer-Sent evt ch channels (c, e, o, l) = elim (Bool-cases (ltb (length c.buffer) capacity)) [
  | inl f ↦ (
    set channels ch (record c { buffer = c.buffer ++ evt ∷ [] }),
    ground (arith, e, o, f),
    λ j h.
        set-Open channels ch j (record c { buffer = c.buffer ++ evt ∷ [] }) o
          (ground (arith, f, length-append c.buffer (evt ∷ []))) h,
  )
  | inr f ↦ (channels, ground (arith, e, o, f), λ j h. h)
]

All-Open :
    (channels channels' : List Channel) (chs : List ℕ)
    → ((j : ℕ) → Open channels j → Open channels' j)
    → All (Open channels) chs
    → All (Open channels') chs
All-Open channels channels' [] h a = tt
All-Open channels channels' (c ∷ chs) h (o, a) = (h c o, All-Open channels channels' chs h a)

pub offer_all-Sent :
    (evt : SseEvent) (chs : List ℕ) (channels : List Channel)
    → All (Open channels) chs
    → Sent channels (offer_all evt chs channels)
unfolding offer_all
offer_all-Sent evt [] channels h = (channels, refl, λ j o. o)
offer_all-Sent evt (ch ∷ chs) channels (o, h) =
    let one = offer-Sent evt ch channels o in
    let rest = offer_all-Sent evt chs one.0 (All-Open channels one.0 chs one.2 h) in
    (rest.0, ground (arith, one.1, rest.1), λ j k. rest.2 j (one.2 j k))

pub Holds-All :
    (channels : List Channel) (chs : List ℕ) (all : List ℕ)
    → ((ch : ℕ) → any (λ c. c == ch) all ≡ true → Open channels ch)
    → All (λ ch. any (λ c. c == ch) all ≡ true) chs
    → All (Open channels) chs
Holds-All channels [] all h a = tt
Holds-All channels (c ∷ chs) all h (m, a) = (h c m, Holds-All channels chs all h a)
