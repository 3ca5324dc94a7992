-- ===== src/Api/Tests.antt =====
-- The theorems on the API, at small values.
use usps_main.Common.{
  ℕ, ◌≡◌, refl, true, some, none, List, [], ◌∷◌, ◌==◌, any, All, arith, str_eq, if◌then◌else◌,
  get_or,
}
use usps_main.Common.Maps.{lookup, index, insert}
use usps_main.Api.Broker.{SseEvent, Broker, new_broker, subscribe, unsubscribe, publish}
use usps_main.Api.Broker.Sends.{Open}
use usps_main.Api.Broker.Safety.{IsRange, start, subscribed, Reached-Open}
use usps_main.Model.{text}
use usps_main.Common.Text.{has_prefix, strip_prefix}
use usps_main.Api.Principal.{
  Packages, Verifier, Headers, verify, verify_jwt, three_parts, check_signature, judged,
  principal_of, claim, bearer_of, behind, get_principal, is_admin, invalid_jwt,
}
use usps_main.Api.Principal.Trust.{IsSigned, get_principal-rejected, verify-IsSigned}

named_in :
    (xs all : List ℕ)
    → ((ch : ℕ) → any (λ c. c == ch) xs ≡ true → any (λ c. c == ch) all ≡ true)
    → All (λ ch. any (λ c. c == ch) all ≡ true) xs
named_in [] all h = tt
named_in (x ∷ xs) all h = (h x (ground arith), named_in xs all (λ ch k. h ch (ground (arith, k))))

-- Ranging over a set in the order of the list.
in_order-IsRange : IsRange (λ chs. chs)
in_order-IsRange chs = named_in chs chs (λ ch h. h)

abbrev arrived : SseEvent
arrived = record { kind = "arrived"; payload = [] }

Reached-Open_example :
    let b = (subscribe "r" new_broker).0 in
    ((b' : Broker) × (publish (λ chs. chs) "r" arrived b ≡ some b'))
    × ((b' : Broker) × (unsubscribe "r" 0 b ≡ some b'))
    × Open b.channels 0
unfolding subscribe new_broker index lookup insert
Reached-Open_example =
    Reached-Open (λ chs. chs) (subscribe "r" new_broker).0 "r" arrived 0 in_order-IsRange
      (subscribed "r" new_broker start) refl

-- Packages that know one token, h.p.s, whose signature is right if its first byte is the secret's.
abbrev packages : Packages
packages = record {
  split = λ s sep. if str_eq s "h.p.s" then "h" ∷ "p" ∷ "s" ∷ [] else [];
  to_lower = λ s. s;
  equal_fold = λ s t. str_eq s t;
  b64url_decode =
      λ s. some (if str_eq s "h" then 1 ∷ [] else if str_eq s "p" then 2 ∷ [] else 3 ∷ []);
  unmarshal = λ b. some (
      if get_or b 0 0 == 1
      then ("alg", text "HS256") ∷ []
      else ("tenant", text "t1") ∷ ("role", text "driver") ∷ []);
  bytes = λ s. [];
  trim_space = λ s. s;
  hmac_equal = λ secret input sig. get_or secret 0 0 == get_or sig 0 0;
  rsa_verify = λ key input sig. true;
  parses = λ url. true;
  fetch = λ url. none;
  now = 0;
}

abbrev hmac : Verifier
hmac = record {
  mode = "hmac";
  hmac_secret = 3 ∷ [];
  jwks_url = "";
  tenant_claim = "tenant";
  role_claim = "role";
  driver_claim = "sub";
  jwks = [];
  last_fetch = 0;
  cache_ttl = 600;
}

verify-IsSigned_example : IsSigned packages hmac "h.p.s"
unfolding verify verify_jwt three_parts check_signature judged principal_of claim lookup
verify-IsSigned_example =
    verify-IsSigned packages hmac "h.p.s"
      (record { tenant = "t1"; role = "driver"; driver_id = "" }) refl refl

abbrev forged : Headers
forged = record { authorization = "bearer forged"; tenant = ""; role = ""; driver_id = "" }

get_principal-rejected_example : is_admin (get_principal packages hmac forged).1 ≡ true
unfolding verify three_parts bearer_of behind has_prefix strip_prefix
get_principal-rejected_example =
    get_principal-rejected packages hmac forged "forged" invalid_jwt refl refl refl
