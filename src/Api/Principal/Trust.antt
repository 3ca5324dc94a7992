-- ===== src/Api/Principal/Trust.antt =====
-- When a caller is believed.
use usps_main.Common.{
  ℕ, ◌≡◌, refl, sym, ap, ◌∙◌, inl, inr, String, Bool, true, false, Option, none, some, List, [],
  ◌∷◌, not, str_eq, if◌then◌else◌, Option-cases, arith, subst,
}
use usps_main.Common.Maps.{Map}
use usps_main.Model.{Any}
use usps_main.Api.Principal.{
  Principal, Packages, Verifier, Verified, ok, err, AuthError, unsupported_alg, bad_signature,
  invalid_jwt, Headers, verify, get_principal, from_headers, is_admin, principal_or,
  check_signature, verify_jwt, signing_input, bearer_of, judged, three_parts, claim,
}

-- A bearer token that the verifier rejects is passed over: with no role in the headers, the caller is an
-- administrator, of the tenant in the headers or of the demo tenant.
pub get_principal-rejected :
    (lib : Packages) (v : Verifier) (h : Headers) (token : String) (e : AuthError)
    → bearer_of lib h ≡ some token
    → (verify lib v token).1 ≡ err e
    → h.role ≡ ""
    → is_admin (get_principal lib v h).1 ≡ true
unfolding get_principal from_headers
get_principal-rejected lib v h token e b f r =
    rw (b, get_principal)
      (subst (λ x. is_admin (principal_or (from_headers h) x) ≡ true) (sym f)
        (ap (λ s. str_eq (if str_eq s "" then "admin" else s) "admin") r))

-- A signature over the token's first two parts that the secret makes.
abbrev pub IsSigned : Packages → Verifier → String → Type 0
IsSigned lib v token =
    (s0 s1 s2 : String) × (sig : List ℕ) × (lib.split token "." ≡ s0 ∷ s1 ∷ s2 ∷ [])
    × (lib.b64url_decode s2 ≡ some sig)
    × (lib.hmac_equal v.hmac_secret (signing_input lib s0 s1) sig ≡ true)

judged-ok :
    (lib : Packages) (v : Verifier) (claims : Map Any) (o : Option AuthError) (p : Principal)
    → judged lib v claims o ≡ ok p
    → o ≡ none
unfolding judged
judged-ok lib v claims none p h = refl
judged-ok lib v claims (some e) p h = ground (arith, h)

if_true : {A : Type 0} {x : A} (y : A) (b : Bool) → b ≡ true → (if b then x else y) ≡ x
if_true {x = x} y b e = ap (λ c. if c then x else y) e

if_false : {A : Type 0} (x : A) {y : A} (b : Bool) → b ≡ false → (if b then x else y) ≡ y
if_false x {y = y} b e = ap (λ c. if c then x else y) e

is_hmac : (v : Verifier) → v.mode ≡ "hmac" → str_eq v.mode "hmac" ≡ true
is_hmac v m = subst (λ s. str_eq s "hmac" ≡ true) (sym m) refl

none_of :
    (b c : Bool) (x y : AuthError)
    → (if b then some x else if c then none else some y) ≡ none
    → c ≡ true
none_of b c x y h = ground (arith, h)

check_signature-hmac :
    (lib : Packages) (v : Verifier) (hdr : Map Any) (input sig : List ℕ)
    → v.mode ≡ "hmac"
    → (check_signature lib v hdr input sig).1 ≡ none
    → lib.hmac_equal v.hmac_secret input sig ≡ true
unfolding check_signature
check_signature-hmac lib v hdr input sig m h =
    none_of (not (str_eq (claim "alg" hdr) "HS256")) (lib.hmac_equal v.hmac_secret input sig)
      unsupported_alg bad_signature
      (ap {A = Verifier × Option AuthError} (λ t. t.1)
          (sym (if_true _ (str_eq v.mode "hmac") (is_hmac v m)))
        ∙ h)

verify_jwt-hmac :
    (lib : Packages) (v : Verifier) (s0 s1 s2 : String) (p : Principal)
    → v.mode ≡ "hmac"
    → (verify_jwt lib v s0 s1 s2).1 ≡ ok p
    → (sig : List ℕ) × (lib.b64url_decode s2 ≡ some sig)
      × (lib.hmac_equal v.hmac_secret (signing_input lib s0 s1) sig ≡ true)
unfolding verify_jwt
verify_jwt-hmac lib v s0 s1 s2 p m h = elim (Option-cases (lib.b64url_decode s0)) [
  | inl a ↦ ground (arith, h, a)
  | inr (header, a) ↦ elim (Option-cases (lib.b64url_decode s1)) [
    | inl b ↦ ground (arith, h, a, b)
    | inr (payload, b) ↦ elim (Option-cases (lib.b64url_decode s2)) [
      | inl c ↦ ground (arith, h, a, b, c)
      | inr (sig, c) ↦ elim (Option-cases (lib.unmarshal header)) [
        | inl d ↦ ground (arith, h, a, b, c, d)
        | inr (hdr, d) ↦ elim (Option-cases (lib.unmarshal payload)) [
          | inl e ↦ ground (arith, h, a, b, c, d, e)
          | inr (claims, e) ↦
              let j : judged lib v claims
                    (check_signature lib v hdr (signing_input lib s0 s1) sig).1
                  ≡ ok p =
                ground (arith, h, a, b, c, d, e) in
              (
                sig,
                c,
                check_signature-hmac lib v hdr (signing_input lib s0 s1) sig m (
                    judged-ok lib v claims
                      (check_signature lib v hdr (signing_input lib s0 s1) sig).1 p j),
              )
        ]
      ]
    ]
  ]
]

three_parts-some :
    (parts : List String) (s0 s1 s2 : String)
    → three_parts parts ≡ some (s0, s1, s2)
    → parts ≡ s0 ∷ s1 ∷ s2 ∷ []
unfolding three_parts
three_parts-some [] s0 s1 s2 e = ground (arith, e)
three_parts-some (a ∷ []) s0 s1 s2 e = ground (arith, e)
three_parts-some (a ∷ b ∷ []) s0 s1 s2 e = ground (arith, e)
three_parts-some (a ∷ b ∷ c ∷ []) s0 s1 s2 e =
    ap (λ o. elim o [ none ↦ [] | some (x, y, z) ↦ x ∷ y ∷ z ∷ [] ]) e
three_parts-some (a ∷ b ∷ c ∷ d ∷ parts) s0 s1 s2 e = ground (arith, e)

-- The switch behind the test for the mode "dev".
verify-hmac :
    (lib : Packages) (v : Verifier) (token : String)
    → v.mode ≡ "hmac"
    → (verify lib v token).1
      ≡ (elim (three_parts (lib.split token ".")) as (λ _. Verifier × Verified) [
        | none ↦ (v, err invalid_jwt)
        | some (s0, s1, s2) ↦ verify_jwt lib v s0 s1 s2
      ]).1
unfolding verify
verify-hmac lib v token m =
    ap {A = Verifier × Verified} (λ t. t.1)
      (if_false _ (str_eq v.mode "dev") (subst (λ s. str_eq s "dev" ≡ false) (sym m) refl))

-- In the mode "hmac" a token is accepted only if it has three parts and the third is a signature of the
-- first two that the verifier's secret makes.
pub verify-IsSigned :
    (lib : Packages) (v : Verifier) (token : String) (p : Principal)
    → v.mode ≡ "hmac"
    → (verify lib v token).1 ≡ ok p
    → IsSigned lib v token
unfolding verify
verify-IsSigned lib v token p m h = elim (Option-cases (three_parts (lib.split token "."))) [
  | inl a ↦ ground (arith, a, sym (verify-hmac lib v token m) ∙ h)
  | inr ((s0, s1, s2), a) ↦
      let found =
        verify_jwt-hmac lib v s0 s1 s2 p m
          (ground (arith, a, sym (verify-hmac lib v token m) ∙ h)) in
      (s0, s1, s2, found.0, three_parts-some (lib.split token ".") s0 s1 s2 a, found.1, found.2)
]
