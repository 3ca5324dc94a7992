-- ===== src/Api/Principal.antt =====
-- internal/api/auth.go and Verify of internal/auth/verifier.go: who calls, and in which role.
pub mod Trust
use Prim.Native.String.{◌++◌ as text_append}
use usps_main.Common.{
  length, ltb, ◌*◌, ◌&&◌, ◌+◌, ◌-◌, ◌%◌, ◌^◌, ◌==◌, ◌||◌, ℕ, zero, suc, String, Bool, Option, none,
  some, List, [], ◌∷◌, not, str_eq, if◌then◌else◌,
}
use usps_main.Common.Text.{has_prefix}
use usps_main.Common.Maps.{lookup, Map}
use usps_main.Model.{Any, text}

pub record Principal : Type 0 where
  pub tenant : String
  pub role : String
  pub driver_id : String

pub data AuthError : Type 0 where
  invalid_dev_token invalid_jwt bad_encoding bad_json unsupported_alg bad_signature : AuthError
  no_key unsupported_mode missing_tenant : AuthError

pub data Verified : Type 0 where
  ok : Principal → Verified
  err : AuthError → Verified

-- A key of the key set (`jwk`).
pub record Jwk : Type 0 where
  pub kty : String
  pub kid : String
  pub n : String
  pub e : String
  pub alg : String

-- The key set is a cache; the clock is read against `last_fetch` and `cache_ttl`. `jwks_url` is a
-- URL that url.Parse takes (`parses` below), as the empty one: with another AUTH_JWKS_URL, http.NewRequest
-- gives fetchJWKS a nil request and Do panics. Such a configuration is not modelled.
pub record Verifier : Type 0 where
  pub mode : String
  pub hmac_secret : List ℕ
  pub jwks_url : String
  pub tenant_claim : String
  pub role_claim : String
  pub driver_claim : String
  pub jwks : List Jwk
  pub last_fetch : ℕ
  pub cache_ttl : ℕ

-- An RSA public key: the modulus as bytes, and the exponent.
pub record PublicKey : Type 0 where
  pub modulus : List ℕ
  pub exponent : ℕ

-- The packages that the verifier calls: strings, base64, json, hmac, rsa, http and time. `bytes` is the
-- conversion to []byte, `hmac_equal` compares the HMAC of an input under a secret with a signature, and
-- `parses` is whether url.Parse takes a text, and `fetch url` is the key set behind a URL that it takes,
-- `none` on an error.
pub record Packages : Type 0 where
  pub split : String → String → List String
  pub to_lower : String → String
  pub equal_fold : String → String → Bool
  pub b64url_decode : String → Option (List ℕ)
  pub unmarshal : List ℕ → Option (Map Any)
  pub bytes : String → List ℕ
  pub trim_space : String → String
  pub hmac_equal : List ℕ → List ℕ → List ℕ → Bool
  pub rsa_verify : PublicKey → List ℕ → List ℕ → Bool
  pub parses : String → Bool
  pub fetch : String → Option (List Jwk)
  pub now : ℕ

-- `v, _ := m[k].(string)`.
unfoldable pub claim : String → Map Any → String
claim k m = elim (lookup k m) [ none ↦ "" | some v ↦ elim v [ text s ↦ s | _ ↦ "" ] ]

-- A JWT has three parts.
unfoldable pub three_parts : List String → Option (String × String × String)
three_parts (s0 ∷ s1 ∷ s2 ∷ []) = some (s0, s1, s2)
three_parts _ = none

-- `x = (x << 8) | int(v)` on 64 bits.
unfoldable pub bytes_to_int : ℕ → List ℕ → ℕ
bytes_to_int x [] = x
bytes_to_int x (v ∷ b) = bytes_to_int ((x * 256 + v) % 2 ^ 64) b

module _ (lib : Packages) where
  -- `[]byte(segs[0] + "." + segs[1])`.
  unfoldable pub signing_input : String → String → List ℕ
  signing_input s0 s1 = lib.bytes (text_append s0 (text_append "." s1))

  -- The token format tenant:role.
  unfoldable pub verify_dev : String → Verified
  verify_dev token = elim (lib.split token ":") [
    | [] ↦ err invalid_dev_token
    | tenant ∷ rest ↦ elim rest [
      | [] ↦ err invalid_dev_token
      | role ∷ _ ↦ ok (record { tenant = tenant; role = role; driver_id = "" })
    ]
  ]

  -- fetchJWKS.
  unfoldable pub fetch_jwks : Verifier → Option Verifier
  fetch_jwks v = if str_eq v.jwks_url "" then none else elim (lib.fetch v.jwks_url) [
    | none ↦ none
    | some keys ↦ some (record v { jwks = keys; last_fetch = lib.now })
  ]

  -- The cache is fetched anew if it is empty or older than its time to live.
  unfoldable pub refreshed : Verifier → Option Verifier
  unfolding fetch_jwks
  refreshed v =
      if length v.jwks == 0 || ltb v.cache_ttl (lib.now - v.last_fetch)
      then fetch_jwks v
      else some v

  -- The first key with the id, of type RSA; the decoding of that key may fail.
  unfoldable pub find_key : String → List Jwk → Option PublicKey
  unfolding bytes_to_int
  find_key kid [] = none
  find_key kid (k ∷ keys) =
      let rest = find_key kid keys in
      if str_eq k.kid kid && lib.equal_fold k.kty "RSA"
      then elim (lib.b64url_decode k.n) [
        | none ↦ none
        | some n ↦ elim (lib.b64url_decode k.e) [
          | none ↦ none
          | some e ↦ some (record { modulus = n; exponent = bytes_to_int 0 e })
        ]
      ]
      else rest

  -- The case "jwks" behind the test of the algorithm.
  unfoldable pub check_rsa : Verifier → String → List ℕ → List ℕ → Verifier × Option AuthError
  unfolding refreshed find_key
  check_rsa v kid input sig = elim (refreshed v) [
    | none ↦ (v, some no_key)
    | some v' ↦ elim (find_key kid v'.jwks) [
      | none ↦ (v', some no_key)
      | some key ↦ (v', if lib.rsa_verify key input sig then none else some bad_signature)
    ]
  ]

  -- The switch on the mode: `none` if the signature holds.
  unfoldable pub check_signature :
      Verifier → Map Any → List ℕ → List ℕ → Verifier × Option AuthError
  unfolding claim check_rsa
  check_signature v hdr input sig =
      let alg = claim "alg" hdr in
      if str_eq v.mode "hmac"
      then (
        v,
        if not (str_eq alg "HS256")
            then some unsupported_alg
            else if lib.hmac_equal v.hmac_secret input sig
            then none
            else some bad_signature,
      )
      else if str_eq v.mode "jwks"
      then (if not (str_eq alg "RS256")
          then (v, some unsupported_alg)
          else check_rsa v (claim "kid" hdr) input sig)
      else (v, some unsupported_mode)

  -- The principal that the claims name.
  unfoldable pub principal_of : Verifier → Map Any → Verified
  unfolding claim
  principal_of v claims =
      let tenant = claim v.tenant_claim claims in
      let role = claim v.role_claim claims in
      if str_eq tenant ""
      then err missing_tenant
      else ok (record {
        tenant = tenant;
        role = lib.to_lower (if str_eq role "" then "user" else role);
        driver_id = claim v.driver_claim claims;
      })

  unfoldable pub judged : Verifier → Map Any → Option AuthError → Verified
  unfolding principal_of
  judged v claims (some e) = err e
  judged v claims none = principal_of v claims

  -- The parts of a token, decoded in the order of the code.
  unfoldable pub verify_jwt : Verifier → String → String → String → Verifier × Verified
  unfolding check_signature judged signing_input
  verify_jwt v s0 s1 s2 = elim (lib.b64url_decode s0) [
    | none ↦ (v, err bad_encoding)
    | some header ↦ elim (lib.b64url_decode s1) [
      | none ↦ (v, err bad_encoding)
      | some payload ↦ elim (lib.b64url_decode s2) [
        | none ↦ (v, err bad_encoding)
        | some sig ↦ elim (lib.unmarshal header) [
          | none ↦ (v, err bad_json)
          | some hdr ↦ elim (lib.unmarshal payload) [
            | none ↦ (v, err bad_json)
            | some claims ↦
                let checked = check_signature v hdr (signing_input s0 s1) sig in
                (checked.0, judged v claims checked.1)
          ]
        ]
      ]
    ]
  ]

  unfoldable pub verify : Verifier → String → Verifier × Verified
  unfolding verify_dev verify_jwt three_parts
  verify v token =
      if str_eq v.mode "dev"
      then (v, verify_dev token)
      else elim (three_parts (lib.split token ".")) [
        | none ↦ (v, err invalid_jwt)
        | some (s0, s1, s2) ↦ verify_jwt v s0 s1 s2
      ]

-- The headers that getPrincipal reads: Authorization, and the three of the fallback.
pub record Headers : Type 0 where
  pub authorization : String
  pub tenant : String
  pub role : String
  pub driver_id : String

-- `authz[n:]`; the characters in front are those of "bearer ", of one byte each.
unfoldable pub behind : ℕ → String → String
behind zero s = s
behind (suc n) String.[] = String.[]
behind (suc n) (String.◌∷◌ c s) = behind n s

-- The token of an Authorization header that begins with "bearer ", in whatever case. NewServer sets
-- `s.Auth`, so the test that it is not nil holds.
unfoldable pub bearer_of : Packages → Headers → Option String
unfolding has_prefix behind
bearer_of lib h =
    if has_prefix (lib.to_lower h.authorization) "bearer "
    then some (lib.trim_space (behind 7 h.authorization))
    else none

-- The fallback, for development.
unfoldable pub from_headers : Headers → Principal
from_headers h = record {
  tenant = if str_eq h.tenant "" then "t_demo" else h.tenant;
  role = if str_eq h.role "" then "admin" else h.role;
  driver_id = h.driver_id;
}

abbrev pub principal_or : Principal → Verified → Principal
principal_or other (ok pr) = pr
principal_or other (err _) = other

-- A token that is not verified is passed over.
unfoldable pub get_principal : Packages → Verifier → Headers → Verifier × Principal
unfolding verify from_headers bearer_of
get_principal lib v h = elim (bearer_of lib h) [
  | none ↦ (v, from_headers h)
  | some token ↦
      let checked = verify lib v token in (checked.0, principal_or (from_headers h) checked.1)
]

abbrev pub is_admin : Principal → Bool
is_admin p = str_eq p.role "admin"
