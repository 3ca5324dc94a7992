-- ===== src/Http/Paths.antt =====
-- The paths of the drivers' endpoints: DriversHandler of internal/api/handlers.go reads back the driver and
-- the action of which the path is made.
use Prim.Native.Char.{Char, code}
use Prim.Native.String.{◌++◌ as text_append}
use Prim.Native.String.append
use text.Mathlib.TextEquality.{Char-path}
use usps_main.Http.Backend.{Backend}
use usps_main.Http.Act.{Request, Web, write_problem}
use usps_main.Http.Handlers.Events.{
  drivers_handler, driver_parts, drive_action, hos_update_of, hos_fields,
}
use usps_main.Common.{
  ◌≡◌, refl, sym, ap, ◌∙◌, String, Bool, true, false, ℕ, List, [], ◌∷◌, some, none, ◌==◌, ==→eq,
  eq→==, arith, if◌then◌else◌, Bool-cases, inl, inr, ◌&&◌, not,
}
use usps_main.Common.Text.{
  is_some, strip_prefix, trim_prefix, has_prefix, split_on, split_slash, join_slash,
}

abbrev slash : Char
slash = "/"

unfoldable pub lacks : ℕ → String → Bool
lacks sep String.[] = true
lacks sep (String.◌∷◌ c s) = let rest = lacks sep s in not (code c == sep) && rest

strip_prefix-append : (p s : String) → strip_prefix p (text_append p s) ≡ some s
unfolding strip_prefix
strip_prefix-append String.[] s = ap some (append.nil s)
strip_prefix-append (String.◌∷◌ c p) s =
    ap (strip_prefix (String.◌∷◌ c p)) (append.cons c p s)
    ∙ ground (arith, eq→== (code c) (code c) refl, strip_prefix-append p s)

split_on-append :
    (sep : ℕ) (c : Char) (d s : String)
    → code c ≡ sep
    → lacks sep d ≡ true
    → split_on sep (text_append d (String.◌∷◌ c s)) ≡ d ∷ split_on sep s
unfolding split_on lacks
split_on-append sep c String.[] s e l =
    ap (split_on sep) (append.nil (String.◌∷◌ c s)) ∙ ground (arith, e, eq→== (code c) sep e)
split_on-append sep c (String.◌∷◌ x d) s e l =
    ap (split_on sep) (append.cons x d (String.◌∷◌ c s))
    ∙ ground (arith, l, split_on-append sep c d s e)

split_on-cons :
    (sep : ℕ) (s : String) → (x : String) × (parts : List String) × (split_on sep s ≡ x ∷ parts)
unfolding split_on
split_on-cons sep String.[] = ("", [], refl)
split_on-cons sep (String.◌∷◌ c s) =
    let (x, parts, e) = split_on-cons sep s in
    elim (Bool-cases (code c == sep)) [
      | inl f ↦ ("", split_on sep s, ground (arith, f))
      | inr f ↦ (String.◌∷◌ c x, parts, ground (arith, f, e))
    ]

join_slash-onto :
    (c : Char) (x : String) (parts : List String)
    → join_slash (String.◌∷◌ c x ∷ parts) ≡ String.◌∷◌ c (join_slash (x ∷ parts))
unfolding join_slash
join_slash-onto c x [] = refl
join_slash-onto c x (y ∷ parts) = append.cons c x (text_append "/" (join_slash (y ∷ parts)))

join_slash-slash :
    (x : String) (parts : List String)
    → join_slash ("" ∷ x ∷ parts) ≡ String.◌∷◌ slash (join_slash (x ∷ parts))
unfolding join_slash
join_slash-slash x parts =
    append.nil (text_append "/" (join_slash (x ∷ parts)))
    ∙ append.cons slash "" (join_slash (x ∷ parts))
    ∙ ap (String.◌∷◌ slash) (append.nil (join_slash (x ∷ parts)))

split_on-slash :
    (c : Char) (s : String)
    → (code c == b'/') ≡ true
    → split_slash (String.◌∷◌ c s) ≡ "" ∷ split_slash s
unfolding split_on
split_on-slash c s f = ground (arith, f)

split_on-other :
    (c : Char) (s x : String) (parts : List String)
    → (code c == b'/') ≡ false
    → split_slash s ≡ x ∷ parts
    → split_slash (String.◌∷◌ c s) ≡ String.◌∷◌ c x ∷ parts
unfolding split_on
split_on-other c s x parts f e = ground (arith, f, e)

-- What is split by slashes and joined again is what it was.
join_slash-split_slash : (s : String) → join_slash (split_slash s) ≡ s
unfolding split_on join_slash
join_slash-split_slash String.[] = refl
join_slash-split_slash (String.◌∷◌ c s) =
    let (x, parts, e) = split_on-cons b'/' s in
    let rest : join_slash (x ∷ parts) ≡ s = ap join_slash (sym e) ∙ join_slash-split_slash s in
    elim (Bool-cases (code c == b'/')) [
      | inl f ↦
          ap join_slash (split_on-slash c s f ∙ ap (λ ps. "" ∷ ps) e)
          ∙ join_slash-slash x parts
          ∙ ap (String.◌∷◌ slash) rest
          ∙ ap (λ k. String.◌∷◌ k s) (Char-path slash c (sym (==→eq (code c) b'/' f)))
      | inr f ↦
          ap join_slash (split_on-other c s x parts f e)
          ∙ join_slash-onto c x parts
          ∙ ap (String.◌∷◌ c) rest
    ]

module _ {S : Type 0} (api : Backend S) (web : Web) where
  drivers_handler-rest :
      (r : Request) (rest : String)
      → r.path ≡ text_append "/v1/drivers/" rest
      → drivers_handler api web r ≡ driver_parts api web r (split_slash rest)
  unfolding drivers_handler has_prefix trim_prefix
  drivers_handler-rest r rest e =
      let stripped : strip_prefix "/v1/drivers/" r.path ≡ some rest =
        ap (strip_prefix "/v1/drivers/") e ∙ strip_prefix-append "/v1/drivers/" rest in
      ap
        (λ o.
          if not (is_some o)
          then write_problem 404 "Not Found" "" r
          else driver_parts api web r (split_slash (elim o [ none ↦ r.path | some t ↦ t ])))
        stripped

  driver_parts-joined :
      (r : Request) (driver action : String)
      → driver_parts api web r (driver ∷ split_slash action)
        ≡ drive_action api web r driver (hos_update_of api web (hos_fields api web r) action)
  unfolding driver_parts
  driver_parts-joined r driver action =
      let (x, parts, e) = split_on-cons b'/' action in
      ap (λ ps. driver_parts api web r (driver ∷ ps)) e
      ∙ ap (λ t. drive_action api web r driver (hos_update_of api web (hos_fields api web r) t))
          (ap join_slash (sym e) ∙ join_slash-split_slash action)

  -- The path made of a driver and an action is read back: where the driver has no slash, the handler runs
  -- the whole action, slashes included, for that driver.
  pub drivers_handler-drive_action :
      (r : Request) (driver action : String)
      → lacks b'/' driver ≡ true
      → r.path ≡ text_append "/v1/drivers/" (text_append driver (text_append "/" action))
      → drivers_handler api web r
        ≡ drive_action api web r driver (hos_update_of api web (hos_fields api web r) action)
  drivers_handler-drive_action r driver action l e =
      let joined : text_append "/" action ≡ String.◌∷◌ slash action =
        append.cons slash "" action ∙ ap (String.◌∷◌ slash) (append.nil action) in
      drivers_handler-rest r (text_append driver (text_append "/" action)) e
      ∙ ap (driver_parts api web r) (
          ap (λ t. split_slash (text_append driver t)) joined
          ∙ split_on-append b'/' slash driver action refl l)
      ∙ driver_parts-joined r driver action
