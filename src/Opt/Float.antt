-- ===== src/Opt/Float.antt =====
-- What the optimiser uses of float64, of the packages math and time, and of a random source.
-- Nothing is assumed of these operations but what a theorem names among its hypotheses.
use usps_main.Common.{ℕ, Bool, ℤ}

pub record Float64 (F : Type 0) : Type 0 where
  -- `lit n d` is the literal n / d, such as `lit 1 1_000_000` for 1e-6.
  pub lit : ℕ → ℕ → F
  pub max_float : F
  pub pi : F
  pub add : F → F → F
  pub sub : F → F → F
  pub mul : F → F → F
  pub div : F → F → F
  pub lt : F → F → Bool
  pub eq : F → F → Bool
  pub sin : F → F
  pub cos : F → F
  pub sqrt : F → F
  pub atan2 : F → F → F
  pub exp : F → F
  pub max : F → F → F
  -- `float64(n)` and `int(x)`.
  pub of_int : ℤ → F
  pub to_int : F → ℤ
  -- `t.Sub(time.Unix(0, 0)).Seconds()` and `b.Sub(a).Seconds()`; times are nanoseconds, 0 the zero time.
  pub unix_seconds : ℕ → F
  pub seconds_between : ℕ → ℕ → F

-- A `*rand.Rand` with state `S`.
pub record Rand (F S : Type 0) : Type 0 where
  pub intn : ℕ → S → ℕ × S
  pub float64 : S → F × S

infixl 65 ◌⊕◌ ◌⊖◌
infixl 70 ◌⊗◌ ◌⊘◌
abbrev pub ◌⊕◌ : {F : Type 0} ⦃fl : Float64 F⦄ → F → F → F
◌⊕◌ ⦃fl⦄ = fl.add

abbrev pub ◌⊖◌ : {F : Type 0} ⦃fl : Float64 F⦄ → F → F → F
◌⊖◌ ⦃fl⦄ = fl.sub

abbrev pub ◌⊗◌ : {F : Type 0} ⦃fl : Float64 F⦄ → F → F → F
◌⊗◌ ⦃fl⦄ = fl.mul

abbrev pub ◌⊘◌ : {F : Type 0} ⦃fl : Float64 F⦄ → F → F → F
◌⊘◌ ⦃fl⦄ = fl.div

infix 50 ◌≺◌
abbrev pub ◌≺◌ : {F : Type 0} ⦃fl : Float64 F⦄ → F → F → Bool
◌≺◌ ⦃fl⦄ = fl.lt
