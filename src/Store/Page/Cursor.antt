-- ===== src/Store/Page/Cursor.antt =====
-- What a cursor of Store/Page names: the id that was read last, in a list without repetition.
use usps_main.Common.{
  ℕ, zero, suc, ◌≡◌, refl, ap, String, false, some, List, [], ◌∷◌, ◌++◌, length, drop, find_index,
  any, any-append, ℤ, pos, negsuc, str_eq, str_eq_iff, str_eq_refl, arith,
}
use usps_main.Store.Page.{start_of, limit_or_100}

-- No id stands twice in the list.
abbrev pub Distinct : List String → Type 0
Distinct [] = Unit {0}
Distinct (x ∷ xs) = (any (str_eq x) xs ≡ false) × Distinct xs

-- No id is the empty text, which stands for "no cursor".
abbrev pub Named : List String → Type 0
Named [] = Unit {0}
Named (x ∷ xs) = (str_eq x "" ≡ false) × Named xs

pub limit_or_100_pos : (limit : ℤ) → (n : ℕ) × (limit_or_100 limit ≡ suc n)
unfolding limit_or_100
limit_or_100_pos (pos zero) = (99, refl)
limit_or_100_pos (pos (suc n)) = (n, refl)
limit_or_100_pos (negsuc n) = (99, refl)

-- The last id of a list that is not empty, or the given one.
abbrev pub last_of : String → List String → String
last_of c [] = c
last_of c (x ∷ xs) = last_of x xs

find_index-none :
    (c : String) (xs ys : List String)
    → any (str_eq c) xs ≡ false
    → find_index (λ id. str_eq id c) (xs ++ c ∷ ys) ≡ some (length xs)
find_index-none c [] ys h = ground (arith, str_eq_refl c)
find_index-none c (x ∷ xs) ys h =
    ground (arith, str_eq_iff x c, str_eq_iff c x, find_index-none c xs ys)

drop_past : (c : String) (xs ys : List String) → drop (suc (length xs)) (xs ++ c ∷ ys) ≡ ys
drop_past c [] ys = refl
drop_past c (x ∷ xs) ys = drop_past c xs ys

-- Behind a cursor that stands once in the list, the rest of the list is read.
pub drop-start_of :
    (c : String) (xs ys : List String)
    → any (str_eq c) xs ≡ false
    → str_eq c "" ≡ false
    → drop (start_of c (xs ++ c ∷ ys)) (xs ++ c ∷ ys) ≡ ys
unfolding start_of
drop-start_of c xs ys h e = rw (e, find_index-none c xs ys h) (drop_past c xs ys)

pub init_of : String → List String → List String
init_of x [] = []
init_of x (y ∷ ys) = x ∷ init_of y ys

pub init-append-last : (x : String) (xs : List String) → init_of x xs ++ last_of x xs ∷ [] ≡ x ∷ xs
unfolding init_of
init-append-last x [] = refl
init-append-last x (y ∷ ys) = ap (◌∷◌ x) (init-append-last y ys)

-- An id of a list without repetition does not stand before itself.
pub Distinct-before :
    (l : String) (xs ys : List String) → Distinct (xs ++ l ∷ ys) → any (str_eq l) xs ≡ false
Distinct-before l [] ys d = refl
Distinct-before l (x ∷ xs) ys d = ground (
  arith,
  str_eq_iff l x,
  str_eq_iff x l,
  any-append (str_eq x) xs (l ∷ ys),
  Distinct-before l xs ys d.1,
)

pub Named-at : (l : String) (xs ys : List String) → Named (xs ++ l ∷ ys) → str_eq l "" ≡ false
Named-at l [] ys d = d.0
Named-at l (x ∷ xs) ys d = Named-at l xs ys d.1
