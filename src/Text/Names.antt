-- ===== src/Text/Names.antt =====
-- Sets of names as lists without repetition, and their order.
use Prim.Native.Char.{code}
use openclaw_rust_node.Base.{
  String, Bool, true, false, ◌&&◌, ◌||◌, ◌==◌, ltb, if◌then◌else◌, ◌≡◌, refl, ◌↔◌, List, [], ◌∷◌,
  All, str_eq, arith,
}

unfoldable pub is_in : String → List String → Bool
is_in name [] = false
is_in name (n ∷ names) = str_eq name n || is_in name names

-- The order of `str`: by bytes, which is by code points.
unfoldable pub str_leb : String → String → Bool
str_leb String.[] t = true
str_leb (String.◌∷◌ c s) String.[] = false
str_leb (String.◌∷◌ c s) (String.◌∷◌ d t) =
    ltb (code c) (code d) || (code c == code d && str_leb s t)

unfoldable pub insert : String → List String → List String
insert name [] = name ∷ []
insert name (n ∷ names) =
    let rest = insert name names in if str_leb name n then name ∷ n ∷ names else n ∷ rest

-- `sorted`. Equal texts are not told apart, so the algorithm does not matter.
unfoldable pub sorted : List String → List String
unfolding insert
sorted [] = []
sorted (name ∷ names) = insert name (sorted names)

abbrev pub AreDistinct : List String → Type 0
AreDistinct [] = Unit
AreDistinct (name ∷ names) = All (λ n. str_eq n name ≡ false) names × AreDistinct names

-- No name of the list is in the set.
unfoldable pub AreNew : List String → List String → Type 0
AreNew unique names = All (λ n. is_in n unique ≡ false) names

pub AreNew-cons :
    (name : String) (unique names : List String)
    → AreNew (name ∷ unique) names ↔ (All (λ n. str_eq n name ≡ false) names × AreNew unique names)
unfolding AreNew is_in
AreNew-cons name unique [] = (λ h. ground arith, λ h. ground arith)
AreNew-cons name unique (n ∷ names) = (
  λ h. ground (arith, (AreNew-cons name unique names).0 h.1),
  λ h. ground (arith, (AreNew-cons name unique names).1 (h.0.1, h.1.1)),
)

pub AreNew-nil : (names : List String) → AreNew [] names
unfolding AreNew is_in
AreNew-nil [] = tt
AreNew-nil (name ∷ names) = (refl, AreNew-nil names)
