-- ===== src/Trigger/Chain/Walks.antt =====
-- pkg/trigger/chain.go: walks along a relation of names, and sets of names as lists.
use text.Mathlib.TextEquality.{eq_iff}
use dicode_core.Prelude.{
  ℕ, suc, ◌≤◌, ◌<◌, String, ◌≡◌, refl, Bool, true, false, ◌||◌, List, [], ◌∷◌, ◌++◌, length,
  contains, arith, if◌then◌else◌, string_eq,
}

abbrev pub Relation : Type 0
Relation = String → String → Bool

pub data Reaches (g : Relation) (x : String) : String → Type 0 where
  here : Reaches g x x
  step : {y z : String} → Reaches g x y → g y z ≡ true → Reaches g x z

-- No walk of one or more steps returns to where it began.
abbrev pub Acyclic : Relation → Type 0
Acyclic g = (x y : String) → g x y ≡ true → Reaches g y x → ⊥

pub Reaches-trans : {g : Relation} {x y z : String} → Reaches g x y → Reaches g y z → Reaches g x z
Reaches-trans r here = r
Reaches-trans r (step s e) = step (Reaches-trans r s) e

pub Reaches-mono :
    {g h : Relation} {x y : String}
    → ((a b : String) → g a b ≡ true → h a b ≡ true)
    → Reaches g x y
    → Reaches h x y
Reaches-mono sub here = here
Reaches-mono sub (step {y} {z} r e) = step (Reaches-mono sub r) (sub y z e)

abbrev pub Sub : List String → List String → Type 0
Sub v w = (x : String) → contains x v ≡ true → contains x w ≡ true

-- The names of `all` that are not in `visited`.
abbrev pub missing : List String → List String → ℕ
missing [] visited = 0
missing (x ∷ all) visited =
    let rest = missing all visited in if contains x visited then rest else suc rest

pub missing_le : (all v w : List String) → Sub v w → missing all w ≤ missing all v
missing_le [] v w sub = omega arith
missing_le (x ∷ all) v w sub = ground (arith, sub x, missing_le all v w sub)

pub missing_le_length : (all v : List String) → missing all v ≤ length all
missing_le_length [] v = omega arith
missing_le_length (x ∷ all) v = ground (arith, missing_le_length all v)

pub missing_cons_le : (all v : List String) (c : String) → missing all (c ∷ v) ≤ missing all v
missing_cons_le all v c = missing_le all v (c ∷ v) (λ x h. ground arith)

-- Marking a new name of the universe leaves fewer.
pub missing_lt :
    (all v : List String) (c : String)
    → contains c all ≡ true
    → contains c v ≡ false
    → missing all (c ∷ v) < missing all v
missing_lt [] v c h n = absurd (ground arith)
missing_lt (x ∷ all) v c h n =
    ground (arith, eq_iff x c, eq_iff c x, missing_cons_le all v c, missing_lt all v c)

pub contains-append :
    (y : String) (xs ys : List String) → contains y (xs ++ ys) ≡ (contains y xs || contains y ys)
contains-append y [] ys = refl
contains-append y (x ∷ xs) ys = ground (arith, contains-append y xs ys)
