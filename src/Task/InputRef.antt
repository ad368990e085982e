-- ===== src/Task/InputRef.antt =====
-- pkg/task/inputref.go: `${input.…}` references in the parameters of a chained task.
-- A parameter's value is a text or something else; what an upstream task returned is a text, an object
-- (map[string]any), a map of texts or something else. `A` is the type of all else.
pub mod Scanning
pub mod Resolving
pub mod Checked
pub mod Fuel
mod Tests
use Prim.Native.Char.{Char, code}
use Prim.Native.String.{count, ◌++◌ as str_append}
use dicode_core.Prelude.{
  ℕ, zero, suc, ◌+◌, String, ◌≡◌, refl, ◌⊎◌, inl, inr, Bool, true, false, ◌&&◌, ◌||◌, Option, none,
  some, List, [], ◌∷◌, leb, nat_beq, if◌then◌else◌, ◌==◌, string_eq,
}
use dicode_core.Prelude.Dict.{lookup}
use dicode_core.Prelude.Text.{strip}

pub data RefKind : Type 0 where
  of_output of_params : RefKind

-- What the expression splits a text into.
pub data Piece : Type 0 where
  lit : Char → Piece
  ref : RefKind → String → Piece

abbrev pub is_letter : ℕ → Bool
is_letter c = leb b'A' c && leb c b'Z' || leb b'a' c && leb c b'z' || nat_beq c b'_'

-- `[A-Za-z0-9_.\-]`
abbrev pub is_name : ℕ → Bool
is_name c = is_letter c || leb b'0' c && leb c b'9' || nat_beq c b'.' || nat_beq c b'-'

unfoldable pub span_name : String → String × String
span_name String.[] = (String.[], String.[])
span_name (String.◌∷◌ c s) =
    let (name, rest) = span_name s in
    if is_name (code c) then (String.◌∷◌ c name, rest) else (String.[], String.◌∷◌ c s)

abbrev pub Match : Type 0
Match = Option (RefKind × String × String)

unfoldable pub close : RefKind → String → String → Match
close kind field String.[] = none
close kind field (String.◌∷◌ c s) = if nat_beq (code c) b'}' then some (kind, field, s) else none

unfoldable pub field_of : RefKind → String → Match
unfolding span_name close
field_of kind String.[] = none
field_of kind (String.◌∷◌ c s) =
    if is_letter (code c)
    then (let (name, rest) = span_name s in close kind (String.◌∷◌ c name) rest)
    else none

unfoldable pub after_kind : RefKind → String → Match
unfolding field_of
after_kind kind String.[] = none
after_kind kind (String.◌∷◌ c s) =
    if nat_beq (code c) b'}'
    then some (kind, "", s)
    else if nat_beq (code c) b'.'
    then field_of kind s
    else none

-- `inputRefRe` at the start of a text: the reference, and the text after it.
unfoldable pub match_ref : String → Match
unfolding strip after_kind
match_ref s = elim (strip "${input." s) [
  | none ↦ none
  | some r ↦ elim (strip "output" r) [
    | some r' ↦ after_kind of_output r'
    | none ↦ elim (strip "params" r) [ some r' ↦ after_kind of_params r' | none ↦ none ]
  ]
]

-- The matches from left to right; the fuel is one more than the text's length.
unfoldable pub scan : ℕ → String → List Piece
unfolding match_ref
scan zero s = []
scan (suc fuel) String.[] = []
scan (suc fuel) (String.◌∷◌ c s) = elim (match_ref (String.◌∷◌ c s)) [
  | none ↦ lit c ∷ scan fuel s
  | some (kind, field, rest) ↦ ref kind field ∷ scan fuel rest
]

unfoldable pub pieces : String → List Piece
unfolding scan
pieces s = scan (count s + 1) s

-- `strings.Contains(s, "${input.")`
unfoldable pub mentions_input : String → Bool
unfolding strip
mentions_input String.[] = false
mentions_input (String.◌∷◌ c s) = elim (strip "${input." (String.◌∷◌ c s)) [
  | some r ↦ true
  | none ↦ mentions_input s
]

-- The reasons of ErrInputUnavailable.
pub data Why : Type 0 where
  no_string empty_value no_field field_not_string not_object needs_name no_params no_entry : Why

pub data Resolved {ℓ} (B : Type ℓ) : Type ℓ where
  ok : B → Resolved B
  unavailable : Why → Resolved B

pub Resolved-cases {ℓ} :
    {B : Type ℓ} (r : Resolved B) → ((why : Why) × (r ≡ unavailable why)) ⊎ ((b : B) × (r ≡ ok b))
Resolved-cases (ok b) = inr (b, refl)
Resolved-cases (unavailable why) = inl (why, refl)

infixl 5 ◌>>=◌
abbrev pub ◌>>=◌ {ℓ κ} : {B : Type ℓ} {C : Type κ} → Resolved B → (B → Resolved C) → Resolved C
ok b >>= f = f b
unavailable w >>= f = unavailable w

abbrev pub nonempty : String → Resolved String
nonempty s = if s == "" then unavailable empty_value else ok s

unfoldable pub entry_text : Why → Option String → Resolved String
entry_text missing none = unavailable missing
entry_text missing (some s) = nonempty s

pub data Value (A : Type 0) : Type 0 where
  str : String → Value A
  other : A → Value A

pub data Output (A : Type 0) : Type 0 where
  plain : String → Output A
  object : List (String × Value A) → Output A
  strings : List (String × String) → Output A
  opaque : A → Output A

pub record InputContext (A : Type 0) : Type 0 where
  pub output : Output A
  pub params : Option (List (String × String))

module _ {A : Type 0} where
  unfoldable pub field_text : Option (Value A) → Resolved String
  field_text none = unavailable no_field
  field_text (some (str s)) = nonempty s
  field_text (some (other a)) = unavailable field_not_string

  unfoldable pub output_text : Output A → Resolved String
  output_text (plain s) = nonempty s
  output_text (object m) = unavailable no_string
  output_text (strings m) = unavailable no_string
  output_text (opaque a) = unavailable no_string

  unfoldable pub output_field : String → Output A → Resolved String
  unfolding field_text entry_text
  output_field field (plain s) = unavailable not_object
  output_field field (object m) = field_text (lookup field m)
  output_field field (strings m) = entry_text no_field (lookup field m)
  output_field field (opaque a) = unavailable not_object

  unfoldable pub resolve_token : InputContext A → RefKind → String → Resolved String
  unfolding output_text output_field entry_text
  resolve_token ctx of_output field =
      if field == "" then output_text ctx.output else output_field field ctx.output
  resolve_token ctx of_params field =
      if field == "" then unavailable needs_name else elim ctx.params [
        | none ↦ unavailable no_params
        | some params ↦ entry_text no_entry (lookup field params)
      ]

  -- The substitutions from left to right, stopping at the first that fails.
  unfoldable pub join : InputContext A → List Piece → Resolved String
  unfolding resolve_token
  join ctx [] = ok ""
  join ctx (lit c ∷ rest) = join ctx rest >>= λ s. ok (String.◌∷◌ c s)
  join ctx (ref kind field ∷ rest) =
      resolve_token ctx kind field >>= λ val. join ctx rest >>= λ s. ok (str_append val s)

  unfoldable pub resolve_string : InputContext A → String → Resolved String
  unfolding join pieces mentions_input
  resolve_string ctx s = if mentions_input s then join ctx (pieces s) else ok s

  unfoldable pub resolve_value : InputContext A → Value A → Resolved (Value A)
  unfolding resolve_string
  resolve_value ctx (str s) = resolve_string ctx s >>= λ s'. ok (str s')
  resolve_value ctx (other a) = ok (other a)

  -- A nil map stays nil, which reads as an empty one.
  unfoldable pub resolve_input_output_map :
      InputContext A → List (String × Value A) → Resolved (List (String × Value A))
  unfolding resolve_value
  resolve_input_output_map ctx [] = ok []
  resolve_input_output_map ctx ((key, val) ∷ rest) = resolve_value ctx val >>= λ val'.
      resolve_input_output_map ctx rest >>= λ rest'. ok ((key, val') ∷ rest')
