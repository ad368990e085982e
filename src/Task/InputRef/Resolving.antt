-- ===== src/Task/InputRef/Resolving.antt =====
-- pkg/task/inputref.go: what a resolved text is made of.
use Prim.Native.String.{◌++◌ as str_append}
use dicode_core.Prelude.{String, ◌≡◌, ◌≢◌, some, List, [], ◌∷◌, string_eq}
use dicode_core.Prelude.Dict.{lookup}
use dicode_core.Task.InputRef.{
  RefKind, of_output, of_params, Piece, lit, ref, Value, str, plain, object, strings, InputContext,
}

module _ {A : Type 0} (ctx : InputContext A) where
  -- The value that a reference names.
  pub data Gives (kind : RefKind) (field val : String) : Type 0 where
    whole : kind ≡ of_output → field ≡ "" → ctx.output ≡ plain val → Gives kind field val
    in_object :
        (m : List (String × Value A))
        → kind ≡ of_output
        → field ≢ ""
        → ctx.output ≡ object m
        → lookup field m ≡ some (str val)
        → Gives kind field val
    in_strings :
        (m : List (String × String))
        → kind ≡ of_output
        → field ≢ ""
        → ctx.output ≡ strings m
        → lookup field m ≡ some val
        → Gives kind field val
    in_params :
        (m : List (String × String))
        → kind ≡ of_params
        → field ≢ ""
        → ctx.params ≡ some m
        → lookup field m ≡ some val
        → Gives kind field val

  -- The pieces with every reference replaced by a value that is not empty.
  abbrev pub Fills : List Piece → String → Type 0
  Fills [] s = s ≡ ""
  Fills (lit c ∷ ps) s = (r : String) × (s ≡ String.◌∷◌ c r) × Fills ps r
  Fills (ref kind field ∷ ps) s =
      (val : String) × (r : String) × Gives kind field val
      × (val ≢ "")
      × (s ≡ str_append val r)
      × Fills ps r
