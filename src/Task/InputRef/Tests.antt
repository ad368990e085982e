-- ===== src/Task/InputRef/Tests.antt =====
-- Tests of pkg/task/inputref.go: the theorems at concrete texts.
use dicode_core.Prelude.{ℕ, ◌≡◌, refl, some, [], ◌∷◌, string_eq}
use dicode_core.Prelude.Dict.{lookup}
use dicode_core.Task.InputRef.{InputContext, plain, resolve_string, ok, unavailable, needs_name}

abbrev ctx : InputContext ℕ
ctx = record { output = plain "up"; params = some (("x-host", "h") ∷ []) }

two_references : resolve_string ctx "${input.params.x-host}://${input.output}/$" ≡ ok "h://up/$"
unfolding resolve_string lookup
two_references = refl

no_name : resolve_string ctx "a${input.params}" ≡ unavailable needs_name
unfolding resolve_string lookup
no_name = refl

unknown_shape : resolve_string ctx "${input.foo}" ≡ ok "${input.foo}"
unfolding resolve_string lookup
unknown_shape = refl
