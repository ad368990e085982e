-- ===== src/Runtime/ImageGc/Tests.antt =====
-- Tests of pkg/runtime/imagegc/imagegc.go: the theorems at concrete tasks and images.
use dicode_core.Prelude.{ne_of, ◌≡◌, refl, true, false, none, some, [], ◌∷◌, inl, inr}
use dicode_core.Prelude.Dict.{lookup, insert}
use dicode_core.Runtime.ImageGc.{
  ImageTask, Candidate, Tags, current_tags, is_orphan, select_orphans,
}
use dicode_core.Runtime.ImageGc.Orphans.{is_orphan-InUse}

abbrev api : ImageTask
api = record { id = "api"; builds = true; runtime = "podman"; suffix = some "a1" }

abbrev web : ImageTask
web = record { id = "web"; builds = true; runtime = "docker"; suffix = none }

abbrev no_tags : Tags
no_tags = record { current = []; skip = [] }

abbrev api_image : Candidate
api_image = record { repository = "localhost/dicode-api"; tag = "a1" }

abbrev old_image : Candidate
old_image = record { repository = "dicode-api"; tag = "a0" }

is_orphan-InUse_example : is_orphan (current_tags (api ∷ web ∷ []) no_tags) api_image ≡ false
is_orphan-InUse_example =
    is_orphan-InUse [] api (web ∷ []) no_tags api_image refl
      (ne_of "dicode-web" "dicode-api" refl, tt) refl (inr ("a1", refl, inl refl))

selected :
    select_orphans (current_tags (api ∷ web ∷ []) no_tags) (api_image ∷ old_image ∷ [])
    ≡ "dicode-api:a0" ∷ []
unfolding select_orphans current_tags lookup insert
selected = refl
