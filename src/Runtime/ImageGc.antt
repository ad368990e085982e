-- ===== src/Runtime/ImageGc.antt =====
-- pkg/runtime/imagegc/imagegc.go: which images of dicode's own builds may be deleted.
pub mod Orphans
mod Tests
use Prim.Native.String.{len, slice, ◌++◌}
use text.Mathlib.Text.{starts_with}
use dicode_core.Prelude.{
  String, Bool, true, false, not, ◌&&◌, ◌||◌, Option, none, some, List, [], ◌∷◌, contains, ◌==◌,
  if◌then◌else◌, string_eq,
}
use dicode_core.Prelude.Dict.{lookup, insert}

abbrev pub concat : String → String → String
concat s t = s ++ t

abbrev pub repository : String → String
repository task_id = concat "dicode-" task_id

abbrev pub trim_prefix : String → String → String
trim_prefix s p = if starts_with s p then slice s (len p) (len s) else s

-- What the collection reads of a task: whether it has a docker section with a build, its runtime,
-- and the tag suffix of its Dockerfile, `none` when that cannot be read.
pub record ImageTask : Type 0 where
  pub id : String
  pub builds : Bool
  pub runtime : String
  pub suffix : Option String

pub record Candidate : Type 0 where
  pub repository : String
  pub tag : String

-- The two maps of `CurrentTags`: the tags in use by repository, and the repositories to skip.
pub record Tags : Type 0 where
  pub current : List (String × List String)
  pub skip : List String

abbrev pub is_local_build : ImageTask → Bool
is_local_build t = t.builds && (t.runtime == "docker" || t.runtime == "podman")

abbrev pub add_suffix : String → Option String → Tags → Tags
add_suffix repo none tags = record tags { skip = repo ∷ tags.skip }
add_suffix repo (some x) tags = record tags {
  current = insert repo (x ∷ concat "test-" x ∷ []) tags.current;
}

-- The loop of `CurrentTags`.
unfoldable pub current_tags : List ImageTask → Tags → Tags
current_tags [] tags = tags
current_tags (t ∷ ts) tags =
    current_tags ts (if is_local_build t then add_suffix (repository t.id) t.suffix tags else tags)

abbrev pub is_expected : String → Option (List String) → Bool
is_expected tag none = false
is_expected tag (some tags) = contains tag tags

-- The body of the loop of `SelectOrphans`: whether it appends the image.
unfoldable pub is_orphan : Tags → Candidate → Bool
is_orphan tags img =
    let repo = trim_prefix img.repository "localhost/" in
    if not (starts_with repo "dicode-")
    then false
    else if img.tag == "" || img.tag == "<none>"
    then false
    else if contains repo tags.skip
    then false
    else not (is_expected img.tag (lookup repo tags.current))

unfoldable pub select_orphans : Tags → List Candidate → List String
unfolding is_orphan
select_orphans tags [] = []
select_orphans tags (img ∷ imgs) =
    let rest = select_orphans tags imgs in
    if is_orphan tags img then concat img.repository (concat ":" img.tag) ∷ rest else rest
