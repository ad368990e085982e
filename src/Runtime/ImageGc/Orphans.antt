-- ===== src/Runtime/ImageGc/Orphans.antt =====
-- pkg/runtime/imagegc/imagegc.go: what is never deleted, and what is.
use text.Mathlib.TextEquality.{eq_iff}
use dicode_core.Prelude.{
  String, ◌≡◌, refl, ap, ◌∙◌, ◌≢◌, ◌⊎◌, inl, inr, true, false, Option, none, some, List, [], ◌∷◌,
  ◌++◌, contains, if◌then◌else◌, string_eq, arith, All, Bool-cases, Option-cases,
}
use dicode_core.Prelude.Dict.{lookup, lookup-insert, lookup-insert_self}
use dicode_core.Runtime.ImageGc.{
  concat, repository, trim_prefix, ImageTask, Candidate, Tags, is_local_build, add_suffix,
  current_tags, is_expected, is_orphan,
}

-- The tags that are expected in a repository.
abbrev pub tags_of : String → Tags → Option (List String)
tags_of repo tags = lookup repo tags.current

-- Tasks with other ids change neither the tags nor the skip of a repository.
tags-others :
    (repo : String) (ts : List ImageTask) (tags : Tags)
    → All (λ t. repository t.id ≢ repo) ts
    → (tags_of repo (current_tags ts tags) ≡ tags_of repo tags)
      × (contains repo (current_tags ts tags).skip ≡ contains repo tags.skip)
unfolding current_tags
tags-others repo [] tags ne = (refl, refl)
tags-others repo (t ∷ ts) tags (ne, nes) =
    let next = if is_local_build t then add_suffix (repository t.id) t.suffix tags else tags in
    let (a, b) = tags-others repo ts next nes in
    elim (Bool-cases (is_local_build t)) [
      | inr other ↦ ground (arith, a, b, other)
      | inl local ↦ elim (Option-cases t.suffix) [
        | inl unread ↦ ground (arith, a, b, local, unread, eq_iff (repository t.id) repo)
        | inr (x, read) ↦ ground (
          arith,
          a,
          b,
          local,
          read,
          eq_iff (repository t.id) repo,
          lookup-insert (repository t.id) repo (x ∷ concat "test-" x ∷ []) tags.current,
        )
      ]
    ]

-- The tags under which a task's images are in use: all, when its Dockerfile cannot be read.
abbrev pub InUse : ImageTask → String → Type 0
InUse t tag =
    (t.suffix ≡ none)
    ⊎ ((x : String) × (t.suffix ≡ some x) × ((tag ≡ x) ⊎ (tag ≡ concat "test-" x)))

current_tags-append :
    (ts us : List ImageTask) (tags : Tags)
    → current_tags (ts ++ us) tags ≡ current_tags us (current_tags ts tags)
unfolding current_tags
current_tags-append [] us tags = refl
current_tags-append (t ∷ ts) us tags = current_tags-append ts us _

spared_of_skip :
    (tags : Tags) (img : Candidate)
    → contains (trim_prefix img.repository "localhost/") tags.skip ≡ true
    → is_orphan tags img ≡ false
unfolding is_orphan
spared_of_skip tags img h = ground (arith, h)

spared_of_expected :
    (tags : Tags) (img : Candidate)
    → is_expected img.tag (tags_of (trim_prefix img.repository "localhost/") tags) ≡ true
    → is_orphan tags img ≡ false
unfolding is_orphan
spared_of_expected tags img h = ground (arith, h)

-- After the task itself: its repository is skipped, or its tag expected.
abbrev Spared : String → String → Tags → Type 0
Spared repo tag tags =
    (contains repo tags.skip ≡ true) ⊎ (is_expected tag (tags_of repo tags) ≡ true)

add_suffix-Spared :
    (t : ImageTask) (tag : String) (tags : Tags)
    → InUse t tag
    → Spared (repository t.id) tag (add_suffix (repository t.id) t.suffix tags)
add_suffix-Spared t tag tags (inl unread) =
    inl (rw unread (ground (arith, eq_iff (repository t.id) (repository t.id))))
add_suffix-Spared t tag tags (inr (x, read, which)) = inr (
    rw read (
      ground (
        arith,
        which,
        eq_iff x tag,
        eq_iff (concat "test-" x) tag,
        lookup-insert_self (repository t.id) (x ∷ concat "test-" x ∷ []) tags.current,
      )))

-- An image that a registered task uses, by the tag of its Dockerfile or of that Dockerfile's test
-- stage, is never deleted, nor is any image of a task whose Dockerfile cannot be read; no other task
-- after it may have the same id.
pub is_orphan-InUse :
    (before : List ImageTask) (t : ImageTask) (after : List ImageTask) (tags : Tags)
    (img : Candidate)
    → is_local_build t ≡ true
    → All (λ u. repository u.id ≢ repository t.id) after
    → trim_prefix img.repository "localhost/" ≡ repository t.id
    → InUse t img.tag
    → is_orphan (current_tags (before ++ t ∷ after) tags) img ≡ false
unfolding current_tags
is_orphan-InUse before t after tags img local others same use_it =
    let here = add_suffix (repository t.id) t.suffix (current_tags before tags) in
    let (a, b) = tags-others (repository t.id) after here others in
    let whole : current_tags (before ++ t ∷ after) tags ≡ current_tags after here =
      current_tags-append before (t ∷ after) tags ∙ rw local refl in
    rw whole (elim (add_suffix-Spared t img.tag (current_tags before tags) use_it) [
      | inl skipped ↦ spared_of_skip (current_tags after here) img (rw same (b ∙ skipped))
      | inr expected ↦
          spared_of_expected (current_tags after here) img
            (rw same (ap (is_expected img.tag) a ∙ expected))
    ])
