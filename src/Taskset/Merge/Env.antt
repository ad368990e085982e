-- ===== src/Taskset/Merge/Env.antt =====
-- pkg/taskset/override.go, mergeEnvEntries: which entry a name has after the overlay.
use text.Mathlib.TextEquality.{eq_iff}
use dicode_core.Prelude.{
  ℕ, zero, suc, ◌+◌, ◌≤◌, String, ◌≡◌, refl, Option, none, some, List, [], ◌∷◌, ◌++◌, ◌==◌, ◌∙◌,
  sym, if◌then◌else◌, string_eq, arith, Option-cases, inl, inr, length, set,
}
use dicode_core.Prelude.Dict.{lookup, insert, lookup-insert}
use dicode_core.Taskset.Merge.{EnvEntry, index_entries, merge_overlay, merge_env_entries}

-- The last entry of a name, and its index.
unfoldable pub last_entry : String → List EnvEntry → Option EnvEntry
last_entry n [] = none
last_entry n (e ∷ es) = elim (last_entry n es) [
  | some f ↦ some f
  | none ↦ if e.name == n then some e else none
]

unfoldable pub last_index : String → ℕ → List EnvEntry → Option ℕ
last_index n i [] = none
last_index n i (e ∷ es) = elim (last_index n (suc i) es) [
  | some j ↦ some j
  | none ↦ if e.name == n then some i else none
]

-- The first of two options that is there.
abbrev pub or_else : {A : Type 0} → Option A → Option A → Option A
or_else none o = o
or_else (some a) o = some a

or_else-none : {A : Type 0} (o : Option A) → or_else o none ≡ o
or_else-none none = refl
or_else-none (some a) = refl

lookup-index_entries :
    (n : String) (i : ℕ) (es : List EnvEntry) (m : List (String × ℕ))
    → lookup n (index_entries i es m) ≡ or_else (last_index n i es) (lookup n m)
unfolding index_entries last_index
lookup-index_entries n i [] m = refl
lookup-index_entries n i (e ∷ es) m = ground (
  arith,
  eq_iff e.name n,
  lookup-index_entries n (suc i) es (insert e.name i m),
  lookup-insert e.name n i m,
)

last_index-append :
    (n : String) (i : ℕ) (es : List EnvEntry) (e : EnvEntry)
    → last_index n i (es ++ e ∷ [])
      ≡ (if e.name == n then some (i + length es) else last_index n i es)
unfolding last_index
last_index-append n i [] e = ground arith
last_index-append n i (f ∷ es) e = ground (arith, last_index-append n (suc i) es e)

last_entry-append :
    (n : String) (es : List EnvEntry) (e : EnvEntry)
    → last_entry n (es ++ e ∷ []) ≡ (if e.name == n then some e else last_entry n es)
unfolding last_entry
last_entry-append n [] e = refl
last_entry-append n (f ∷ es) e = ground (arith, last_entry-append n es e)

last_index-le : (n : String) (i j : ℕ) (es : List EnvEntry) → last_index n i es ≡ some j → i ≤ j
unfolding last_index
last_index-le n i j [] h = absurd (cc)
last_index-le n i j (e ∷ es) h = elim (Option-cases (last_index n (suc i) es)) [
  | inl none_left ↦ ground (arith, none_left, h)
  | inr (k, found) ↦ ground (arith, found, h, last_index-le n (suc i) k es found)
]

last_entry-none :
    (n : String) (i : ℕ) (es : List EnvEntry) → last_index n i es ≡ none → last_entry n es ≡ none
unfolding last_index last_entry
last_entry-none n i [] h = refl
last_entry-none n i (e ∷ es) h = elim (Option-cases (last_index n (suc i) es)) [
  | inl none_left ↦ ground (arith, h, none_left, last_entry-none n (suc i) es none_left)
  | inr (k, found) ↦ absurd (ground (arith, found, h))
]

-- What it means that `e` was written over the last entry of its name.
record Replaced (i : ℕ) (e : EnvEntry) (es es' : List EnvEntry) : Type 0 where
  index : (n : String) → last_index n i es' ≡ last_index n i es
  entry : (n : String) → last_entry n es' ≡ (if e.name == n then some e else last_entry n es)

set-Replaced :
    (i j : ℕ) (e : EnvEntry) (es : List EnvEntry)
    → last_index e.name i es ≡ some (i + j)
    → Replaced i e es (set es j e)
unfolding last_index last_entry
set-Replaced i j e [] h = absurd (cc)
set-Replaced i zero e (f ∷ es) h = elim (Option-cases (last_index e.name (suc i) es)) [
  | inl none_left ↦
      let gone = last_entry-none e.name (suc i) es none_left in
      record {
        index = λ n.
            ground (arith, h, none_left, eq_iff f.name e.name, eq_iff e.name n, eq_iff f.name n);
        entry = λ n.
            ground
              (arith, h, none_left, gone, eq_iff f.name e.name, eq_iff e.name n, eq_iff f.name n);
      }
  | inr (k, found) ↦ absurd (ground (arith, found, h, last_index-le e.name (suc i) k es found))
]
set-Replaced i (suc j) e (f ∷ es) h = elim (Option-cases (last_index e.name (suc i) es)) [
  | inl none_left ↦ absurd (ground (arith, h, none_left))
  | inr (k, found) ↦
      let r = set-Replaced (suc i) j e es (ground (arith, found, h)) in
      record {
        index = λ n. ground (arith, r.index n);
        entry = λ n. ground (arith, r.entry n, r.index e.name, found);
      }
]

merge_overlay-last :
    (n : String) (overlay : List EnvEntry) (m : List (String × ℕ)) (out : List EnvEntry)
    → ((j : String) → lookup j m ≡ last_index j 0 out)
    → last_entry n (merge_overlay overlay m out) ≡ or_else (last_entry n overlay) (last_entry n out)
unfolding merge_overlay last_entry
merge_overlay-last n [] m out inv = refl
merge_overlay-last n (e ∷ overlay) m out inv = elim (Option-cases (lookup e.name m)) [
  | inl new ↦
      let inv' : (j : String)
          → lookup j (insert e.name (length out) m) ≡ last_index j 0 (out ++ e ∷ []) =
        λ j.
          ground
            (arith, inv j, lookup-insert e.name j (length out) m, last_index-append j 0 out e) in
      let rest = merge_overlay-last n overlay (insert e.name (length out) m) (out ++ e ∷ []) inv' in
      ground (arith, new, rest, last_entry-append n out e)
  | inr (i, found) ↦
      let r = set-Replaced 0 i e out (ground (arith, inv e.name, found)) in
      let rest = merge_overlay-last n overlay m (set out i e) (λ j. inv j ∙ sym (r.index j)) in
      ground (arith, found, rest, r.entry n)
]

-- Of every name the last entry of the overlay counts, and the base's where the overlay has none.
pub last-merge_env_entries :
    (n : String) (base overlay : List EnvEntry)
    → last_entry n (merge_env_entries base overlay)
      ≡ or_else (last_entry n overlay) (last_entry n base)
unfolding merge_env_entries lookup
last-merge_env_entries n base overlay =
    merge_overlay-last n overlay (index_entries 0 base []) base
      (λ j. lookup-index_entries j 0 base [] ∙ or_else-none (last_index j 0 base))
