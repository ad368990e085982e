-- ===== src/Taskset/Merge/Perms.antt =====
-- pkg/taskset/override.go, unionStrings and mergeDicodePerms: which permissions a task has after an
-- override.
use text.Mathlib.TextEquality.{eq_iff}
use dicode_core.Prelude.{
  String, ◌≡◌, refl, Bool, true, false, not, ◌&&◌, ◌||◌, Option, none, some, List, [], ◌∷◌, ◌++◌,
  string_eq, arith, contains, Bool-cases, inl, inr,
}
use dicode_core.Taskset.Merge.{
  union_from, union_strings, DicodePermissions, unless_empty, raise, merge_both, merge_dicode_perms,
}

abbrev pub Distinct : List String → Type 0
Distinct [] = Unit
Distinct (x ∷ xs) = (contains x xs ≡ false) × Distinct xs

contains-append :
    (s : String) (xs ys : List String) → contains s (xs ++ ys) ≡ (contains s xs || contains s ys)
contains-append s [] ys = refl
contains-append s (x ∷ xs) ys = ground (arith, contains-append s xs ys)

Distinct-append :
    (xs ys : List String)
    → Distinct xs
    → Distinct ys
    → ((s : String) → contains s xs ≡ true → contains s ys ≡ false)
    → Distinct (xs ++ ys)
Distinct-append [] ys d d' apart = d'
Distinct-append (x ∷ xs) ys (fresh, d) d' apart = (
  ground (arith, contains-append x xs ys, fresh, apart x, eq_iff x x),
  Distinct-append xs ys d d' (λ s h. apart s (ground (arith, h))),
)

contains-seen :
    (s : String) (seen ss : List String)
    → contains s (union_from seen ss).0 ≡ (contains s seen || contains s ss)
unfolding union_from
contains-seen s seen [] = ground arith
contains-seen s seen (t ∷ ss) =
    ground (arith, contains-seen s seen ss, contains-seen s (t ∷ seen) ss, eq_iff t s)

contains-new :
    (s : String) (seen ss : List String)
    → contains s (union_from seen ss).1 ≡ (contains s ss && not (contains s seen))
unfolding union_from
contains-new s seen [] = refl
contains-new s seen (t ∷ ss) =
    ground (arith, contains-new s seen ss, contains-new s (t ∷ seen) ss, eq_iff t s)

Distinct-new : (seen ss : List String) → Distinct (union_from seen ss).1
unfolding union_from
Distinct-new seen [] = tt
Distinct-new seen (t ∷ ss) = elim (Bool-cases (contains t seen)) [
  | inl old ↦ rw (old, union_from) (Distinct-new seen ss)
  | inr new ↦
      rw (new, union_from)
        (ground (arith, contains-new t (t ∷ seen) ss, eq_iff t t), Distinct-new (t ∷ seen) ss)
]

pub contains-union_strings :
    (s : String) (base overlay : List String)
    → contains s (union_strings base overlay) ≡ (contains s base || contains s overlay)
unfolding union_strings
contains-union_strings s base overlay =
    let first = union_from [] base in
    ground (
      arith,
      contains-append s first.1 (union_from first.0 overlay).1,
      contains-new s [] base,
      contains-seen s [] base,
      contains-new s first.0 overlay,
    )

-- The union of two lists of names has the names of both, each once.
pub Distinct-union_strings : (base overlay : List String) → Distinct (union_strings base overlay)
unfolding union_strings
Distinct-union_strings base overlay =
    let first = union_from [] base in
    Distinct-append first.1 (union_from first.0 overlay).1 (Distinct-new [] base)
      (Distinct-new first.0 overlay)
      (λ s h.
        ground (
          arith,
          h,
          contains-new s [] base,
          contains-seen s [] base,
          contains-new s first.0 overlay,
        ))

-- What a task may be allowed to do through the dicode API, but for MCP calls.
pub data Perm : Type 0 where
  run_task crypto_context : String → Perm
  list_tasks get_runs secrets_write secrets_has runs_list_expired runs_delete_input : Perm
  runs_pin_input runs_unpin_input runs_list_expired_resume_state runs_delete_resume_state : Perm
  runs_replay runs_get_input tasks_test sources_list sources_set_dev_mode : Perm
  git_commit_push audit_query : Perm

abbrev pub grants : Perm → DicodePermissions → Bool
grants (run_task id) d = contains id d.tasks
grants (crypto_context c) d = contains c d.crypto
grants list_tasks d = d.list_tasks
grants get_runs d = d.get_runs
grants secrets_write d = d.secrets_write
grants secrets_has d = d.secrets_has
grants runs_list_expired d = d.runs_list_expired
grants runs_delete_input d = d.runs_delete_input
grants runs_pin_input d = d.runs_pin_input
grants runs_unpin_input d = d.runs_unpin_input
grants runs_list_expired_resume_state d = d.runs_list_expired_resume_state
grants runs_delete_resume_state d = d.runs_delete_resume_state
grants runs_replay d = d.runs_replay
grants runs_get_input d = d.runs_get_input
grants tasks_test d = d.tasks_test
grants sources_list d = d.sources_list
grants sources_set_dev_mode d = d.sources_set_dev_mode
grants git_commit_push d = d.git_commit_push
grants audit_query d = d.audit_query

abbrev pub granted : Perm → Option DicodePermissions → Bool
granted p none = false
granted p (some d) = grants p d

or-raise : (b o : Bool) → raise b o ≡ (b || o)
or-raise b o = ground arith

contains-unless_empty :
    (s : String) (b o : List String)
    → contains s (unless_empty union_strings b o) ≡ (contains s b || contains s o)
contains-unless_empty s b [] = ground arith
contains-unless_empty s b (x ∷ xs) = contains-union_strings s b (x ∷ xs)

grants-merge_both :
    (p : Perm) (b o : DicodePermissions) → grants p (merge_both b o) ≡ (grants p b || grants p o)
unfolding merge_both
grants-merge_both (run_task id) b o = contains-unless_empty id b.tasks o.tasks
grants-merge_both (crypto_context c) b o = contains-unless_empty c b.crypto o.crypto
grants-merge_both list_tasks b o = or-raise b.list_tasks o.list_tasks
grants-merge_both get_runs b o = or-raise b.get_runs o.get_runs
grants-merge_both secrets_write b o = or-raise b.secrets_write o.secrets_write
grants-merge_both secrets_has b o = or-raise b.secrets_has o.secrets_has
grants-merge_both runs_list_expired b o = or-raise b.runs_list_expired o.runs_list_expired
grants-merge_both runs_delete_input b o = or-raise b.runs_delete_input o.runs_delete_input
grants-merge_both runs_pin_input b o = or-raise b.runs_pin_input o.runs_pin_input
grants-merge_both runs_unpin_input b o = or-raise b.runs_unpin_input o.runs_unpin_input
grants-merge_both runs_list_expired_resume_state b o =
    or-raise b.runs_list_expired_resume_state o.runs_list_expired_resume_state
grants-merge_both runs_delete_resume_state b o =
    or-raise b.runs_delete_resume_state o.runs_delete_resume_state
grants-merge_both runs_replay b o = or-raise b.runs_replay o.runs_replay
grants-merge_both runs_get_input b o = or-raise b.runs_get_input o.runs_get_input
grants-merge_both tasks_test b o = or-raise b.tasks_test o.tasks_test
grants-merge_both sources_list b o = or-raise b.sources_list o.sources_list
grants-merge_both sources_set_dev_mode b o = or-raise b.sources_set_dev_mode o.sources_set_dev_mode
grants-merge_both git_commit_push b o = or-raise b.git_commit_push o.git_commit_push
grants-merge_both audit_query b o = or-raise b.audit_query o.audit_query

-- An override adds permissions and takes none away: the merge grants exactly what the base or the
-- overlay grants, for every permission but the list of MCP daemons.
pub granted-merge_dicode_perms :
    (p : Perm) (base overlay : Option DicodePermissions)
    → granted p (merge_dicode_perms base overlay) ≡ (granted p base || granted p overlay)
unfolding merge_dicode_perms
granted-merge_dicode_perms p none none = refl
granted-merge_dicode_perms p (some b) none = ground arith
granted-merge_dicode_perms p none (some o) = refl
granted-merge_dicode_perms p (some b) (some o) = grants-merge_both p b o
