-- ===== src/Taskset/Merge.antt =====
-- pkg/taskset/override.go: how the environment and the permissions of an override are merged.
pub mod Env
pub mod Perms
use dicode_core.Prelude.{
  ℕ, suc, ◌+◌, String, Bool, true, false, ◌||◌, Option, none, some, List, [], ◌∷◌, ◌++◌, length,
  get_elem?, set, contains, ◌==◌, if◌then◌else◌, string_eq,
}
use dicode_core.Prelude.Dict.{lookup, insert}

-- `if_missing` is only ever copied; the id of the prerequisite task stands for it.
pub record EnvEntry : Type 0 where
  pub name : String
  pub from : String
  pub secret : String
  pub value : String
  pub default : String
  pub optional : Bool
  pub if_missing : Option String

-- The first loop of `mergeEnvEntries`: the index of each name, of several the last.
unfoldable pub index_entries : ℕ → List EnvEntry → List (String × ℕ) → List (String × ℕ)
index_entries i [] m = m
index_entries i (e ∷ es) m = index_entries (suc i) es (insert e.name i m)

-- The second loop.
unfoldable pub merge_overlay : List EnvEntry → List (String × ℕ) → List EnvEntry → List EnvEntry
merge_overlay [] m out = out
merge_overlay (e ∷ overlay) m out = elim (lookup e.name m) [
  | some i ↦ merge_overlay overlay m (set out i e)
  | none ↦ merge_overlay overlay (insert e.name (length out) m) (out ++ e ∷ [])
]

unfoldable pub merge_env_entries : List EnvEntry → List EnvEntry → List EnvEntry
merge_env_entries base overlay = merge_overlay overlay (index_entries 0 base []) base

-- Both loops of `unionStrings`; `seen` is a list of what was met.
unfoldable pub union_from : List String → List String → List String × List String
union_from seen [] = (seen, [])
union_from seen (s ∷ ss) =
    let old = union_from seen ss in
    let new = union_from (s ∷ seen) ss in if contains s seen then old else (new.0, s ∷ new.1)

unfoldable pub union_strings : List String → List String → List String
unfolding union_from
union_strings base overlay =
    let (seen, out) = union_from [] base in
    let (seen', out') = union_from seen overlay in out ++ out'

pub record DicodePermissions : Type 0 where
  pub tasks : List String
  pub mcp : List String
  pub list_tasks : Bool
  pub get_runs : Bool
  pub secrets_write : Bool
  pub secrets_has : Bool
  pub runs_list_expired : Bool
  pub runs_delete_input : Bool
  pub runs_pin_input : Bool
  pub runs_unpin_input : Bool
  pub runs_list_expired_resume_state : Bool
  pub runs_delete_resume_state : Bool
  pub runs_replay : Bool
  pub runs_get_input : Bool
  pub tasks_test : Bool
  pub sources_list : Bool
  pub sources_set_dev_mode : Bool
  pub git_commit_push : Bool
  pub crypto : List String
  pub audit_query : Bool

-- `if len(overlay) > 0 { out = f(base, overlay) }`
abbrev pub unless_empty : {A : Type 0} → (List A → List A → List A) → List A → List A → List A
unless_empty f base [] = base
unless_empty f base (x ∷ xs) = f base (x ∷ xs)

-- `if overlay { out = true }`
abbrev pub raise : Bool → Bool → Bool
raise base overlay = if overlay then true else base

abbrev pub replace : {A : Type 0} → List A → List A → List A
replace base overlay = overlay

unfoldable pub merge_both : DicodePermissions → DicodePermissions → DicodePermissions
merge_both b o = record {
  tasks = unless_empty union_strings b.tasks o.tasks;
  mcp = unless_empty replace b.mcp o.mcp;
  list_tasks = raise b.list_tasks o.list_tasks;
  get_runs = raise b.get_runs o.get_runs;
  secrets_write = raise b.secrets_write o.secrets_write;
  secrets_has = raise b.secrets_has o.secrets_has;
  runs_list_expired = raise b.runs_list_expired o.runs_list_expired;
  runs_delete_input = raise b.runs_delete_input o.runs_delete_input;
  runs_pin_input = raise b.runs_pin_input o.runs_pin_input;
  runs_unpin_input = raise b.runs_unpin_input o.runs_unpin_input;
  runs_list_expired_resume_state =
      raise b.runs_list_expired_resume_state o.runs_list_expired_resume_state;
  runs_delete_resume_state = raise b.runs_delete_resume_state o.runs_delete_resume_state;
  runs_replay = raise b.runs_replay o.runs_replay;
  runs_get_input = raise b.runs_get_input o.runs_get_input;
  tasks_test = raise b.tasks_test o.tasks_test;
  sources_list = raise b.sources_list o.sources_list;
  sources_set_dev_mode = raise b.sources_set_dev_mode o.sources_set_dev_mode;
  git_commit_push = raise b.git_commit_push o.git_commit_push;
  crypto = unless_empty union_strings b.crypto o.crypto;
  audit_query = raise b.audit_query o.audit_query;
}

unfoldable pub merge_dicode_perms :
    Option DicodePermissions → Option DicodePermissions → Option DicodePermissions
merge_dicode_perms base none = base
merge_dicode_perms none (some o) = some o
merge_dicode_perms (some b) (some o) = some (merge_both b o)
