-- ===== src/Runtime/Env.antt =====
-- pkg/runtime/subprocenv.go and envwildcard.go: the environment of a task's subprocess. `host` is the
-- daemon's own environment; an environment is a list of names and values of which the last for a name counts.
pub mod Effective
mod Tests
use Prim.Native.String.{compare, len, slice}
use Prim.Native.Nat.{Ordering}
use text.Mathlib.Text.{starts_with}
use dicode_core.Prelude.{
  ℕ, zero, suc, ◌+◌, ◌-◌, ◌<◌, String, Bool, true, false, not, ◌&&◌, ◌||◌, Option, none, some, List,
  [], ◌∷◌, ◌++◌, contains, any, ltb, if◌then◌else◌, ◌==◌, string_eq,
}
use dicode_core.Prelude.Dict.{lookup}
use dicode_core.Taskset.Merge.{EnvEntry}

abbrev pub host_passthrough_vars : List String
host_passthrough_vars =
    "PATH" ∷ "HOME" ∷ "USER" ∷ "LOGNAME" ∷ "TMPDIR" ∷ "LANG" ∷ "LC_ALL" ∷ "LC_CTYPE" ∷ "TZ"
    ∷ "XDG_CACHE_HOME" ∷ "XDG_DATA_HOME" ∷ "XDG_CONFIG_HOME" ∷ "SSL_CERT_FILE" ∷ "SSL_CERT_DIR"
    ∷ "HTTP_PROXY" ∷ "HTTPS_PROXY" ∷ "NO_PROXY" ∷ "http_proxy" ∷ "https_proxy" ∷ "no_proxy"
    ∷ "DENO_DIR" ∷ "UV_CACHE_DIR" ∷ "UV_PYTHON" ∷ "UV_PYTHON_INSTALL_DIR" ∷ "VIRTUAL_ENV" ∷ []

abbrev pub never_forward_env : List String
never_forward_env = "DICODE_MASTER_KEY" ∷ "DICODE_API_KEY" ∷ "DICODE_MCP_API_KEY" ∷ []

-- A name with nothing else.
abbrev pub is_bare : EnvEntry → Bool
is_bare e = e.value == "" && e.secret == "" && e.from == ""

-- `strings.HasSuffix(name, "*")`
abbrev pub ends_in_star : String → Bool
ends_in_star name = slice name (len name - 1) (len name) == "*"

unfoldable pub is_wildcard_env_entry : EnvEntry → Bool
is_wildcard_env_entry e = is_bare e && ltb 1 (len e.name) && ends_in_star e.name

unfoldable pub wildcard_blocked : String → Bool
wildcard_blocked name =
    if contains name never_forward_env
    then true
    else name == "DICODE_SOCKET" || name == "DICODE_TOKEN"

-- The prefixes of the pattern entries.
unfoldable pub prefixes_of : List EnvEntry → List String
unfolding is_wildcard_env_entry
prefixes_of [] = []
prefixes_of (e ∷ entries) =
    let rest = prefixes_of entries in
    if is_wildcard_env_entry e then slice e.name 0 (len e.name - 1) ∷ rest else rest

abbrev pub Vars : Type 0
Vars = List (String × String)

unfoldable pub has_prefix : String → List String → Bool
has_prefix name [] = false
has_prefix name (p ∷ ps) = starts_with name p || has_prefix name ps

-- The loop over the daemon's environment; `seen_names` are the names already taken.
unfoldable pub matching : List String → List String → Vars → List String
unfolding has_prefix wildcard_blocked
matching prefixes seen_names [] = []
matching prefixes seen_names ((name, val) ∷ host) =
    let skip = matching prefixes seen_names host in
    let take = matching prefixes (name ∷ seen_names) host in
    if name == ""
    then skip
    else if contains name seen_names || wildcard_blocked name
    then skip
    else if has_prefix name prefixes
    then name ∷ take
    else skip

unfoldable pub insert_sorted : String → List String → List String
insert_sorted a [] = a ∷ []
insert_sorted a (b ∷ rest) =
    let later = b ∷ insert_sorted a rest in
    elim (compare a b) [ Ordering.gt ↦ later | _ ↦ a ∷ b ∷ rest ]

-- `sort.Strings`
unfoldable pub sort : List String → List String
unfolding insert_sorted
sort [] = []
sort (a ∷ rest) = insert_sorted a (sort rest)

unfoldable pub wildcard_env_names : List EnvEntry → Vars → List String
unfolding prefixes_of matching sort
wildcard_env_names entries host = elim (prefixes_of entries) [
  | [] ↦ []
  | p ∷ ps ↦ sort (matching (p ∷ ps) [] host)
]

-- The host's values of some names, those that are set.
unfoldable pub forward : List String → Vars → Vars
forward [] host = []
forward (name ∷ names) host =
    let rest = forward names host in
    elim (lookup name host) [ none ↦ rest | some val ↦ (name, val) ∷ rest ]

-- The names of the bare entries that are looked up in the host.
unfoldable pub bare_names : Vars → List EnvEntry → List String
unfolding is_wildcard_env_entry
bare_names resolved [] = []
bare_names resolved (e ∷ entries) =
    let rest = bare_names resolved entries in
    if e.name == "" || not (is_bare e)
    then rest
    else if is_wildcard_env_entry e
    then rest
    else if contains e.name never_forward_env
    then rest
    else elim (lookup e.name resolved) [ some v ↦ rest | none ↦ e.name ∷ rest ]

unfoldable pub unresolved : Vars → List String → List String
unresolved resolved [] = []
unresolved resolved (name ∷ names) =
    let rest = unresolved resolved names in
    elim (lookup name resolved) [ some v ↦ rest | none ↦ name ∷ rest ]

unfoldable pub subprocess_env : List EnvEntry → Vars → Vars → String → String → Vars
unfolding forward bare_names unresolved wildcard_env_names
subprocess_env entries host resolved socket_path token =
    forward host_passthrough_vars host
    ++ (forward (bare_names resolved entries) host
        ++ (forward (unresolved resolved (wildcard_env_names entries host)) host
            ++ (("DICODE_SOCKET", socket_path) ∷ ("DICODE_TOKEN", token) ∷ resolved)))
