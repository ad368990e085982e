-- ===== src/Runtime/Env/Tests.antt =====
-- Tests of pkg/runtime/subprocenv.go: the theorem at a concrete host.
use dicode_core.Prelude.{
  String, ◌≡◌, refl, false, ◌&&◌, ◌||◌, none, some, List, [], ◌∷◌, contains, if◌then◌else◌, ◌==◌,
  string_eq,
}
use dicode_core.Prelude.Dict.{lookup}
use dicode_core.Taskset.Merge.{EnvEntry}
use dicode_core.Runtime.Env.{
  Vars, host_passthrough_vars, prefixes_of, subprocess_env, wildcard_env_names,
}
use dicode_core.Runtime.Env.Effective.{
  effective, prefer, matched, declared, forwardable, effective-subprocess_env,
}

abbrev entry : String → EnvEntry
entry name = record {
  name = name;
  from = "";
  secret = "";
  value = "";
  default = "";
  optional = false;
  if_missing = none;
}

abbrev entries : List EnvEntry
entries = entry "DICODE_*" ∷ entry "GITHUB_*" ∷ entry "DICODE_API_KEY" ∷ []

abbrev host : Vars
host =
    ("GITHUB_SHA", "abc")
    ∷ ("DICODE_API_KEY", "k")
    ∷ ("DICODE_TOKEN", "old")
    ∷ ("DICODE_HOME", "h")
    ∷ []

names : wildcard_env_names entries host ≡ "DICODE_HOME" ∷ "GITHUB_SHA" ∷ []
unfolding wildcard_env_names
names = refl

abbrev key : String
key = "DICODE_API_KEY"

effective-subprocess_env_example :
    effective key (subprocess_env entries host [] "/s" "t")
    ≡ prefer none (
        if "DICODE_TOKEN" == key
        then some "t"
        else if "DICODE_SOCKET" == key
        then some "/s"
        else if contains key host_passthrough_vars
            || matched (prefixes_of entries) key
            || forwardable key && declared key entries
        then lookup key host
        else none)
effective-subprocess_env_example = effective-subprocess_env entries host [] "/s" "t" key

-- A key of the daemon is withheld, also where an entry names it.
key_withheld : effective "DICODE_API_KEY" (subprocess_env entries host [] "/s" "t") ≡ none
unfolding subprocess_env lookup
key_withheld = refl
