-- ===== src/Runtime/Env/Effective.antt =====
-- pkg/runtime/subprocenv.go: the value that a name has in a task's subprocess.
use text.Mathlib.TextEquality.{eq_iff}
use dicode_core.Prelude.{
  String, ◌≡◌, refl, ap, Bool, true, false, not, ◌&&◌, ◌||◌, Option, none, some, List, [], ◌∷◌,
  ◌++◌, contains, if◌then◌else◌, ◌==◌, string_eq, arith, Bool-cases, Option-cases, inl, inr,
}
use dicode_core.Prelude.Dict.{lookup}
use dicode_core.Taskset.Merge.{EnvEntry}
use dicode_core.Runtime.Env.{
  Vars, host_passthrough_vars, never_forward_env, is_bare, is_wildcard_env_entry, wildcard_blocked,
  prefixes_of, has_prefix, matching, insert_sorted, sort, wildcard_env_names, forward, bare_names,
  unresolved, subprocess_env,
}

abbrev pub prefer : Option String → Option String → Option String
prefer (some v) o = some v
prefer none o = o

-- What the started process sees: the last value for a name.
abbrev pub effective : String → Vars → Option String
effective n [] = none
effective n ((name, val) ∷ rest) = prefer (effective n rest) (if name == n then some val else none)

prefer_assoc : (a b c : Option String) → prefer (prefer a b) c ≡ prefer a (prefer b c)
prefer_assoc none b c = refl
prefer_assoc (some v) b c = refl

effective-append :
    (n : String) (xs ys : Vars) → effective n (xs ++ ys) ≡ prefer (effective n ys) (effective n xs)
effective-append n [] ys = ground arith
effective-append n ((name, val) ∷ xs) ys =
    rw (effective-append n xs ys)
      (prefer_assoc (effective n ys) (effective n xs) (if name == n then some val else none))

effective-forward :
    (n : String) (names : List String) (host : Vars)
    → effective n (forward names host) ≡ (if contains n names then lookup n host else none)
unfolding forward
effective-forward n [] host = refl
effective-forward n (name ∷ names) host = elim (Bool-cases (name == n)) [
  | inl e ↦
      let same : name ≡ n = (eq_iff name n).0 e in
      elim (Option-cases (lookup n host)) [
        | inl f ↦
            ground (arith, ap (λ (x : String). lookup x host) same, effective-forward n names host)
        | inr (v, f) ↦
            ground (arith, ap (λ (x : String). lookup x host) same, effective-forward n names host)
      ]
  | inr e ↦ elim (Option-cases (lookup name host)) [
    | inl f ↦ ground (arith, effective-forward n names host)
    | inr (v, f) ↦ ground (arith, effective-forward n names host)
  ]
]

contains-insert_sorted :
    (n a : String) (xs : List String) → contains n (insert_sorted a xs) ≡ (a == n || contains n xs)
unfolding insert_sorted
contains-insert_sorted n a [] = refl
contains-insert_sorted n a (b ∷ xs) = ground (arith, contains-insert_sorted n a xs)

contains-sort : (n : String) (xs : List String) → contains n (sort xs) ≡ contains n xs
unfolding sort
contains-sort n [] = refl
contains-sort n (a ∷ xs) = ground (arith, contains-insert_sorted n a (sort xs), contains-sort n xs)

abbrev present : String → Vars → Bool
present n [] = false
present n ((name, val) ∷ host) = name == n || present n host

lookup-absent : (n : String) (host : Vars) → present n host ≡ false → lookup n host ≡ none
unfolding lookup
lookup-absent n [] h = refl
lookup-absent n ((name, val) ∷ host) h = ground (arith, lookup-absent n host)

-- A host variable that the patterns let through.
abbrev pub matched : List String → String → Bool
matched prefixes n = not (n == "") && not (wildcard_blocked n) && has_prefix n prefixes

contains-matching :
    (n : String) (prefixes taken : List String) (host : Vars)
    → contains n (matching prefixes taken host)
      ≡ (not (contains n taken) && matched prefixes n && present n host)
unfolding matching
contains-matching n prefixes taken [] = ground arith
contains-matching n prefixes taken ((name, val) ∷ host) = elim (Bool-cases (name == n)) [
  | inl e ↦
      let same : name ≡ n = (eq_iff name n).0 e in
      rw same (
        ground (
          arith,
          eq_iff n n,
          contains-matching n prefixes taken host,
          contains-matching n prefixes (n ∷ taken) host,
        ))
  | inr e ↦ ground (
    arith,
    contains-matching n prefixes taken host,
    contains-matching n prefixes (name ∷ taken) host,
  )
]

abbrev is_none : Option String → Bool
is_none none = true
is_none (some v) = false

contains-unresolved :
    (n : String) (resolved : Vars) (names : List String)
    → contains n (unresolved resolved names) ≡ (contains n names && is_none (lookup n resolved))
unfolding unresolved
contains-unresolved n resolved [] = refl
contains-unresolved n resolved (name ∷ names) = elim (Bool-cases (name == n)) [
  | inl e ↦
      let same : name ≡ n = (eq_iff name n).0 e in
      rw same (ground (arith, eq_iff n n, contains-unresolved n resolved names))
  | inr e ↦ ground (arith, contains-unresolved n resolved names)
]

-- An entry that names a host variable and nothing else.
abbrev pub declared : String → List EnvEntry → Bool
declared n [] = false
declared n (e ∷ entries) =
    e.name == n && is_bare e && not (is_wildcard_env_entry e) || declared n entries

-- A bare entry may forward it.
abbrev pub forwardable : String → Bool
forwardable n = not (n == "") && not (contains n never_forward_env)

contains-bare_names :
    (n : String) (resolved : Vars) (entries : List EnvEntry)
    → contains n (bare_names resolved entries)
      ≡ (forwardable n && declared n entries && is_none (lookup n resolved))
unfolding bare_names
contains-bare_names n resolved [] = ground arith
contains-bare_names n resolved (e ∷ entries) = elim (Bool-cases (e.name == n)) [
  | inl q ↦
      let same : e.name ≡ n = (eq_iff e.name n).0 q in
      let empty = ap (λ (x : String). x == "") same in
      let never = ap (λ (x : String). contains x never_forward_env) same in
      let resolves = ap (λ (x : String). lookup x resolved) same in
      ground (arith, contains-bare_names n resolved entries)
  | inr q ↦ ground (arith, contains-bare_names n resolved entries)
]

effective-resolved :
    (n : String) (vars : Vars) → effective n vars ≡ none → is_none (lookup n vars) ≡ true
unfolding lookup
effective-resolved n [] h = refl
effective-resolved n ((name, val) ∷ vars) h = ground (arith, effective-resolved n vars)

contains-wild :
    (n : String) (ps : List String) (host : Vars)
    → (if contains n (sort (matching ps [] host)) && true then lookup n host else none)
      ≡ (if matched ps n then lookup n host else none)
contains-wild n ps host =
    rw (contains-sort n (matching ps [] host), contains-matching n ps [] host)
      (elim (Bool-cases (present n host)) [
        | inl y ↦ rw y (ground arith)
        | inr m ↦ rw (m, lookup-absent n host m) (ground arith)
      ])

effective-wild :
    (n : String) (resolved : Vars) (entries : List EnvEntry) (host : Vars)
    → is_none (lookup n resolved) ≡ true
    → effective n (forward (unresolved resolved (wildcard_env_names entries host)) host)
      ≡ (if matched (prefixes_of entries) n then lookup n host else none)
unfolding wildcard_env_names
effective-wild n resolved entries host h =
    rw
      (
        effective-forward n (unresolved resolved (wildcard_env_names entries host)) host,
        contains-unresolved n resolved (wildcard_env_names entries host),
        h,
      )
      (go (prefixes_of entries))
  where
    go :
        (ps : List String)
        → (if contains n (elim ps [ [] ↦ [] | p ∷ rest ↦ sort (matching (p ∷ rest) [] host) ])
              && true
            then lookup n host
            else none)
          ≡ (if matched ps n then lookup n host else none)
    go [] = unfold has_prefix in ground arith
    go (p ∷ rest) = contains-wild n (p ∷ rest) host

effective-bare :
    (n : String) (resolved : Vars) (entries : List EnvEntry) (host : Vars)
    → is_none (lookup n resolved) ≡ true
    → effective n (forward (bare_names resolved entries) host)
      ≡ (if forwardable n && declared n entries then lookup n host else none)
effective-bare n resolved entries host h =
    rw
      (
        effective-forward n (bare_names resolved entries) host,
        contains-bare_names n resolved entries,
        h,
      )
      (drop (forwardable n) (declared n entries) (lookup n host))
  where
    drop :
        (a b : Bool) (o : Option String)
        → (if a && b && true then o else none) ≡ (if a && b then o else none)
    drop true true o = refl
    drop true false o = refl
    drop false b o = refl

combine :
    (is_token is_socket listed named patterned : Bool) (token socket_path : String)
    (o : Option String)
    → prefer
        (prefer
          (prefer
            (prefer
              (if is_token then some token else none)
              (if is_socket then some socket_path else none))
            (if patterned then o else none))
          (if named then o else none))
        (if listed then o else none)
      ≡ (if is_token
          then some token
          else if is_socket
          then some socket_path
          else if listed || patterned || named
          then o
          else none)
combine true b c d e token socket_path o = refl
combine false true c d e token socket_path o = refl
combine false false c d e token socket_path none = ground arith
combine false false c d e token socket_path (some v) = ground arith

-- What a name reads in a task's subprocess: the resolved value; or else the run's socket and token under their names;
-- or else the host's value where the name is on the fixed list, or is named by a bare entry, or matches a bare
-- pattern; and nothing otherwise. Neither entries nor patterns let the daemon's own keys through, and patterns
-- neither the socket nor the token.
pub effective-subprocess_env :
    (entries : List EnvEntry) (host resolved : Vars) (socket_path token n : String)
    → effective n (subprocess_env entries host resolved socket_path token)
      ≡ prefer (effective n resolved) (
          if "DICODE_TOKEN" == n
          then some token
          else if "DICODE_SOCKET" == n
          then some socket_path
          else if contains n host_passthrough_vars
              || matched (prefixes_of entries) n
              || forwardable n && declared n entries
          then lookup n host
          else none)
unfolding subprocess_env
effective-subprocess_env entries host resolved socket_path token n =
    let last = ("DICODE_SOCKET", socket_path) ∷ ("DICODE_TOKEN", token) ∷ resolved in
    let wild = forward (unresolved resolved (wildcard_env_names entries host)) host in
    let bare = forward (bare_names resolved entries) host in
    let fixed = forward host_passthrough_vars host in
    rw
      (
        effective-append n fixed (bare ++ (wild ++ last)),
        effective-append n bare (wild ++ last),
        effective-append n wild last,
        effective-forward n host_passthrough_vars host,
      )
      (elim (Option-cases (effective n resolved)) [
        | inr (v, f) ↦ rw f refl
        | inl f ↦
            let h = effective-resolved n resolved f in
            rw
              (
                f,
                effective-wild n resolved entries host h,
                effective-bare n resolved entries host h,
              )
              (combine ("DICODE_TOKEN" == n) ("DICODE_SOCKET" == n)
                (contains n host_passthrough_vars) (forwardable n && declared n entries)
                (matched (prefixes_of entries) n) token socket_path (lookup n host))
      ])
