-- ===== src/Task/InputRef/Scanning.antt =====
-- pkg/task/inputref.go: a text against the references that are found in it.
use Prim.Native.Char.{Char, code}
use Prim.Native.String.{count, ◌++◌ as str_append}
use text.Mathlib.TextEquality.{Char-path}
use text.Mathlib.TextLemmas.{cons-ne-nil, length-cons, cons-append, nil-append, append_assoc}
use dicode_core.Prelude.{
  ℕ, zero, suc, ◌+◌, ◌<◌, String, ◌≡◌, refl, sym, ap, ◌∙◌, ◌≢◌, true, false, none, some, List, [],
  ◌∷◌, nat_beq, nat_beq_iff, if◌then◌else◌, ◌==◌, string_eq, arith, Bool-cases, Option-cases, inl,
  inr, beq_ne,
}
use dicode_core.Prelude.Text.{strip, strip_sound}
use dicode_core.Task.InputRef.{
  RefKind, of_output, of_params, Piece, lit, ref, is_letter, is_name, span_name, close, field_of,
  after_kind, match_ref, scan, pieces, mentions_input, ok, InputContext, join, resolve_string,
}

abbrev pub kind_name : RefKind → String
kind_name of_output = "output"
kind_name of_params = "params"

-- What follows the kind in a reference.
abbrev ending : String → String
ending field = if field == "" then "}" else str_append "." (str_append field "}")

-- How a reference is written.
abbrev pub written : RefKind → String → String
written kind field = str_append "${input." (str_append (kind_name kind) (ending field))

-- The text that the pieces were cut from.
abbrev pub render : List Piece → String
render [] = ""
render (lit c ∷ ps) = String.◌∷◌ c (render ps)
render (ref kind field ∷ ps) = str_append (written kind field) (render ps)

is_char : (c d : Char) → nat_beq (code c) (code d) ≡ true → c ≡ d
is_char c d h = Char-path c d ((nat_beq_iff (code c) (code d)).0 h)

unit-append : (c : Char) (r : String) → str_append (String.◌∷◌ c String.[]) r ≡ String.◌∷◌ c r
unit-append c r = rw (cons-append c String.[] r, nil-append r) refl

span_name_sound : (s : String) → s ≡ str_append (span_name s).0 (span_name s).1
unfolding span_name
span_name_sound String.[] = refl
span_name_sound (String.◌∷◌ c s) = elim (Bool-cases (is_name (code c))) [
  | inl e ↦
      rw (e, cons-append c (span_name s).0 (span_name s).1)
        (ap (λ (t : String). String.◌∷◌ c t) (span_name_sound s))
  | inr e ↦ rw (e, nil-append (String.◌∷◌ c s)) refl
]

close_sound :
    (kind k : RefKind) (field f s r : String)
    → close kind field s ≡ some (k, f, r)
    → (k ≡ kind) × (f ≡ field) × (s ≡ str_append "}" r)
unfolding close
close_sound kind k field f String.[] r h = absurd (cc)
close_sound kind k field f (String.◌∷◌ c s) r h = elim (Bool-cases (nat_beq (code c) b'}')) [
  | inr e ↦ absurd (cc (rw e at h))
  | inl e ↦
      let h' = rw e at h in let same = is_char c "}" e in (cc, cc, cc (unit-append "}" r, same))
]

-- A field's reference has a name that is not empty.
field_of_sound :
    (kind k : RefKind) (f s r : String)
    → field_of kind s ≡ some (k, f, r)
    → (k ≡ kind) × (f ≢ "") × (s ≡ str_append f (str_append "}" r))
unfolding field_of
field_of_sound kind k f String.[] r h = absurd (cc)
field_of_sound kind k f (String.◌∷◌ c s) r h = elim (Bool-cases (is_letter (code c))) [
  | inr e ↦ absurd (cc (rw e at h))
  | inl e ↦
      let (same, name, shut) =
        close_sound kind k (String.◌∷◌ c (span_name s).0) f (span_name s).1 r (rw e at h) in
      (
        same,
        λ n. cons-ne-nil c (span_name s).0 (sym name ∙ n),
        rw (name, cons-append c (span_name s).0 (str_append "}" r), sym shut)
            (ap (λ (t : String). String.◌∷◌ c t) (span_name_sound s)),
      )
]

ending_named : (f : String) → f ≢ "" → ending f ≡ str_append "." (str_append f "}")
ending_named f n = rw (beq_ne f "" n) refl

after_kind_sound :
    (kind k : RefKind) (f s r : String)
    → after_kind kind s ≡ some (k, f, r)
    → (k ≡ kind) × (s ≡ str_append (ending f) r)
unfolding after_kind
after_kind_sound kind k f String.[] r h = absurd (cc)
after_kind_sound kind k f (String.◌∷◌ c s) r h = elim (Bool-cases (nat_beq (code c) b'}')) [
  | inl e ↦
      let h' = rw e at h in
      let empty : f ≡ "" = cc in (cc, rw empty (cc (unit-append "}" r, is_char c "}" e)))
  | inr e ↦ elim (Bool-cases (nat_beq (code c) b'.')) [
    | inr e' ↦ absurd (cc (rw (e, e') at h))
    | inl e' ↦
        let (same, ne, rest) = field_of_sound kind k f s r (rw (e, e') at h) in
        (
          same,
          rw
              (
                ending_named f ne,
                append_assoc "." (str_append f "}") r,
                append_assoc f "}" r,
                sym rest,
                unit-append "." s,
                is_char c "." e',
              )
              refl,
        )
  ]
]

glue :
    (kind f s r' r : String)
    → s ≡ str_append "${input." (str_append kind r')
    → r' ≡ str_append (ending f) r
    → s ≡ str_append (str_append "${input." (str_append kind (ending f))) r
glue kind f s r' r e e' =
    rw
      (
        e,
        e',
        append_assoc "${input." (str_append kind (ending f)) r,
        append_assoc kind (ending f) r,
      )
      refl

-- A match is the reference as it is written, and the rest of the text.
pub match_ref_sound :
    (k : RefKind) (f s r : String) → match_ref s ≡ some (k, f, r) → s ≡ str_append (written k f) r
unfolding match_ref
match_ref_sound k f s r h = elim (Option-cases (strip "${input." s)) [
  | inl e ↦ absurd (cc (rw (e, match_ref) at h))
  | inr (a, e) ↦ elim (Option-cases (strip "output" a)) [
    | inr (b, e') ↦
        let (same, rest) = after_kind_sound of_output k f b r (rw (e, e', match_ref) at h) in
        let whole =
          glue "output" f s b r
            (strip_sound "${input." s a e
              ∙ ap (str_append "${input.") (strip_sound "output" a b e'))
            rest in
        rw same whole
    | inl e' ↦ elim (Option-cases (strip "params" a)) [
      | inl e'' ↦ absurd (cc (rw (e, e', e'', match_ref) at h))
      | inr (b, e'') ↦
          let (same, rest) = after_kind_sound of_params k f b r (rw (e, e', e'', match_ref) at h) in
          let whole =
            glue "params" f s b r
              (strip_sound "${input." s a e
                ∙ ap (str_append "${input.") (strip_sound "params" a b e''))
              rest in
          rw same whole
    ]
  ]
]

match_ref-plain : (s : String) → strip "${input." s ≡ none → match_ref s ≡ none
unfolding match_ref
match_ref-plain s e = rw (e, match_ref) refl

module _ {A : Type 0} (ctx : InputContext A) where
  scan-plain :
      (fuel : ℕ) (s : String)
      → count s < fuel
      → mentions_input s ≡ false
      → join ctx (scan fuel s) ≡ ok s
  unfolding scan mentions_input join
  scan-plain zero s h e = absurd (omega arith)
  scan-plain (suc fuel) String.[] h e = refl
  scan-plain (suc fuel) (String.◌∷◌ c s) h e =
      elim (Option-cases (strip "${input." (String.◌∷◌ c s))) [
        | inr (r, f) ↦ absurd (cc (rw (f, mentions_input) at e))
        | inl f ↦
            let e' = rw (f, mentions_input) at e in
            rw (match_ref-plain (String.◌∷◌ c s) f, scan)
              (rw (scan-plain fuel s (omega (arith, length-cons c s)) e') refl)
      ]

  -- The test for `${input.` is a shortcut: it changes no result.
  pub resolve_string-eq-join : (s : String) → resolve_string ctx s ≡ join ctx (pieces s)
  unfolding resolve_string pieces
  resolve_string-eq-join s = elim (Bool-cases (mentions_input s)) [
    | inl e ↦ rw e refl
    | inr e ↦ rw e (sym (scan-plain (count s + 1) s (omega arith) e))
  ]
