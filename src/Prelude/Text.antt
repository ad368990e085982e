-- ===== src/Prelude/Text.antt =====
-- Go's strings read from the front: a prefix taken off, and the last byte of a kind.
use Prim.Native.Char.{code}
use Prim.Native.Nat.{◌<◌}
use Prim.Native.String.{String, count, ◌++◌}
use mathlib.Core.Path.{◌≡◌, refl, ap, sym, ◌∙◌}
use mathlib.Core.Logic.{◌⊎◌, inl, inr}
use mathlib.Core.Option.{Option, none, some}
use text.Mathlib.TextEquality.{Char-path}
use text.Mathlib.TextLemmas.{cons-append, nil-append, length-append}
use native.Mathlib.Omega.{arith}
use dicode_core.Prelude.Tests.{if◌then◌else◌, nat_beq, nat_beq_iff, Bool-cases, Option-cases}

-- `strings.CutPrefix(s, p)`
unfoldable pub strip : String → String → Option String
strip String.[] s = some s
strip (String.◌∷◌ p ps) String.[] = none
strip (String.◌∷◌ p ps) (String.◌∷◌ c s) = if nat_beq (code p) (code c) then strip ps s else none

pub strip_sound : (p s r : String) → strip p s ≡ some r → s ≡ p ++ r
unfolding strip
strip_sound String.[] s r h = let e : s ≡ r = cc in rw (nil-append r) e
strip_sound (String.◌∷◌ p ps) String.[] r h = absurd (cc)
strip_sound (String.◌∷◌ p ps) (String.◌∷◌ c s) r h = elim (Bool-cases (nat_beq (code p) (code c))) [
  | inr e ↦ absurd (ground arith)
  | inl e ↦
      let same = Char-path p c ((nat_beq_iff (code p) (code c)).0 e) in
      let tail = strip_sound ps s r (ground arith) in cc (cons-append p ps r, same, tail)
]

pub strip-append : (p s : String) → strip p (p ++ s) ≡ some s
unfolding strip
strip-append String.[] s = rw (nil-append s) refl
strip-append (String.◌∷◌ p ps) s = rw (cons-append p ps s) (ground (arith, strip-append ps s))

-- `strings.LastIndex(id, "/")`: the text before the last '/', none where there is none.
unfoldable pub before_last_slash : String → Option String
before_last_slash String.[] = none
before_last_slash (String.◌∷◌ c s) = elim (before_last_slash s) [
  | some r ↦ some (String.◌∷◌ c r)
  | none ↦ if nat_beq (code c) b'/' then some "" else none
]

pub before_last_slash_sound :
    (s p : String) → before_last_slash s ≡ some p → (a : String) × (s ≡ p ++ ("/" ++ a))
unfolding before_last_slash
before_last_slash_sound String.[] p h = absurd (cc)
before_last_slash_sound (String.◌∷◌ c s) p h = elim (Option-cases (before_last_slash s)) [
  | inr (r, e) ↦
      let (a, f) = before_last_slash_sound s r e in
      let same : String.◌∷◌ c r ≡ p = cc (rw (e, before_last_slash) at h) in
      (a, rw (sym same, cons-append c r ("/" ++ a)) (ap (λ (t : String). String.◌∷◌ c t) f))
  | inl e ↦ elim (Bool-cases (nat_beq (code c) b'/')) [
    | inr n ↦ absurd (cc (rw (e, before_last_slash, n) at h))
    | inl y ↦
        let same : ◌≡◌ {A = String} "" p = cc (rw (e, before_last_slash, y) at h) in
        let slash : c ≡ "/" = Char-path c "/" ((nat_beq_iff (code c) b'/').0 y) in
        (
          s,
          rw (sym same, nil-append ("/" ++ s), slash, cons-append "/" String.[] s, nil-append s)
              refl,
        )
  ]
]

-- The text before the last slash is shorter.
pub before_last_slash_shorter : (s p : String) → before_last_slash s ≡ some p → count p < count s
before_last_slash_shorter s p h =
    let (a, e) = before_last_slash_sound s p h in
    omega (arith, ap count e, length-append p ("/" ++ a), length-append "/" a)

-- `strings.TrimSuffix(s, "/")`
unfoldable pub trim_slash : String → String
trim_slash String.[] = ""
trim_slash (String.◌∷◌ c String.[]) = if nat_beq (code c) b'/' then "" else String.◌∷◌ c String.[]
trim_slash (String.◌∷◌ c (String.◌∷◌ d s)) = String.◌∷◌ c (trim_slash (String.◌∷◌ d s))

-- A text with a slash is cut at that slash or at a later one.
pub before_last_slash-append :
    (h a : String)
    → (p : String) × (before_last_slash (h ++ ("/" ++ a)) ≡ some p)
      × ((p ≡ h) ⊎ ((b : String) × (p ≡ h ++ ("/" ++ b))))
unfolding before_last_slash
before_last_slash-append String.[] a = elim (Option-cases (before_last_slash a)) [
  | inl e ↦ (
    "",
    rw (nil-append ("/" ++ a), cons-append "/" String.[] a, nil-append a, before_last_slash, e)
        refl,
    inl refl,
  )
  | inr (r, e) ↦ (
    String.◌∷◌ "/" r,
    rw (nil-append ("/" ++ a), cons-append "/" String.[] a, nil-append a, before_last_slash, e)
        refl,
    inr (r, rw (nil-append ("/" ++ r), cons-append "/" String.[] r, nil-append r) refl),
  )
]
before_last_slash-append (String.◌∷◌ c h) a =
    let (p, e, place) = before_last_slash-append h a in
    (
      String.◌∷◌ c p,
      rw (cons-append c h ("/" ++ a), before_last_slash, e) refl,
      elim place [
        | inl same ↦ inl (ap (λ (t : String). String.◌∷◌ c t) same)
        | inr (b, same) ↦
            inr (b, ap (λ (t : String). String.◌∷◌ c t) same ∙ sym (cons-append c h ("/" ++ b)))
      ],
    )
