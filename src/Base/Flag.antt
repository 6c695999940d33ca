-- ===== src/Base/Flag.antt =====
-- What the program uses of package flag, and of strconv for the values: Parse of a set of flags
-- with ExitOnError. What it writes to stderr before it exits is left out.
pub mod Values
use Prim.Native.Nat.{ℕ}
use mathlib.Core.Bool.{Bool, true, false, ◌||◌}
use mathlib.Core.Option.{Option, none, some}
use mathlib.Core.List.{List, [], ◌∷◌}
use tableaux_eink_go.Base.Tests.{◌==◌, if◌then◌else◌}
use tableaux_eink_go.Base.Int.{ℤ}
use tableaux_eink_go.Base.Text.{Str, str, str_eq}
use tableaux_eink_go.Base.Errors.{Result, ok, err}
use tableaux_eink_go.Base.Flag.Values.{parse_int, parse_bool}

-- A flag, by what its value changes.
pub data Flag (V : Type 0) : Type 0 where
  text_flag : (Str → V → V) → Flag V
  int_flag : (ℤ → V → V) → Flag V
  bool_flag : (Bool → V → V) → Flag V

-- How Parse exits: after the usage that -h asks for, with 0, and after an error, with 2.
pub data Exit : Type 0 where
  helped misused : Exit

-- What a word is: no flag, so that the flags end with it; the word `--`, which ends them; an error;
-- a flag with its value; a flag whose value is the next word.
pub data Word (V : Type 0) : Type 0 where
  argument terminator : Word V
  exits : Exit → Word V
  changes : V → Word V
  waits : Flag V → Word V

-- A name from its second byte on, and the value behind `=`.
unfoldable pub name_value : Str → Str × Option Str
name_value [] = ([], none)
name_value (c ∷ s) =
    let (name, value) = name_value s in if c == b'=' then ([], some s) else (c ∷ name, value)

abbrev undefined_flag : Str → Exit
undefined_flag name = if str_eq name (str "help") || str_eq name (str "h") then helped else misused

module _ {V : Type 0} where
  -- Value.Set
  abbrev pub set : Flag V → Str → V → Option V
  set (text_flag f) x v = some (f x v)
  set (int_flag f) x v = elim (parse_int x) [ none ↦ none | some n ↦ some (f n v) ]
  set (bool_flag f) x v = elim (parse_bool x) [ none ↦ none | some b ↦ some (f b v) ]

  abbrev pub formal : List (Str × Flag V) → Str → Option (Flag V)
  formal [] name = none
  formal ((n, f) ∷ fs) name = let rest = formal fs name in if str_eq n name then some f else rest

  abbrev changed : Option V → Word V
  changed none = exits misused
  changed (some v) = changes v

  abbrev given : Flag V → Option Str → V → Word V
  given (bool_flag f) none v = changed (set (bool_flag f) (str "true") v)
  given f (some x) v = changed (set f x v)
  given f none v = waits f

  -- A word behind its dashes.
  abbrev named : List (Str × Flag V) → Str → V → Word V
  named fs [] v = exits misused
  named fs (c ∷ s) v =
      let (rest, value) = name_value s in
      let flag = elim (formal fs (c ∷ rest)) as (λ _. Word V) [
        | none ↦ exits (undefined_flag (c ∷ rest))
        | some f ↦ given f value v
      ] in
      if c == b'-' || c == b'=' then exits misused else flag

  -- parseOne, up to the next word.
  unfoldable pub word : List (Str × Flag V) → Str → V → Word V
  word fs [] v = argument
  word fs (c ∷ []) v = argument
  word fs (c ∷ d ∷ s) v =
      let long = if str_eq s [] then terminator else named fs s v in
      if c == b'-' then (if d == b'-' then long else named fs (d ∷ s) v) else argument

  -- Parse, with the flag that waits for its value: the values, and the words that are left.
  unfoldable pub parse :
      List (Str × Flag V) → Option (Flag V) → List Str → V → Result Exit (V × List Str)
  parse fs none [] v = ok (v, [])
  parse fs (some f) [] v = err misused
  parse fs (some f) (x ∷ args) v = elim (set f x v) [
    | none ↦ err misused
    | some v' ↦ parse fs none args v'
  ]
  parse fs none (s ∷ args) v = elim (word fs s v) [
    | argument ↦ ok (v, s ∷ args)
    | terminator ↦ ok (v, args)
    | exits e ↦ err e
    | changes v' ↦ parse fs none args v'
    | waits f ↦ parse fs (some f) args v
  ]
