-- ===== src/Einklib/Waveform/Parsing.antt =====
-- ParseWaveformMode is the inverse of String, up to the case of ASCII letters.
use mathlib.Core.List.{map}
use tableaux_eink_go.Base.{
  ℕ, zero, suc, ◌+◌, ◌<◌, ◌≡◌, refl, ◌↔◌, ◌≢◌, inl, inr, Bool, true, false, ◌&&◌, [], ◌∷◌, arith,
  Bool-cases, length, ◌∙◌, sym, holds_below, holds_below_sound,
}
use tableaux_eink_go.Base.Int.{pos, negsuc, eqb_ℤ, eqb_ℤ_iff}
use tableaux_eink_go.Base.Text.{Str, str, lower_byte}
use tableaux_eink_go.Einklib.Waveform.{
  WaveformMode, mode_string, fold_loop, eq_fold, parse_from, parse_waveform_mode,
}

-- The text with its ASCII letters in lower case.
abbrev pub lowered : Str → Str
lowered = map lower_byte

fold_loop-lowered : (a b : Str) → length a ≡ length b → fold_loop a b ≡ true → lowered a ≡ lowered b
unfolding fold_loop
fold_loop-lowered [] [] e h = refl
fold_loop-lowered [] (y ∷ b) e h = absurd (omega arith)
fold_loop-lowered (x ∷ a) [] e h = absurd (omega arith)
fold_loop-lowered (x ∷ a) (y ∷ b) e h = ground (arith, fold_loop-lowered a b)

lowered-eq_fold :
    (a b : Str) → lowered a ≡ lowered b → (length a ≡ length b) × (fold_loop a b ≡ true)
unfolding fold_loop
lowered-eq_fold [] [] h = (refl, refl)
lowered-eq_fold [] (y ∷ b) h = absurd (cc)
lowered-eq_fold (x ∷ a) [] h = absurd (cc)
lowered-eq_fold (x ∷ a) (y ∷ b) h = ground (arith, lowered-eq_fold a b)

-- Two strings fold alike exactly when their lower-case forms are equal.
pub eq_fold_iff : (a b : Str) → (eq_fold a b ≡ true) ↔ (lowered a ≡ lowered b)
unfolding eq_fold
eq_fold_iff a b =
    (λ h. ground (arith, fold_loop-lowered a b), λ h. ground (arith, lowered-eq_fold a b))

-- The modes of the enumeration.
abbrev pub IsNamed : WaveformMode → Type 0
IsNamed (pos n) = n < 16
IsNamed (negsuc n) = ⊥

eq_fold-congr : (a s t : Str) → lowered s ≡ lowered t → eq_fold a s ≡ eq_fold a t
eq_fold-congr a s t h = ground (arith, eq_fold_iff a s, eq_fold_iff a t)

parse_from-congr :
    (k m : ℕ) (s t : Str) → lowered s ≡ lowered t → parse_from k m s ≡ parse_from k m t
unfolding parse_from
parse_from-congr zero m s t h = refl
parse_from-congr (suc k) m s t h =
    rw (eq_fold-congr (mode_string (pos m)) s t h, parse_from-congr k (suc m) s t h)

-- Whether the parser gives a mode back from the mode's own name.
returns : ℕ → Bool
returns n = let r = parse_waveform_mode (mode_string (pos n)) in r.1 && eqb_ℤ r.0 (pos n)

returns_table : holds_below 16 returns ≡ true
unfolding holds_below returns parse_waveform_mode mode_string eq_fold str lower_byte
returns_table = refl

-- A named mode's own name is parsed to the mode.
pub parse-mode_string : (n : ℕ) → n < 16 → parse_waveform_mode (mode_string (pos n)) ≡ (pos n, true)
unfolding returns
parse-mode_string n h = ground (
  arith,
  holds_below_sound 16 returns n returns_table h,
  eqb_ℤ_iff (parse_waveform_mode (mode_string (pos n))).0 (pos n),
)

parse_from_sound :
    (k m : ℕ) (s : Str) (x : WaveformMode)
    → parse_from k m s ≡ (x, true)
    → (n : ℕ) × (n < m + k) × (x ≡ pos n) × (eq_fold (mode_string (pos n)) s ≡ true)
unfolding parse_from
parse_from_sound zero m s x h = absurd (cc)
parse_from_sound (suc k) m s x h = elim (Bool-cases (eq_fold (mode_string (pos m)) s)) [
  | inl e ↦ (m, omega arith, ground arith, e)
  | inr e ↦
      let (n, below, is_n, same) = parse_from_sound k (suc m) s x (ground arith) in
      (n, omega arith, is_n, same)
]

parse_named :
    (s : Str) (m : WaveformMode)
    → IsNamed m
    → lowered s ≡ lowered (mode_string m)
    → parse_waveform_mode s ≡ (m, true)
unfolding parse_waveform_mode
parse_named s (pos n) h e = parse_from-congr 16 0 s (mode_string (pos n)) e ∙ parse-mode_string n h
parse_named s (negsuc n) h e = absurd h

parse-IsNamed :
    (s : Str) (m : WaveformMode)
    → parse_waveform_mode s ≡ (m, true)
    → IsNamed m × (lowered s ≡ lowered (mode_string m))
unfolding parse_waveform_mode
parse-IsNamed s m h =
    let (n, below, is_n, same) = parse_from_sound 16 0 s m h in
    rw is_n (omega arith, sym ((eq_fold_iff (mode_string (pos n)) s).0 same))

-- A string is parsed to a mode exactly when the mode is one of the sixteen and the string is the
-- mode's name up to the case of ASCII letters.
pub parse_waveform_mode_iff :
    (s : Str) (m : WaveformMode)
    → (parse_waveform_mode s ≡ (m, true)) ↔ (IsNamed m × (lowered s ≡ lowered (mode_string m)))
parse_waveform_mode_iff s m = (parse-IsNamed s m, λ h. parse_named s m h.0 h.1)

parse_from_unknown :
    (k m : ℕ) (s : Str) → (parse_from k m s).1 ≡ false → parse_from k m s ≡ (pos 0, false)
unfolding parse_from
parse_from_unknown zero m s h = refl
parse_from_unknown (suc k) m s h = ground (arith, parse_from_unknown k (suc m) s)

-- A string that is the name of none of the sixteen modes, in any case of letters, is refused, with
-- the mode 0 beside the refusal.
pub parse_waveform_mode_unknown :
    (s : Str)
    → ((m : WaveformMode) → IsNamed m → lowered s ≢ lowered (mode_string m))
    → parse_waveform_mode s ≡ (pos 0, false)
parse_waveform_mode_unknown s none_of = elim (Bool-cases (parse_waveform_mode s).1) [
  | inl e ↦
      let (named, same) = parse-IsNamed s (parse_waveform_mode s).0 (ground arith) in
      absurd (none_of (parse_waveform_mode s).0 named same)
  | inr e ↦ unfold parse_waveform_mode in parse_from_unknown 16 0 s e
]
