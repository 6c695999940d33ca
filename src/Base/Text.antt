-- ===== src/Base/Text.antt =====
-- Go strings: sequences of bytes, and what the program uses of package strings.
pub mod Decimal
use Prim.Native.Nat.{ℕ, zero, suc, ◌+◌, ◌/◌, ◌%◌, ◌≤◌}
use Prim.Native.Char.{code}
use Prim.Native.String.{String}
use mathlib.Core.Path.{◌≡◌, refl, sym, ap, ◌∙◌}
use mathlib.Core.Logic.{◌↔◌, ◌≢◌}
use mathlib.Core.Bool.{Bool, true, false, ◌&&◌, ◌||◌}
use mathlib.Core.List.{List, [], ◌∷◌, ◌++◌, reverse, reverse-reverse, reverse-append, append-nil}
use native.Mathlib.Omega.{arith}
use tableaux_eink_go.Base.Tests.{ltb, leb, ◌==◌, if◌then◌else◌}
use tableaux_eink_go.Base.Lists.{length, drop, All, All-reverse}
use tableaux_eink_go.Base.Int.{ℤ, pos, negsuc}

-- A Go string, or a []byte: bytes, each below 256.
abbrev pub Str : Type 0
Str = List ℕ

-- The bytes of an ASCII literal.
unfoldable pub str : String → Str
str String.[] = []
str (String.◌∷◌ c s) = code c ∷ str s

-- Go's `==` on strings.
unfoldable pub str_eq : Str → Str → Bool
str_eq [] [] = true
str_eq [] (b ∷ t) = false
str_eq (a ∷ s) [] = false
str_eq (a ∷ s) (b ∷ t) = a == b && str_eq s t

pub str_eq_sound : (s t : Str) → str_eq s t ≡ true → s ≡ t
unfolding str_eq
str_eq_sound [] [] h = refl
str_eq_sound [] (b ∷ t) h = ground arith
str_eq_sound (a ∷ s) [] h = ground arith
str_eq_sound (a ∷ s) (b ∷ t) h = ground (arith, str_eq_sound s t)

pub str_eq_self : (s : Str) → str_eq s s ≡ true
unfolding str_eq
str_eq_self [] = refl
str_eq_self (a ∷ s) = ground (arith, str_eq_self s)

pub str_eq_iff : (s t : Str) → (str_eq s t ≡ true) ↔ (s ≡ t)
str_eq_iff s t = (str_eq_sound s t, λ p. rw p (str_eq_self t))

-- `len(s) == 0`
abbrev pub is_empty : Str → Bool
is_empty [] = true
is_empty (a ∷ s) = false

-- strings.HasPrefix
unfoldable pub has_prefix : Str → Str → Bool
has_prefix s [] = true
has_prefix [] (b ∷ t) = false
has_prefix (a ∷ s) (b ∷ t) = a == b && has_prefix s t

pub has_prefix-append : (t s : Str) → has_prefix (t ++ s) t ≡ true
unfolding has_prefix
has_prefix-append [] s = refl
has_prefix-append (b ∷ t) s = ground (arith, has_prefix-append t s)

pub has_prefix_sound : (s t : Str) → has_prefix s t ≡ true → s ≡ t ++ drop (length t) s
unfolding has_prefix
has_prefix_sound s [] h = refl
has_prefix_sound [] (b ∷ t) h = ground arith
has_prefix_sound (a ∷ s) (b ∷ t) h = ground (arith, has_prefix_sound s t)

-- The white space of unicode.IsSpace, by the bytes of its UTF-8 encoding. ASCII:
-- tab, line feed, vertical tab, form feed, carriage return and blank.
abbrev pub is_space1 : ℕ → Bool
is_space1 a = (leb 9 a && leb a 13) || a == 32

-- U+0085 and U+00A0
abbrev is_space2 : ℕ → ℕ → Bool
is_space2 a b = a == 0xc2 && (b == 0x85 || b == 0xa0)

-- U+1680, U+2000 to U+200A, U+2028, U+2029, U+202F, U+205F and U+3000
abbrev is_space3 : ℕ → ℕ → ℕ → Bool
is_space3 a b c =
    (a == 0xe1 && (b == 0x9a && c == 0x80))
    || ((a == 0xe2
          && ((b == 0x80 && ((leb 0x80 c && leb c 0x8a) || (c == 0xa8 || (c == 0xa9 || c == 0xaf))))
              || (b == 0x81 && c == 0x9f)))
        || (a == 0xe3 && (b == 0x80 && c == 0x80)))

-- How many bytes the white space takes that `s` begins with; 0 if it begins with none.
unfoldable pub space_width : Str → ℕ
space_width [] = 0
space_width (a ∷ []) = if is_space1 a then 1 else 0
space_width (a ∷ b ∷ []) = if is_space1 a then 1 else if is_space2 a b then 2 else 0
space_width (a ∷ b ∷ c ∷ s) =
    if is_space1 a then 1 else if is_space2 a b then 2 else if is_space3 a b c then 3 else 0

-- The same of a reversed string: what the string ends with.
unfoldable pub space_width_back : Str → ℕ
space_width_back [] = 0
space_width_back (a ∷ []) = if is_space1 a then 1 else 0
space_width_back (a ∷ b ∷ []) = if is_space1 a then 1 else if is_space2 b a then 2 else 0
space_width_back (a ∷ b ∷ c ∷ s) =
    if is_space1 a then 1 else if is_space2 b a then 2 else if is_space3 c b a then 3 else 0

-- Each round takes a byte at least, so as many rounds as bytes suffice.
unfoldable pub strip : (Str → ℕ) → ℕ → Str → Str
strip width zero s = s
strip width (suc rounds) s =
    let rest = strip width rounds (drop (width s) s) in if width s == 0 then s else rest

-- strings.TrimSpace
unfoldable pub trim_space : Str → Str
unfolding strip space_width space_width_back
trim_space s =
    let t = strip space_width (length s) s in
    reverse (strip space_width_back (length t) (reverse t))

-- The lower-case byte of an ASCII letter.
unfoldable pub lower_byte : ℕ → ℕ
lower_byte c = if leb b'A' c && leb c b'Z' then c + 32 else c

-- A byte that is visible in ASCII: no space, no control character, nothing beyond ASCII.
abbrev pub IsVisible : ℕ → Type 0
IsVisible c = (33 ≤ c) × (c ≤ 126)

space_width-visible : (a : ℕ) (s : Str) → IsVisible a → space_width (a ∷ s) ≡ 0
unfolding space_width
space_width-visible a [] h = ground arith
space_width-visible a (b ∷ []) h = ground arith
space_width-visible a (b ∷ c ∷ s) h = ground arith

-- fmt's %d of a number that is not negative. The number bounds the rounds.
unfoldable pub decimal_from : ℕ → ℕ → Str
decimal_from zero n = []
decimal_from (suc rounds) n =
    let rest = decimal_from rounds (n / 10) ++ ((48 + n % 10) ∷ []) in
    if ltb n 10 then (48 + n) ∷ [] else rest

unfoldable pub decimal : ℕ → Str
unfolding decimal_from
decimal n = decimal_from (suc n) n

-- fmt's %d
unfoldable pub decimal_ℤ : ℤ → Str
unfolding decimal
decimal_ℤ (pos n) = decimal n
decimal_ℤ (negsuc n) = 45 ∷ decimal (suc n)

strip_id : (width : Str → ℕ) (n : ℕ) (s : Str) → width s ≡ 0 → strip width n s ≡ s
unfolding strip
strip_id width zero s h = refl
strip_id width (suc n) s h = rw h

-- A string that neither begins nor ends with white space is not trimmed.
pub trim_space_id :
    (s : Str) → space_width s ≡ 0 → space_width_back (reverse s) ≡ 0 → trim_space s ≡ s
unfolding trim_space
trim_space_id s h k =
    rw (strip_id space_width (length s) s h, strip_id space_width_back (length s) (reverse s) k)
      (reverse-reverse s)

space_width_back-visible : (a : ℕ) (s : Str) → IsVisible a → space_width_back (a ∷ s) ≡ 0
unfolding space_width_back
space_width_back-visible a [] h = ground arith
space_width_back-visible a (b ∷ []) h = ground arith
space_width_back-visible a (b ∷ c ∷ s) h = ground arith

ends_visible : (s rest : Str) → All IsVisible s → s ≢ [] → space_width_back (s ++ rest) ≡ 0
ends_visible [] rest h ne = absurd (ne refl)
ends_visible (a ∷ s) rest h ne = space_width_back-visible a (s ++ rest) h.0

-- Behind a visible byte, visible bytes up to the end: nothing is trimmed, whatever stands between.
pub trim_space-visible :
    (a : ℕ) (s t : Str)
    → IsVisible a
    → All IsVisible t
    → t ≢ []
    → trim_space ((a ∷ s) ++ t) ≡ (a ∷ s) ++ t
trim_space-visible a s t ha ht ne =
    trim_space_id ((a ∷ s) ++ t) (space_width-visible a (s ++ t) ha) (
      rw (reverse-append (a ∷ s) t) (
        ends_visible (reverse t) (reverse (a ∷ s)) (All-reverse IsVisible t ht)
          (λ e. ne (sym (reverse-reverse t) ∙ ap reverse e))))

pub trim_space-All_visible : (s : Str) → All IsVisible s → trim_space s ≡ s
trim_space-All_visible [] h =
    trim_space_id [] (unfold space_width in refl) (unfold space_width_back in refl)
trim_space-All_visible (a ∷ s) h = trim_space_id (a ∷ s) (space_width-visible a s h.0) (
    rw (← append-nil (reverse (a ∷ s))) (
      ends_visible (reverse (a ∷ s)) [] (All-reverse IsVisible (a ∷ s) h)
        (λ e. absurd (cc (sym (reverse-reverse (a ∷ s)) ∙ ap reverse e)))))
