-- ===== src/Base/Url/Settings.antt =====
-- The settings of an encoded query are found again under their keys.
use mathlib.Core.Path.{◌≡◌, refl, sym, ap, ◌∙◌}
use mathlib.Core.Bool.{false}
use mathlib.Core.Option.{some}
use mathlib.Core.List.{List, [], ◌∷◌, ◌++◌, append_assoc}
use mathlib.Core.Logic.{inl, inr}
use native.Mathlib.Omega.{arith}
use Prim.Native.Nat.{ℕ}
use tableaux_eink_go.Base.Tests.{◌==◌, if◌then◌else◌}
use tableaux_eink_go.Base.Lists.{All, All-append}
use tableaux_eink_go.Base.Text.{Str, str_eq, is_empty}
use tableaux_eink_go.Base.Url.{
  query_escape, encode, cut, split, contains, setting, chosen, first_value, query_get,
}
use tableaux_eink_go.Base.Url.Query.{
  IsByte, IsEscaped, query_escape-IsEscaped, query_unescape-query_escape,
}
use tableaux_eink_go.Base.Url.Authority.{IsQueryByte}

-- Cutting at a byte that the first text does not have.
abbrev pub Lacks : ℕ → Str → Type 0
Lacks sep s = All (λ c. (c == sep) ≡ false) s

pub cut-append : (sep : ℕ) (s t : Str) → Lacks sep s → cut sep (s ++ sep ∷ t) ≡ (s, t)
unfolding cut
cut-append sep [] t h = ground arith
cut-append sep (c ∷ s) t h = ground (arith, cut-append sep s t h.1)

split-append : (sep : ℕ) (s t : Str) → Lacks sep s → split sep (s ++ sep ∷ t) ≡ s ∷ split sep t
unfolding split
split-append sep [] t h = ground arith
split-append sep (c ∷ s) t h = ground (arith, split-append sep s t h.1)

split-Lacks : (sep : ℕ) (s : Str) → Lacks sep s → split sep s ≡ s ∷ []
unfolding split
split-Lacks sep [] h = refl
split-Lacks sep (c ∷ s) h = ground (arith, split-Lacks sep s h.1)

contains-Lacks : (a : ℕ) (s : Str) → Lacks a s → contains a s ≡ false
unfolding contains
contains-Lacks a [] h = refl
contains-Lacks a (c ∷ s) h = ground (arith, contains-Lacks a s h.1)

escaped-Lacks-amp : (s : Str) → All IsEscaped s → Lacks b'&' s
escaped-Lacks-amp [] h = tt
escaped-Lacks-amp (c ∷ s) h = (ground (arith, h.0), escaped-Lacks-amp s h.1)

escaped-Lacks-equals : (s : Str) → All IsEscaped s → Lacks b'=' s
escaped-Lacks-equals [] h = tt
escaped-Lacks-equals (c ∷ s) h = (ground (arith, h.0), escaped-Lacks-equals s h.1)

escaped-Lacks-semicolon : (s : Str) → All IsEscaped s → Lacks b';' s
escaped-Lacks-semicolon [] h = tt
escaped-Lacks-semicolon (c ∷ s) h = (ground (arith, h.0), escaped-Lacks-semicolon s h.1)

abbrev pair_text : Str → Str → Str
pair_text k v = query_escape k ++ (b'=' ∷ query_escape v)

pair_text-Lacks :
    (sep : ℕ) (k v : Str)
    → (b'=' == sep) ≡ false
    → Lacks sep (query_escape k)
    → Lacks sep (query_escape v)
    → Lacks sep (pair_text k v)
pair_text-Lacks sep k v h front back =
    All-append (λ c. (c == sep) ≡ false) (query_escape k) (b'=' ∷ query_escape v) front (h, back)

is_empty-middle : (s t : Str) (c : ℕ) → is_empty (s ++ c ∷ t) ≡ false
is_empty-middle [] t c = refl
is_empty-middle (a ∷ s) t c = refl

setting-pair : (k v : Str) → All IsByte k → All IsByte v → setting (pair_text k v) ≡ some (k, v)
unfolding setting
setting-pair k v hk hv =
    let ek = query_escape-IsEscaped k hk in
    let ev = query_escape-IsEscaped v hv in
    let plain = contains-Lacks b';' (pair_text k v) (
      pair_text-Lacks b';' k v refl (escaped-Lacks-semicolon (query_escape k) ek)
        (escaped-Lacks-semicolon (query_escape v) ev)) in
    let halves =
      cut-append b'=' (query_escape k) (query_escape v)
        (escaped-Lacks-equals (query_escape k) ek) in
    rw
      (
        plain,
        is_empty-middle (query_escape k) (query_escape v) b'=',
        halves,
        query_unescape-query_escape k hk,
        query_unescape-query_escape v hv,
      )
      refl

-- The value of the first pair with the key.
unfoldable pub value_of : Str → List (Str × Str) → Str
value_of key [] = []
value_of key ((k, v) ∷ ps) = if str_eq k key then v else value_of key ps

abbrev pub IsPairOfBytes : Str × Str → Type 0
IsPairOfBytes (k, v) = All IsByte k × All IsByte v

pair_text-Lacks-amp : (k v : Str) → All IsByte k → All IsByte v → Lacks b'&' (pair_text k v)
pair_text-Lacks-amp k v hk hv =
    pair_text-Lacks b'&' k v refl (escaped-Lacks-amp (query_escape k) (query_escape-IsEscaped k hk))
      (escaped-Lacks-amp (query_escape v) (query_escape-IsEscaped v hv))

query_get-nothing : (key : Str) → query_get (encode []) key ≡ []
unfolding query_get first_value encode split setting contains
query_get-nothing key = refl

escaped-QueryBytes : (s : Str) → All IsEscaped s → All IsQueryByte s
escaped-QueryBytes [] h = tt
escaped-QueryBytes (c ∷ s) h = (inl h.0, escaped-QueryBytes s h.1)

pair_text-QueryBytes : (k v : Str) → All IsByte k → All IsByte v → All IsQueryByte (pair_text k v)
pair_text-QueryBytes k v hk hv =
    let part = λ (s : Str) (h : All IsByte s).
      escaped-QueryBytes (query_escape s) (query_escape-IsEscaped s h) in
    All-append IsQueryByte (query_escape k) (b'=' ∷ query_escape v) (part k hk)
      (inr (inr refl), part v hv)

-- In an encoded query Get finds what was set.
pub query_get-encode :
    (key : Str) (ps : List (Str × Str))
    → All IsPairOfBytes ps
    → query_get (encode ps) key ≡ value_of key ps
unfolding query_get first_value encode value_of
query_get-encode key [] h = query_get-nothing key
query_get-encode key ((k, v) ∷ []) ((hk, hv), h) =
    rw (split-Lacks b'&' (pair_text k v) (pair_text-Lacks-amp k v hk hv))
      (ap (λ o. chosen key o []) (setting-pair k v hk hv))
query_get-encode key ((k, v) ∷ p ∷ ps) ((hk, hv), h) =
    let rest = encode (p ∷ ps) in
    ap (first_value key) (
      ap (split b'&') (sym (append_assoc (query_escape k) (b'=' ∷ query_escape v) (b'&' ∷ rest)))
      ∙ split-append b'&' (pair_text k v) rest (pair_text-Lacks-amp k v hk hv))
    ∙ ap (λ o. chosen key o (query_get rest key)) (setting-pair k v hk hv)
    ∙ ap (chosen key (some (k, v))) (query_get-encode key (p ∷ ps) h)

-- The bytes of an encoded query.
pub encode-QueryBytes : (ps : List (Str × Str)) → All IsPairOfBytes ps → All IsQueryByte (encode ps)
unfolding encode
encode-QueryBytes [] h = tt
encode-QueryBytes ((k, v) ∷ []) ((hk, hv), h) = pair_text-QueryBytes k v hk hv
encode-QueryBytes ((k, v) ∷ p ∷ ps) ((hk, hv), h) =
    rw (← append_assoc (query_escape k) (b'=' ∷ query_escape v) (b'&' ∷ encode (p ∷ ps))) (
      All-append IsQueryByte (pair_text k v) (b'&' ∷ encode (p ∷ ps))
        (pair_text-QueryBytes k v hk hv) (inr (inl refl), encode-QueryBytes (p ∷ ps) h))
