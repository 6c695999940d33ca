-- ===== src/Base/Url.antt =====
-- What the program uses of package net/url: the escaping of a query, and the fields of a URL.
pub mod Query
pub mod Settings
pub mod Authority
use Prim.Native.Nat.{ℕ, ◌+◌, ◌-◌, ◌*◌, ◌/◌, ◌%◌}
use mathlib.Core.Bool.{Bool, true, false, ◌&&◌, ◌||◌}
use mathlib.Core.Option.{Option, none, some}
use mathlib.Core.List.{List, [], ◌∷◌, ◌++◌}
use tableaux_eink_go.Base.Tests.{ltb, leb, ◌==◌, if◌then◌else◌}
use tableaux_eink_go.Base.Text.{Str, str_eq, is_empty}
use tableaux_eink_go.Base.Strconv.{hex_value}

-- The fields of a URL that the program reads; Hostname and Port are methods.
pub record Url : Type 0 where
  pub scheme : Str
  pub hostname : Str
  pub port : Str
  pub raw_query : Str

-- Whether QueryEscape leaves a byte alone: a letter, a digit, or one of `-`, `_`, `.` and `~`.
unfoldable pub is_unreserved : ℕ → Bool
is_unreserved c =
    (leb b'a' c && leb c b'z')
    || ((leb b'A' c && leb c b'Z')
        || ((leb b'0' c && leb c b'9') || (c == b'-' || (c == b'_' || (c == b'.' || c == b'~')))))

abbrev pub upper_hex : ℕ → ℕ
upper_hex d = if ltb d 10 then b'0' + d else b'A' + (d - 10)

abbrev pub escaped : ℕ → Str
escaped c =
    if is_unreserved c
    then c ∷ []
    else if c == b' '
    then b'+' ∷ []
    else b'%' ∷ upper_hex (c / 16) ∷ upper_hex (c % 16) ∷ []

-- QueryEscape
unfoldable pub query_escape : Str → Str
query_escape [] = []
query_escape (c ∷ s) = escaped c ++ query_escape s

abbrev pub cons? : ℕ → Option Str → Option Str
cons? c none = none
cons? c (some s) = some (c ∷ s)

abbrev pub plain_byte : ℕ → ℕ
plain_byte c = if c == b'+' then b' ' else c

-- The byte that two hexadecimal digits spell, in front of what follows.
abbrev pub spelled : Option ℕ → Option ℕ → Option Str → Option Str
spelled none l rest = none
spelled (some h) none rest = none
spelled (some h) (some l) rest = cons? (h * 16 + l) rest

-- QueryUnescape; `none` is an EscapeError.
unfoldable pub query_unescape : Str → Option Str
query_unescape [] = some []
query_unescape (c ∷ []) = if c == b'%' then none else some (plain_byte c ∷ [])
query_unescape (c ∷ a ∷ []) =
    let copied = cons? (plain_byte c) (query_unescape (a ∷ [])) in
    if c == b'%' then none else copied
query_unescape (c ∷ a ∷ b ∷ s) =
    let hidden = spelled (hex_value a) (hex_value b) (query_unescape s) in
    let copied = cons? (plain_byte c) (query_unescape (a ∷ b ∷ s)) in
    if c == b'%' then hidden else copied

-- Values.Encode of pairs that are in the order of their keys, each with one value.
unfoldable pub encode : List (Str × Str) → Str
encode [] = []
encode ((k, v) ∷ []) = query_escape k ++ (b'=' ∷ query_escape v)
encode ((k, v) ∷ p ∷ ps) = query_escape k ++ (b'=' ∷ (query_escape v ++ (b'&' ∷ encode (p ∷ ps))))

-- strings.Cut at a byte, without whether it was found.
unfoldable pub cut : ℕ → Str → Str × Str
cut sep [] = ([], [])
cut sep (c ∷ s) = let (a, b) = cut sep s in if c == sep then ([], s) else (c ∷ a, b)

abbrev pub onto_first : ℕ → List Str → List Str
onto_first c [] = (c ∷ []) ∷ []
onto_first c (t ∷ ts) = (c ∷ t) ∷ ts

-- What the loop of parseQuery takes off, one after the other.
unfoldable pub split : ℕ → Str → List Str
split sep [] = [] ∷ []
split sep (c ∷ s) = let rest = split sep s in if c == sep then [] ∷ rest else onto_first c rest

unfoldable pub contains : ℕ → Str → Bool
contains a [] = false
contains a (c ∷ s) = c == a || contains a s

abbrev pub decoded : Option Str → Option Str → Option (Str × Str)
decoded none v = none
decoded (some k) none = none
decoded (some k) (some v) = some (k, v)

-- A setting of a query, if it is one: parts with a semicolon, empty parts and parts that cannot be
-- unescaped are left out.
unfoldable pub setting : Str → Option (Str × Str)
setting part =
    let kv = cut b'=' part in
    if contains b';' part || is_empty part
    then none
    else decoded (query_unescape kv.0) (query_unescape kv.1)

abbrev pub chosen : Str → Option (Str × Str) → Str → Str
chosen key none rest = rest
chosen key (some (k, v)) rest = if str_eq k key then v else rest

-- URL.Query().Get of a key: the first value, or the empty string.
unfoldable pub first_value : Str → List Str → Str
first_value key [] = []
first_value key (part ∷ parts) = chosen key (setting part) (first_value key parts)

unfoldable pub query_get : Str → Str → Str
query_get query key = first_value key (split b'&' query)
