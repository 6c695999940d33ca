-- ===== src/Base/Url/Authority.antt =====
-- What the program relies on of url.Parse: it takes a URL of a scheme, a host, a port and a query
-- apart, `scheme://host:port?query`, if none of the parts has a byte that ends it.
use Prim.Native.Nat.{ℕ, ◌≤◌}
use mathlib.Core.Path.{◌≡◌}
use mathlib.Core.Logic.{◌≢◌, ◌⊎◌}
use mathlib.Core.Bool.{true}
use mathlib.Core.List.{[], ◌++◌}
use tableaux_eink_go.Base.Lists.{All}
use tableaux_eink_go.Base.Text.{Str, str}
use tableaux_eink_go.Base.Text.Decimal.{IsDigit}
use tableaux_eink_go.Base.Errors.{GoError, Result, ok}
use tableaux_eink_go.Base.Url.{Url, is_unreserved}
use tableaux_eink_go.Base.Url.Query.{IsEscaped}

abbrev pub IsLower : ℕ → Type 0
IsLower c = (b'a' ≤ c) × (c ≤ b'z')

abbrev pub IsUnreserved : ℕ → Type 0
IsUnreserved c = is_unreserved c ≡ true

-- A byte of an encoded query.
abbrev pub IsQueryByte : ℕ → Type 0
IsQueryByte c = IsEscaped c ⊎ ((c ≡ b'&') ⊎ (c ≡ b'='))

abbrev pub url_text : Str → Str → Str → Str → Str
url_text scheme host port query =
    scheme ++ (str "://" ++ (host ++ (str ":" ++ (port ++ (str "?" ++ query)))))

pub record IsUrlParser (parse : Str → Result GoError Url) : Type 0 where
  pub parse-url_text :
      (scheme host port query : Str)
      → scheme ≢ []
      → All IsLower scheme
      → host ≢ []
      → All IsUnreserved host
      → All IsDigit port
      → All IsQueryByte query
      → parse (url_text scheme host port query)
        ≡ ok (record { scheme = scheme; hostname = host; port = port; raw_query = query })
