-- ===== src/Tests/Urls.antt =====
-- A parser of URLs for the tests, of those that the program writes.
use tableaux_eink_go.Base.{ℕ, ◌≡◌, ◌≢◌, refl, false, [], ◌∷◌, ◌++◌, arith, All, drop, ◌==◌}
use tableaux_eink_go.Base.Text.{Str, str}
use tableaux_eink_go.Base.Text.Decimal.{IsDigit}
use tableaux_eink_go.Base.Errors.{GoError, Result, ok}
use tableaux_eink_go.Base.Url.{Url, is_unreserved, cut}
use tableaux_eink_go.Base.Url.Settings.{Lacks, cut-append}
use tableaux_eink_go.Base.Url.Authority.{IsLower, IsUnreserved, IsQueryByte, IsUrlParser, url_text}

abbrev pub cut_url : Str → Result GoError Url
cut_url s =
    let (scheme, rest) = cut b':' s in
    let (host, behind) = cut b':' (drop 2 rest) in
    let (port, query) = cut b'?' behind in
    ok (record { scheme = scheme; hostname = host; port = port; raw_query = query })

lower-Lacks : (s : Str) → All IsLower s → Lacks b':' s
lower-Lacks [] h = tt
lower-Lacks (c ∷ s) h = (ground (arith, h.0), lower-Lacks s h.1)

unreserved-colon : (c : ℕ) → IsUnreserved c → (c == b':') ≡ false
unfolding is_unreserved
unreserved-colon c h = ground arith

unreserved-Lacks : (s : Str) → All IsUnreserved s → Lacks b':' s
unreserved-Lacks [] h = tt
unreserved-Lacks (c ∷ s) h = (unreserved-colon c h.0, unreserved-Lacks s h.1)

digits-Lacks : (s : Str) → All IsDigit s → Lacks b'?' s
digits-Lacks [] h = tt
digits-Lacks (c ∷ s) h = (ground (arith, h.0), digits-Lacks s h.1)

cut_url-url_text :
    (scheme host port query : Str)
    → scheme ≢ []
    → All IsLower scheme
    → host ≢ []
    → All IsUnreserved host
    → All IsDigit port
    → All IsQueryByte query
    → cut_url (url_text scheme host port query)
      ≡ ok (record { scheme = scheme; hostname = host; port = port; raw_query = query })
unfolding str
cut_url-url_text scheme host port query sne low hne plain digits q =
    rw
      (
        cut-append b':' scheme (str "//" ++ (host ++ (str ":" ++ (port ++ (str "?" ++ query)))))
            (lower-Lacks scheme low),
        cut-append b':' host (port ++ (str "?" ++ query)) (unreserved-Lacks host plain),
        cut-append b'?' port query (digits-Lacks port digits),
      )
      refl

pub cut_url-IsUrlParser : IsUrlParser cut_url
cut_url-IsUrlParser = record { parse-url_text = cut_url-url_text }
