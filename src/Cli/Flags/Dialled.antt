-- ===== src/Cli/Flags/Dialled.antt =====
-- The connection that a command dials passes the interceptor of its server.
use tableaux_eink_go.Base.{◌≡◌, none, some, List, [], ◌∷◌, ◌++◌, arith, All, inl, inr}
use tableaux_eink_go.Base.Text.{Str, str, decimal_ℤ, IsVisible}
use tableaux_eink_go.Base.Errors.{ok, Result-cases}
use tableaux_eink_go.Einkgrpc.TokenAuth.{Tokens, check, prefix}
use tableaux_eink_go.Einkgrpc.TokenAuth.Bearer.{IsToken, bearer_passes}
use tableaux_eink_go.Cli.Flags.{CommonFlags, Network, dial, credentials}

module _ (N : Network) where
  pub dialled_header :
      (c : CommonFlags) (conn : N.Conn) (auths : List Str)
      → dial N c ≡ ok (conn, auths)
      → auths ≡ (prefix ++ c.token) ∷ []
  unfolding dial
  dialled_header c conn auths h =
      let target = c.host ++ (str ":" ++ decimal_ℤ c.port) in
      elim (Result-cases (credentials N c)) [
        | inr (e, q) ↦ absurd (ground (arith, h))
        | inl (creds, q) ↦ elim (Result-cases (N.new_client target creds)) [
          | inr (e, q1) ↦ absurd (ground (arith, h))
          | inl (made, q1) ↦ ground (arith, h)
        ]
      ]

  -- A connection that dial gives sends, with every call, a header that the server lets through, if
  -- the token of the flags is one of the server's, and visible ASCII.
  pub dial_passes :
      (c : CommonFlags) (t : Tokens) (conn : N.Conn) (auths : List Str)
      → All IsVisible c.token
      → IsToken t c.token
      → dial N c ≡ ok (conn, auths)
      → check t (some auths) ≡ none
  dial_passes c t conn auths visible valid h =
      rw (dialled_header c conn auths h) (bearer_passes t c.token [] visible valid)
