-- ===== src/Einkgrpc/TokenAuth/Bearer.antt =====
-- Which calls the interceptors let through.
use tableaux_eink_go.Base.{
  ◌≡◌, refl, ◌≢◌, ◌↔◌, ◌⊎◌, inl, inr, true, none, some, List, [], ◌∷◌, ◌++◌, arith, Bool-cases,
  ◌||◌, length, drop, drop-append_left, All, ap, ◌∙◌,
}
use tableaux_eink_go.Base.Text.{
  Str, str, str_eq_iff, str_eq_self, has_prefix, has_prefix-append, has_prefix_sound, trim_space,
  IsVisible, trim_space-visible, trim_space-All_visible,
}
use tableaux_eink_go.Base.Errors.{Result, err, RpcError, status, unauthenticated}
use tableaux_eink_go.Einkgrpc.TokenAuth.{Tokens, Metadata, prefix, equals, check, intercept}

-- The token is one of the two of the server, and not empty.
abbrev pub IsToken : Tokens → Str → Type 0
IsToken t tok = (tok ≢ []) × ((tok ≡ t.token) ⊎ (tok ≡ t.admin_token))

equals_iff : (a b : Str) → (equals a b ≡ true) ↔ ((a ≢ []) × (a ≡ b))
unfolding equals
equals_iff [] b = (λ h. absurd (cc), λ h. absurd (h.0 refl))
equals_iff (x ∷ a) [] = (λ h. absurd (cc), λ h. absurd (cc (h.1)))
equals_iff (x ∷ a) (y ∷ b) = (
  λ h. (λ e. cc, ground (arith, str_eq_iff (x ∷ a) (y ∷ b))),
  λ h. rw (h.1) (ground (arith, str_eq_self (y ∷ b))),
)

-- What the header presents as its token.
abbrev pub presented : Str → Str
presented auth = trim_space (drop (length prefix) (trim_space auth))

passes :
    (t : Tokens) (md : Metadata)
    → check t md ≡ none
    → (auth : Str) × (auths : List Str) × (md ≡ some (auth ∷ auths))
      × (trim_space auth ≡ prefix ++ drop (length prefix) (trim_space auth))
      × IsToken t (presented auth)
unfolding check
passes t none h = absurd (cc)
passes t (some []) h = absurd (cc)
passes t (some (auth ∷ auths)) h =
    let starts : has_prefix (trim_space auth) prefix ≡ true = ground arith in
    elim (Bool-cases (equals (presented auth) t.token)) [
      | inl q ↦
          let (ne, same) = (equals_iff (presented auth) t.token).0 q in
          (auth, auths, refl, has_prefix_sound (trim_space auth) prefix starts, (ne, inl same))
      | inr q ↦
          let (ne, same) = (equals_iff (presented auth) t.admin_token).0 (ground arith) in
          (auth, auths, refl, has_prefix_sound (trim_space auth) prefix starts, (ne, inr same))
    ]

let_through :
    (t : Tokens) (auth : Str) (auths : List Str)
    → has_prefix (trim_space auth) prefix ≡ true
    → IsToken t (presented auth)
    → check t (some (auth ∷ auths)) ≡ none
unfolding check
let_through t auth auths starts (ne, inl same) =
    ground (arith, (equals_iff (presented auth) t.token).1 (ne, same))
let_through t auth auths starts (ne, inr same) =
    ground (arith, (equals_iff (presented auth) t.admin_token).1 (ne, same))

-- A call passes exactly when it has metadata with an `authorization` header whose first value,
-- trimmed, begins with `Bearer ` and goes on, trimmed, with the token or the admin token of the
-- server; an empty token never passes.
pub check_iff :
    (t : Tokens) (md : Metadata)
    → (check t md ≡ none) ↔ (
        (auth : Str) × (auths : List Str) × (md ≡ some (auth ∷ auths))
        × (trim_space auth ≡ prefix ++ drop (length prefix) (trim_space auth))
        × IsToken t (presented auth))
check_iff t md = (
  passes t md,
  λ (auth, auths, given, starts, valid). rw given (
      let_through t auth auths
        (rw starts (has_prefix-append prefix (drop (length prefix) (trim_space auth)))) valid),
)

refusal :
    (t : Tokens) (md : Metadata)
    → (check t md ≡ none) ⊎ ((text : Str) × (check t md ≡ some (status unauthenticated text)))
unfolding check
refusal t none = inr (str "missing metadata", refl)
refusal t (some []) = inr (str "missing authorization header", refl)
refusal t (some (auth ∷ auths)) = elim (Bool-cases (has_prefix (trim_space auth) prefix)) [
  | inr q ↦ inr (str "authorization is not Bearer", ground arith)
  | inl q ↦
      elim (Bool-cases (equals (presented auth) t.token || equals (presented auth) t.admin_token)) [
        | inl z ↦ inl (ground arith)
        | inr z ↦ inr (str "invalid token", ground arith)
      ]
]

-- A call that does not pass is answered with the code Unauthenticated, and its handler does not
-- run: the state of the server is what it was. A call that passes is what its handler does.
pub intercept_guards :
    (S : Type 0) (A : Type 0) (t : Tokens) (md : Metadata) (handler : S → Result RpcError A × S)
    (s : S)
    → ((check t md ≡ none) × (intercept t md handler s ≡ handler s))
      ⊎ ((text : Str) × (check t md ≡ some (status unauthenticated text))
          × (intercept t md handler s ≡ (err (status unauthenticated text), s)))
unfolding intercept
intercept_guards S A t md handler s = elim (refusal t md) [
  | inl q ↦ inl (q, rw (q, intercept))
  | inr (text, q) ↦ inr (text, q, rw (q, intercept))
]

bearer_trimmed :
    (tok : Str) → All IsVisible tok → tok ≢ [] → trim_space (prefix ++ tok) ≡ prefix ++ tok
unfolding str
bearer_trimmed tok visible ne = trim_space-visible b'B' (str "earer ") tok (omega arith) visible ne

-- The header that a client sends with a token of the server passes, if the token has no other
-- bytes than visible ASCII.
pub bearer_passes :
    (t : Tokens) (tok : Str) (auths : List Str)
    → All IsVisible tok
    → IsToken t tok
    → check t (some ((prefix ++ tok) ∷ auths)) ≡ none
bearer_passes t tok auths visible valid =
    let trimmed = bearer_trimmed tok visible valid.0 in
    let same : presented (prefix ++ tok) ≡ tok =
      ap (λ s. trim_space (drop (length prefix) s)) trimmed
      ∙ (ap trim_space (drop-append_left prefix tok) ∙ trim_space-All_visible tok visible) in
    let_through t (prefix ++ tok) auths (rw trimmed (has_prefix-append prefix tok)) (rw same valid)
