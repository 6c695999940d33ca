-- ===== src/Einkgrpc/Server/Lifecycle.antt =====
-- The states that a server goes through, and the sockets that it binds.
use tableaux_eink_go.Base.{
  ℕ, ◌≡◌, refl, subst, ap, ◌∙◌, sym, ◌⊎◌, inl, inr, Bool, true, false, Option, none, some, arith,
  if◌then◌else◌, ◌==◌, Bool-cases, Option-cases, ◌&&◌, not,
}
use tableaux_eink_go.Base.Int.{ℤ}
use tableaux_eink_go.Base.Text.{Str, str, is_empty}
use tableaux_eink_go.Base.Errors.{GoError, Result-cases}
use tableaux_eink_go.Einkgrpc.Net.{Net, IsNet}
use tableaux_eink_go.Einkgrpc.Mdns.{
  Registrar, hostname_instance, txt_records, register, unregister, new_registrar,
}
use tableaux_eink_go.Einkgrpc.Server.{
  Server, PanelInfo, is_color, advertise_server, listen_and_serve, start, stop,
}

module _ (N : Net) (L : IsNet N) where
  pub bound-register :
      (port : ℤ) (color : Bool) (fp v : Str) (z : Registrar N) (w : N.State) (b : ℕ)
      → L.bound b (register N port color fp v z w).2 ≡ L.bound b w
  unfolding register
  bound-register port color fp v z w b =
      let host = if is_empty (N.hostname w) then str "device" else N.hostname w in
      let kept = L.bound-advertise (hostname_instance host) port (txt_records color fp v) w b in
      elim (Result-cases (N.advertise (hostname_instance host) port (txt_records color fp v) w).0) [
        | inl (a, q) ↦ ground (arith, kept)
        | inr (e, q) ↦ ground (arith, kept)
      ]

  pub bound-unregister :
      (z : Registrar N) (w : N.State) (b : ℕ) → L.bound b (unregister N z w).1 ≡ L.bound b w
  unfolding unregister
  bound-unregister z w b = elim (Option-cases z.server) [
    | inl q ↦ ground arith
    | inr (a, q) ↦ ground (arith, L.bound-withdraw a w b)
  ]

  -- The sockets of the host are those at first, and the one that the server serves, which was free
  -- at first; a server serves one exactly when it runs.
  abbrev pub Owns : (ℕ → Bool) → Server N → N.State → Type 0
  Owns first s w =
      ((s.running ≡ false) × (s.srv ≡ none) × ((b : ℕ) → L.bound b w ≡ first b))
      ⊎ ((s.running ≡ true)
          × (c : N.Conn) × (s.srv ≡ some c)
          × (first (L.socket c) ≡ false)
          × ((b : ℕ) → L.bound b w ≡ (if b == L.socket c then true else first b)))

  pub moved :
      (first : ℕ → Bool) (s s' : Server N) (w w' : N.State)
      → s'.running ≡ s.running
      → s'.srv ≡ s.srv
      → ((b : ℕ) → L.bound b w' ≡ L.bound b w)
      → Owns first s w
      → Owns first s' w'
  moved first s s' w w' r v same (inl (off, unserved, o)) =
      inl (r ∙ off, v ∙ unserved, λ b. same b ∙ o b)
  moved first s s' w w' r v same (inr (on, c, serves, free, o)) =
      inr (r ∙ on, c, v ∙ serves, free, λ b. same b ∙ o b)

  moved_to :
      (first : ℕ → Bool) (s : Server N) (w : N.State) (s' : Server N) (w' : N.State)
      → s' ≡ s
      → w' ≡ w
      → Owns first s w
      → Owns first s' w'
  moved_to first s w s' w' p q o =
      moved first s s' w w' (ap (λ (x : Server N). x.running) p) (ap (λ (x : Server N). x.srv) p)
        (λ b. ap (L.bound b) q) o

  abbrev Outcome : Type 0
  Outcome = Option GoError × Server N × N.State

  abbrev OwnsAfter : (ℕ → Bool) → Outcome → Type 0
  OwnsAfter first r = Owns first r.1 r.2

  -- The server that serves a connection on a port.
  abbrev serving : Server N → N.Conn → ℤ → Server N
  serving s c port = record s { port = port; srv = some c; running = true }

  module _ (panel : PanelInfo N) (fingerprint : Str → Str) where
    abbrev registered : Server N → N.State → Option GoError × Registrar N × N.State
    registered s w =
        register N s.port (is_color N panel) (fingerprint s.cm.server_cer) s.cfg.server_version
          (new_registrar N) w

    advertise-Owns :
        (first : ℕ → Bool) (s : Server N) (w : N.State)
        → Owns first s w
        → OwnsAfter first (advertise_server N panel fingerprint s w)
    unfolding advertise_server
    advertise-Owns first s w o =
        let z = new_registrar N in
        let same =
          bound-register s.port (is_color N panel) (fingerprint s.cm.server_cer)
            s.cfg.server_version z w in
        elim (Bool-cases s.cfg.enable_mdns) [
          | inl q ↦ rw q (
              moved first s (record s { mdns = some (registered s w).1 }) w (registered s w).2 refl
                refl same o)
          | inr q ↦ rw q o
        ]

    listen-Owns :
        (first : ℕ → Bool) (s : Server N) (w : N.State)
        → s.running ≡ false
        → s.srv ≡ none
        → ((b : ℕ) → L.bound b w ≡ first b)
        → OwnsAfter first (listen_and_serve N panel fingerprint s w)
    unfolding listen_and_serve
    listen-Owns first s w off unserved same = elim (Result-cases (N.listen s.cfg.port w).0) [
      | inr (e, q) ↦
          let w' = (N.listen s.cfg.port w).1 in
          let kept : (listen_and_serve N panel fingerprint s w).1 ≡ s = ground arith in
          let after : (listen_and_serve N panel fingerprint s w).2 ≡ w' = ground arith in
          moved_to first s w' _ _ kept after
            (inl (off, unserved, λ b. L.bound-listen_failed s.cfg.port w e b q ∙ same b))
      | inl ((c, t), q) ↦
          let w' = (N.listen s.cfg.port w).1 in
          let s' = serving s c (elim t as (λ _. ℤ) [ none ↦ s.port | some p ↦ p ]) in
          let goes_on : listen_and_serve N panel fingerprint s w
              ≡ advertise_server N panel fingerprint s' w' =
            ground arith in
          let free = sym (same (L.socket c)) ∙ L.listen_fresh s.cfg.port w c t q in
          let taken = λ (b : ℕ).
            L.bound-listen s.cfg.port w c t b q
            ∙ ap (λ x. if b == L.socket c then true else x) (same b) in
          subst (OwnsAfter first) (sym goes_on)
            (advertise-Owns first s' w' (inr (refl, c, refl, free, taken)))
    ]

    pub start_either :
        (s : Server N) (w : N.State)
        → ((s.running ≡ false)
            × (start N panel fingerprint s w ≡ listen_and_serve N panel fingerprint s w))
          ⊎ (((start N panel fingerprint s w).1 ≡ s) × ((start N panel fingerprint s w).2 ≡ w))
    unfolding start
    start_either s w = elim (Bool-cases s.running) [
      | inl on ↦ inr (ground (arith, on), ground (arith, on))
      | inr off ↦ elim (Option-cases (N.key_pair_error s.cm.server_cer s.cm.server_key)) [
        | inr (e, q) ↦ inr (ground (arith, q), ground (arith, q))
        | inl q ↦ elim (Bool-cases (s.cfg.enable_mtls && not (N.has_certificate s.cm.client_cer))) [
          | inl z ↦ inr (ground (arith, q), ground (arith, q))
          | inr z ↦ inl (off, ground (arith, q))
        ]
      ]
    ]

    -- Start keeps it, whatever it returns.
    pub start-Owns :
        (first : ℕ → Bool) (s : Server N) (w : N.State)
        → Owns first s w
        → OwnsAfter first (start N panel fingerprint s w)
    start-Owns first s w o = elim (start_either s w) [
      | inr (p, q) ↦ moved_to first s w _ _ p q o
      | inl (off, goes_on) ↦ elim o [
        | inr (on, c, serves, free, same) ↦ absurd (cc)
        | inl (_, unserved, same) ↦
            subst (OwnsAfter first) (sym goes_on) (listen-Owns first s w off unserved same)
      ]
    ]

  -- Stop ends with the sockets that there were at first.
  pub stop_ends :
      (first : ℕ → Bool) (s : Server N) (w : N.State) (b : ℕ)
      → Owns first s w
      → ((stop N s w).0.running ≡ false)
        × ((stop N s w).0.srv ≡ none)
        × (L.bound b (stop N s w).1 ≡ first b)
  unfolding stop
  stop_ends first s w b (inl (off, unserved, same)) =
      (ground (arith, off), ground (arith, off), ground (arith, off, same b))
  stop_ends first s w b (inr (on, c, serves, free, o)) =
      let w1 = elim s.mdns as (λ _. N.State) [ none ↦ w | some z ↦ (unregister N z w).1 ] in
      let kept : L.bound b w1 ≡ L.bound b w = elim (Option-cases s.mdns) [
        | inl q ↦ rw q refl
        | inr (z, q) ↦ rw q (bound-unregister z w b)
      ] in
      let down = L.bound-shutdown c w1 b in
      (ground (arith, on), ground (arith, on), ground (arith, on, serves, free, o b, kept, down))
