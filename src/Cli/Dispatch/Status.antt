-- ===== src/Cli/Dispatch/Status.antt =====
-- What the exit status of tableaux-cli says.
use tableaux_eink_go.Base.{
  ℕ, ◌≡◌, ◌≢◌, refl, subst, sym, List, [], ◌∷◌, arith, inl, inr, Bool-cases, Option-cases,
}
use tableaux_eink_go.Base.Text.{Str}
use tableaux_eink_go.Base.Errors.{Result, ok, err}
use tableaux_eink_go.Base.Flag.{Exit, helped, misused}
use tableaux_eink_go.Cli.Flags.{Network}
use tableaux_eink_go.Cli.Remote.{Remote}
use tableaux_eink_go.Cli.Commands.{Halt, returned, crashed, looping, Shell, Command, run}
use tableaux_eink_go.Cli.Commands.Quiet.{run_failed}
use tableaux_eink_go.Cli.Dispatch.{verb, is_help, exited, command, Finish, finish, perform, main}

module _ (N : Network) (R : Remote N) where
  finish_fails :
      (r : Result Halt (Unit {0}) × Shell R.State) (s : Shell R.State)
      → ((e : Halt) → r.0 ≡ err e → r.1.printed ≡ s.printed)
      → (finish N R r).0.0 ≢ exited 0
      → (finish N R r).1.printed ≡ s.printed
  finish_fails (ok u, s') s quiet bad = absurd (bad refl)
  finish_fails (err (returned e), s') s quiet bad = quiet (returned e) refl
  finish_fails (err crashed, s') s quiet bad = quiet crashed refl
  finish_fails (err looping, s') s quiet bad = quiet looping refl

  perform_fails :
      (fuel : ℕ) (k : Result Exit (Command N R)) (s : Shell R.State)
      → (perform N R fuel k s).0.0 ≢ exited 0
      → (perform N R fuel k s).1.printed ≡ s.printed
  perform_fails fuel (ok k) s bad =
      finish_fails (run N R fuel k s) s (λ e. run_failed N R fuel k s e) bad
  perform_fails fuel (err helped) s bad = refl
  perform_fails fuel (err misused) s bad = refl

  abbrev Kept : Shell R.State → Finish N R → Type 0
  Kept s r = r.0.0 ≢ exited 0 → r.1.printed ≡ s.printed

  -- Whatever the arguments are, and whatever fails: if the process does not exit with status 0, it
  -- has printed nothing to stdout.
  pub main_failed :
      (fuel : ℕ) (args : List Str) (s : Shell R.State)
      → (main N R fuel args s).0.0 ≢ exited 0
      → (main N R fuel args s).1.printed ≡ s.printed
  unfolding main
  main_failed fuel [] s bad = refl
  main_failed fuel (program ∷ []) s bad = refl
  main_failed fuel (program ∷ cmd ∷ args) s bad = elim (Option-cases (verb cmd)) [
    | inr (v, q) ↦
        let step : main N R fuel (program ∷ cmd ∷ args) s
            ≡ perform N R fuel (command N R v args) s =
          ground (arith, q) in
        subst (Kept s) (sym step) (perform_fails fuel (command N R v args) s) bad
    | inl q ↦ elim (Bool-cases (is_help cmd)) [
      | inl z ↦
          let succeeds : (main N R fuel (program ∷ cmd ∷ args) s).0.0 ≡ exited 0 =
            ground (arith, q, z) in
          absurd (bad succeeds)
      | inr z ↦ ground (arith, q, z)
    ]
  ]
