-- ===== src/Einkapp/Logs.antt =====
-- The log of einkapp/app_android.go: the snapshot as text, and the observer that the host
-- registers. The buffer is a library; `entries` is what its Snapshot gives.
use tableaux_eink_go.Base.{Option, none, some, List, [], ◌∷◌, ◌++◌, ◌≡◌, refl, ap, ◌∙◌}
use tableaux_eink_go.Base.Int.{ℤ, wrap32}
use tableaux_eink_go.Base.Text.{Str, str, decimal_ℤ}

-- An entry, with its level as a number and as text.
pub record Entry : Type 0 where
  pub unix_millis : ℤ
  pub level : ℤ
  pub level_text : Str
  pub message : Str

abbrev pub entry_line : Entry → Str
entry_line e =
    decimal_ℤ e.unix_millis ++ (str " " ++ (e.level_text ++ (str " " ++ (e.message ++ str "\n"))))

abbrev entry_lines : List Entry → Str
entry_lines [] = []
entry_lines (e ∷ es) = entry_line e ++ entry_lines es

-- doLogsSnapshot; there is no buffer before Init.
unfoldable pub do_logs_snapshot : Option (List Entry) → Str
do_logs_snapshot none = []
do_logs_snapshot (some entries) = entry_lines entries

-- What happens to the log: doRegisterLogObserver, with `none` for nil, and an entry that the
-- goroutine of startObserverFanout takes off its channel.
pub data Happening (O : Type 0) : Type 0 where
  registering : Option O → Happening O
  taken : Entry → Happening O

-- A call of OnEntry.
abbrev pub Heard : Type 0 → Type 0
Heard O = O × ℤ × ℤ × Str

module _ {O : Type 0} where
  abbrev pub on_entry : O → Entry → Heard O
  on_entry o e = (o, e.unix_millis, wrap32 e.level, e.message)

  abbrev hear : Option O → Entry → List (Heard O) → List (Heard O)
  hear none e rest = rest
  hear (some o) e rest = on_entry o e ∷ rest

  -- The calls of OnEntry, with the observer that is registered at first.
  unfoldable pub fan_out : Option O → List (Happening O) → List (Heard O)
  fan_out obs [] = []
  fan_out obs (registering o ∷ hs) = fan_out o hs
  fan_out obs (taken e ∷ hs) = hear obs e (fan_out obs hs)

  abbrev pub entries : List Entry → List (Happening O)
  entries [] = []
  entries (e ∷ es) = taken e ∷ entries es

  abbrev pub heard : O → List Entry → List (Heard O)
  heard o [] = []
  heard o (e ∷ es) = on_entry o e ∷ heard o es

  fan_out-entries :
      (o : O) (es : List Entry) (hs : List (Happening O))
      → fan_out (some o) (entries es ++ hs) ≡ heard o es ++ fan_out (some o) hs
  unfolding fan_out
  fan_out-entries o [] hs = refl
  fan_out-entries o (e ∷ es) hs = rw (fan_out-entries o es hs) refl

  fan_out-silent :
      (es : List Entry) (hs : List (Happening O))
      → fan_out none (entries es ++ hs) ≡ fan_out none hs
  unfolding fan_out
  fan_out-silent [] hs = refl
  fan_out-silent (e ∷ es) hs = fan_out-silent es hs

  -- Whoever observes before: an observer hears exactly the entries that are taken off the channel
  -- between its registration and the next, each once and in order, and after a registration of nil
  -- nobody hears an entry.
  pub observer_hears :
      (before : Option O) (o : O) (es fs : List Entry) (hs : List (Happening O))
      → fan_out before
          (registering (some o) ∷ (entries es ++ (registering none ∷ (entries fs ++ hs))))
        ≡ heard o es ++ fan_out none hs
  unfolding fan_out
  observer_hears before o es fs hs =
      fan_out-entries o es (registering none ∷ (entries fs ++ hs))
      ∙ ap (λ rest. heard o es ++ rest) (fan_out-silent fs hs)
