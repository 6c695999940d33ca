-- ===== src/Tests/Commands.antt =====
-- The commands over a server that answers with fixed messages.
use tableaux_eink_go.Base.{
  length, ℕ, suc, ◌≡◌, ◌≢◌, ◌↔◌, ◌<◌, refl, sym, inr, ◌∙◌, true, false, none, some, List, [], ◌∷◌,
  ◌++◌, arith, All,
}
use tableaux_eink_go.Base.Int.{pos}
use tableaux_eink_go.Base.Text.{Str, str, str_eq, decimal}
use tableaux_eink_go.Base.Errors.{foreign, plain, ok, err}
use tableaux_eink_go.Base.Flag.{parse, word, name_value}
use tableaux_eink_go.Base.Url.{is_unreserved}
use tableaux_eink_go.Base.Url.Authority.{IsUnreserved}
use tableaux_eink_go.Einkgrpc.TokenAuth.{check}
use tableaux_eink_go.Einkgrpc.Server.{Server, connect_host}
use tableaux_eink_go.Cli.Flags.{CommonFlags, default_flags, validate, dial, tls_config}
use tableaux_eink_go.Cli.Remote.{Remote}
use tableaux_eink_go.Cli.Commands.{
  Halt, returned, Shell, argb_digits, parse_argb, run, looping, refresh, flags_of, info, connect,
}
use tableaux_eink_go.Cli.Commands.Ending.{run_ends}
use tableaux_eink_go.Cli.Commands.Argb.{Spells, parse_argb_iff}
use tableaux_eink_go.Cli.Waveform.{all_ascii}
use tableaux_eink_go.Cli.Commands.Quiet.{run_unflagged}
use tableaux_eink_go.Cli.Dispatch.{verb_rotate, verb, command, exited, main}
use tableaux_eink_go.Cli.Dispatch.Status.{main_failed}
use tableaux_eink_go.Cli.Dispatch.Equivalent.{meant, only, equivalent_words, equivalent_flags_pass}
use tableaux_eink_go.Tests.Auth.{direct, root-IsVisible, root_ne}
use tableaux_eink_go.Tests.Network.{one_port, new_host}
use tableaux_eink_go.Tests.Urls.{cut_url}

-- The state is the number of calls.
abbrev pub server : Remote direct
server = record {
  State = ℕ;
  Stream = ℕ;
  get_info = λ conn md n. (
    ok (record {
      width = pos 2;
      height = pos 1;
      virtual_width = pos 2;
      virtual_height = pos 1;
      color = false;
      app_version = str "0.1.0";
    }),
    suc n,
  );
  health = λ conn md n. (err (foreign (str "unavailable")), suc n);
  fill = λ conn md m n. (ok (record { elapsed_ms = pos 4 }), suc n);
  refresh = λ conn md n. (ok 1, suc n);
  send = λ stream m n. (none, suc n);
  close_and_recv = λ stream n. (ok (record { elapsed_ms = pos 4 }), suc n);
  set_overlay = λ conn md m n. (ok tt, suc n);
  rotate = λ conn md n. (ok (record { scheduled_at_ms = pos 9 }), suc n);
  reissue_client_cert = λ conn md n. (err (foreign (str "unavailable")), suc n);
  get_metrics = λ conn md n. (ok (record { prom_text = str "up 1" }), suc n);
  mkdir_all = λ path n. (none, n);
  write_file = λ path text n. (none, n);
  join = λ dir name. dir ++ (str "/" ++ name);
  browse = λ seconds n. (ok [], n);
  unicode_lower = λ s. s;
  quote = λ s. str "\"" ++ (s ++ str "\"");
  parse_url = cut_url;
}

abbrev pub fresh : Shell ℕ
fresh = record { printed = []; remote = 0 }

abbrev pub panel : Str
panel = str "panel-1.local"

-- A host without a token.
abbrev no_token : CommonFlags
unfolding default_flags
no_token = record default_flags { host = panel }

run_unflagged_example :
    run direct server 9 (info no_token) fresh
    ≡ (err (returned (plain (str "--token (-t) is required"))), fresh)
unfolding default_flags str
run_unflagged_example = run_unflagged direct server 9 (info no_token) no_token fresh refl (inr refl)

parse_argb_iff_example :
    (parse_argb direct server (str "0xFf00fF") ≡ ok 0xff00ff) ↔ Spells (str "0xFf00fF") 0xff00ff
unfolding all_ascii str
parse_argb_iff_example = parse_argb_iff direct server (str "0xFf00fF") 0xff00ff refl

-- A server that listens.
abbrev pub listening : Server one_port
listening = record new_host {
  port = pos 50051;
  running = true;
  srv = some 1;
  cm = record new_host.cm { token = str "root"; server_cer = 171 ∷ [] };
}

pub panel-IsUnreserved : All IsUnreserved panel
unfolding str is_unreserved
panel-IsUnreserved = ground arith

abbrev panel_flags : CommonFlags
panel_flags = meant (connect_host one_port panel) 50051 (str "root")

root_text_ne : listening.cm.token ≢ []
root_text_ne = root_ne

equivalent_flags_pass_example :
    (command direct server verb_rotate (equivalent_words panel (decimal 50051) (str "root"))
      ≡ ok (only direct server verb_rotate panel_flags))
    × (flags_of direct server (only direct server verb_rotate panel_flags) ≡ some panel_flags)
    × (validate panel_flags ≡ none)
    × (check
          (record { token = str "root"; admin_token = [] })
          (some ((str "Bearer " ++ str "root") ∷ []))
        ≡ none)
unfolding str dial default_flags tls_config
equivalent_flags_pass_example =
    equivalent_flags_pass direct server verb_rotate one_port listening panel 50051 5
      ((str "Bearer " ++ str "root") ∷ []) refl (omega arith) root-IsVisible root_ne refl

-- A call of health that the server does not answer.
abbrev words : List Str
words = str "tableaux-cli" ∷ str "health" ∷ str "-H" ∷ panel ∷ str "-t" ∷ str "root" ∷ []

words_status : (main direct server 9 words fresh).0.0 ≡ exited 1
unfolding main verb command parse word name_value str str_eq default_flags validate dial tls_config
    tableaux_eink_go.Cli.Commands.cmd_health
words_status = refl

words_fail : (main direct server 9 words fresh).0.0 ≢ exited 0
words_fail e = absurd (cc (sym e ∙ words_status))

main_failed_example : (main direct server 9 words fresh).1.printed ≡ []
main_failed_example = main_failed direct server 9 words fresh words_fail

empty_file : (p px : Str) → direct.read_file p ≡ ok px → length px < 9
empty_file p px e = ground arith

run_ends_example :
    (run direct server 9 (refresh panel_flags (str "frame") (str "GC16") (pos 2)) fresh).0
    ≢ err looping
run_ends_example =
    run_ends direct server 9 (refresh panel_flags (str "frame") (str "GC16") (pos 2)) fresh
      (λ e. cc) empty_file
