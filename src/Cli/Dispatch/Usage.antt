-- ===== src/Cli/Dispatch/Usage.antt =====
-- The text of tableaux-cli/main.go that says how the program is called.
use mathlib.Core.List.{◌∷◌, ◌++◌}
use tableaux_eink_go.Base.Text.{Str, str}

-- The constant; the bytes 0xe2, 0x80 and 0x94 are a dash.
unfoldable pub usage : Str
usage =
    (str "tableaux-cli " ++ (0xe2 ∷ 0x80 ∷ 0x94 ∷ str " Go port of tableaux-eink/cli\n"))
    ++ (str "\n"
        ++ (str "Usage:\n"
            ++ (str "  tableaux-cli <command> [flags...]\n"
                ++ (str "\n"
                    ++ (str "Commands:\n"
                        ++ (str "  info                 Print panel geometry.\n"
                            ++ (str "  health               Print server health.\n"
                                ++ (str "  fill   --argb 0xRRGGBB --mode <Mode>\n"
                                    ++ (str
                                          "  refresh --pixels <file> --mode <Mode> [--chunk-bytes 65536]\n"
                                        ++ (str "  overlay --enabled\n"
                                            ++ (str
                                                  "  rotate               Force-rotate every credential (admin).\n"
                                                ++ (str
                                                      "  reissue --out ./tls  Reissue client cert+key (admin).\n"
                                                    ++ (str
                                                          "  metrics              Print Prometheus metrics.\n"
                                                        ++ (str
                                                            "  discover [--timeout 5] [--first]\n"
                                                            ++ (str "  connect tableaux://...\n"
                                                            ++ (str "\n"
                                                            ++ (str
                                                            "Common flags (all RPC commands):\n"
                                                            ++ (str
                                                            "  -H, --host        Server host (required)\n"
                                                            ++ (str
                                                            "  -p, --port        Server port (default 50051)\n"
                                                            ++ (str
                                                            "  -t, --token       Bearer token (required unless --insecure-anon)\n"
                                                            ++ (str
                                                            "      --cert        Server cert PEM to trust (skip if --insecure)\n"
                                                            ++ (str
                                                            "      --client-cert Client cert PEM for mTLS\n"
                                                            ++ (str
                                                            "      --client-key  Client key PEM for mTLS\n"
                                                            ++ (str
                                                            "      --insecure    Skip TLS (dev only)\n"))))))))))))))))))))))))
