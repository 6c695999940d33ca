-- ===== src/Einkgrpc/Modes/Translation.antt =====
-- translateMode is a bijection of the named modes, and everything else is the automatic mode.
use tableaux_eink_go.Base.{zero, suc, ◌≡◌, refl, arith, if◌then◌else◌, ltb}
use tableaux_eink_go.Base.Int.{ℤ, pos, negsuc}
use tableaux_eink_go.Einkgrpc.Modes.{translate_mode}

-- The panel's mode of a number on the wire.
abbrev pub panel_mode : ℤ → ℤ
panel_mode (pos zero) = pos 7
panel_mode (pos (suc n)) = if ltb n 16 then pos n else pos 7
panel_mode (negsuc n) = pos 7

-- The modes 1 to 16 of the protocol are the modes 0 to 15 of the panel, in this order; the
-- unspecified mode 0, and every number that the enumeration does not name, is the automatic mode 7.
pub translate_mode_lem : (m : ℤ) → translate_mode m ≡ panel_mode m
unfolding translate_mode
translate_mode_lem (pos zero) = refl
translate_mode_lem (pos (suc n)) = ground arith
translate_mode_lem (negsuc n) = refl
