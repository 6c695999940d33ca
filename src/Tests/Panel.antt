-- ===== src/Tests/Panel.antt =====
-- A small kernel for the tests: a colour panel of two pixels by one, with one buffer at address
-- 4096. It keeps the pixels of the last frame, and refuses frames where it is built to.
use tableaux_eink_go.Base.{
  ℕ, ◌≡◌, refl, Bool, true, false, Option, none, some, [], arith, ◌&&◌, if◌then◌else◌, ◌==◌, length,
  replicate, length-replicate,
}
use tableaux_eink_go.Base.Int.{ℤ, pos, negsuc}
use tableaux_eink_go.Base.Text.{Str, str}
use tableaux_eink_go.Base.Errors.{GoError, foreign, Result, ok, err}
use tableaux_eink_go.Einklib.Device.{BufInfo, Kernel, IsKernel}

pub record Panel : Type 0 where
  pub busy : Bool
  pub shown : Str

abbrev pub idle : Panel
idle = record { busy = false; shown = [] }

abbrev panel_info : BufInfo
panel_info = record {
  width = pos 2;
  height = pos 1;
  vir_width = pos 2;
  vir_height = pos 1;
  panel_color = pos 1;
  win_x1 = pos 0;
  win_y1 = pos 0;
  win_x2 = pos 0;
  win_y2 = pos 0;
  epd_mode = pos 0;
  buf_fd = pos 0;
  needpic = pos 0;
  buffer = pos 0;
}

abbrev pub trouble : GoError
trouble = foreign (str "input/output error")

abbrev map_buffer : ℤ → Panel → Result GoError (Str × ℕ) × Panel
map_buffer (negsuc n) s = (err trouble, s)
map_buffer (pos n) s =
    if s.busy then (err trouble, s) else (ok (replicate n 0, 4096), record s { busy = true })

abbrev unmap_buffer : ℕ → Panel → Option GoError × Panel
unmap_buffer a s =
    if s.busy && a == 4096 then (none, record s { busy = false }) else (some trouble, s)

-- `refuses`: whether the driver refuses the frames that it is sent.
abbrev pub panel_kernel : Bool → Kernel
panel_kernel refuses = record {
  State = Panel;
  sys_open = λ path s. (ok 3, s);
  sys_close = λ fd s. (none, s);
  get_buffer_info = λ fd s. (ok panel_info, s);
  get_buffer = λ fd s. (ok panel_info, s);
  send_buffer = λ fd i px s. if refuses then (some trouble, s) else (none, record s { shown = px });
  overlay_on = λ fd s. (none, s);
  overlay_off = λ fd s. (none, s);
  mmap = λ fd n s. map_buffer n s;
  munmap = unmap_buffer;
}

map_length :
    (n : ℤ) (s : Panel) (px : Str) (a : ℕ) → (map_buffer n s).0 ≡ ok (px, a) → n ≡ pos (length px)
map_length (negsuc n) s px a h = absurd (cc)
map_length (pos n) s px a h = ground (arith, length-replicate {A = ℕ} n 0)

map_fresh :
    (n : ℤ) (s : Panel) (px : Str) (a : ℕ)
    → (map_buffer n s).0 ≡ ok (px, a)
    → (s.busy && a == 4096) ≡ false
map_fresh (negsuc n) s px a h = absurd (cc)
map_fresh (pos n) s px a h = ground arith

map_takes :
    (n : ℤ) (s : Panel) (px : Str) (a b : ℕ)
    → (map_buffer n s).0 ≡ ok (px, a)
    → ((map_buffer n s).1.busy && b == 4096) ≡ (if b == a then true else s.busy && b == 4096)
map_takes (negsuc n) s px a b h = absurd (cc)
map_takes (pos n) s px a b h = ground arith

map_failed :
    (n : ℤ) (s : Panel) (e : GoError) (b : ℕ)
    → (map_buffer n s).0 ≡ err e
    → ((map_buffer n s).1.busy && b == 4096) ≡ (s.busy && b == 4096)
map_failed (negsuc n) s e b h = refl
map_failed (pos n) s e b h = ground arith

pub panel_kernel-IsKernel : (refuses : Bool) → IsKernel (panel_kernel refuses)
panel_kernel-IsKernel refuses = record {
  mapped = λ a s. s.busy && a == 4096;
  mmap_length = λ fd. map_length;
  mmap_fresh = λ fd. map_fresh;
  mapped-mmap = λ fd. map_takes;
  mapped-mmap_failed = λ fd. map_failed;
  munmap_succeeds = λ a s h. ground arith;
  mapped-munmap = λ a b s h. ground arith;
  mapped-munmap_unmapped = λ a b s h. ground arith;
  mapped-sys_close = λ fd s b. refl;
  mapped-get_buffer_info = λ fd s b. refl;
  mapped-get_buffer = λ fd s b. refl;
  mapped-send_buffer = λ fd i px s b. ground arith;
  mapped-overlay_on = λ fd s b. refl;
  mapped-overlay_off = λ fd s b. refl;
}
