-- ===== src/Einklib/Device.antt =====
-- What einklib/display_linux.go calls outside the repository: the system calls on the device file
-- and the ioctls of the kernel driver (einklib/ebc_ioctl.h gives their numbers and their struct).
-- The driver is a parameter of the model.
use tableaux_eink_go.Base.{ℕ, ◌≡◌, Bool, true, false, Option, none, if◌then◌else◌, ◌==◌, length}
use tableaux_eink_go.Base.Int.{ℤ, pos}
use tableaux_eink_go.Base.Text.{Str}
use tableaux_eink_go.Base.Errors.{GoError, Result, ok, err}

-- struct ebc_buf_info. All but `buffer`, an int64, are int32.
pub record BufInfo : Type 0 where
  pub width : ℤ
  pub height : ℤ
  pub vir_width : ℤ
  pub vir_height : ℤ
  pub panel_color : ℤ
  pub win_x1 : ℤ
  pub win_y1 : ℤ
  pub win_x2 : ℤ
  pub win_y2 : ℤ
  pub epd_mode : ℤ
  pub buf_fd : ℤ
  pub needpic : ℤ
  pub buffer : ℤ

-- A call takes the file descriptor, and an ioctl fails when its return code is negative. The
-- mapping is shared memory, so the driver reads the pixels of the frame when the frame is sent.
pub record Kernel : Type 1 where
  pub State : Type 0
  pub sys_open : Str → State → Result GoError ℕ × State
  pub sys_close : ℤ → State → Option GoError × State
  pub get_buffer_info : ℤ → State → Result GoError BufInfo × State
  pub get_buffer : ℤ → State → Result GoError BufInfo × State
  pub send_buffer : ℤ → BufInfo → Str → State → Option GoError × State
  pub overlay_on : ℤ → State → Option GoError × State
  pub overlay_off : ℤ → State → Option GoError × State
  -- the mapped bytes and the address of the first
  pub mmap : ℤ → ℤ → State → Result GoError (Str × ℕ) × State
  pub munmap : ℕ → State → Option GoError × State

-- Documented behaviour of mmap(2) and munmap(2): a new mapping lies at an address that was free and
-- has the length that was asked for, a live mapping can be unmapped, and no other call maps or
-- unmaps anything.
pub record IsKernel (K : Kernel) : Type 0 where
  pub mapped : ℕ → K.State → Bool
  pub mmap_length :
      (fd n : ℤ) (s : K.State) (px : Str) (a : ℕ)
      → (K.mmap fd n s).0 ≡ ok (px, a)
      → n ≡ pos (length px)
  pub mmap_fresh :
      (fd n : ℤ) (s : K.State) (px : Str) (a : ℕ)
      → (K.mmap fd n s).0 ≡ ok (px, a)
      → mapped a s ≡ false
  pub mapped-mmap :
      (fd n : ℤ) (s : K.State) (px : Str) (a b : ℕ)
      → (K.mmap fd n s).0 ≡ ok (px, a)
      → mapped b (K.mmap fd n s).1 ≡ (if b == a then true else mapped b s)
  pub mapped-mmap_failed :
      (fd n : ℤ) (s : K.State) (e : GoError) (b : ℕ)
      → (K.mmap fd n s).0 ≡ err e
      → mapped b (K.mmap fd n s).1 ≡ mapped b s
  pub munmap_succeeds : (a : ℕ) (s : K.State) → mapped a s ≡ true → (K.munmap a s).0 ≡ none
  pub mapped-munmap :
      (a b : ℕ) (s : K.State)
      → mapped a s ≡ true
      → mapped b (K.munmap a s).1 ≡ (if b == a then false else mapped b s)
  pub mapped-munmap_unmapped :
      (a b : ℕ) (s : K.State) → mapped a s ≡ false → mapped b (K.munmap a s).1 ≡ mapped b s
  pub mapped-sys_close : (fd : ℤ) (s : K.State) (b : ℕ) → mapped b (K.sys_close fd s).1 ≡ mapped b s
  pub mapped-get_buffer_info :
      (fd : ℤ) (s : K.State) (b : ℕ) → mapped b (K.get_buffer_info fd s).1 ≡ mapped b s
  pub mapped-get_buffer :
      (fd : ℤ) (s : K.State) (b : ℕ) → mapped b (K.get_buffer fd s).1 ≡ mapped b s
  pub mapped-send_buffer :
      (fd : ℤ) (i : BufInfo) (px : Str) (s : K.State) (b : ℕ)
      → mapped b (K.send_buffer fd i px s).1 ≡ mapped b s
  pub mapped-overlay_on :
      (fd : ℤ) (s : K.State) (b : ℕ) → mapped b (K.overlay_on fd s).1 ≡ mapped b s
  pub mapped-overlay_off :
      (fd : ℤ) (s : K.State) (b : ℕ) → mapped b (K.overlay_off fd s).1 ≡ mapped b s
