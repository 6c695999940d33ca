-- ===== src/Tests/Disk.antt =====
-- A small system for the tests: one directory, whose files are a function, with files that cannot
-- be written; the random source gives zeros and the clock stands still.
use tableaux_eink_go.Base.{
  ℕ, zero, suc, ◌<◌, ◌≡◌, refl, ap, Bool, Option, none, some, [], ◌∷◌, arith, if◌then◌else◌,
  replicate, length-replicate, All, Bool-cases, inl, inr,
}
use tableaux_eink_go.Base.Int.{pos}
use tableaux_eink_go.Base.Text.{Str, str}
use tableaux_eink_go.Base.Errors.{GoError, foreign, Result, ok, err}
use tableaux_eink_go.Einkgrpc.Host.{FileName, same_file, Host, IsHost}

pub record Disk : Type 0 where
  pub files : FileName → Option Str
  pub locked : FileName → Bool

abbrev pub disk_error : GoError
disk_error = foreign (str "permission denied")

abbrev found : Option Str → Result GoError Str
found none = err disk_error
found (some c) = ok c

abbrev pub write : FileName → Str → Disk → Option GoError × Disk
write f c s =
    if s.locked f
    then (some disk_error, s)
    else (none, record s { files = λ g. if same_file g f then some c else s.files g })

abbrev pub disk_host : Host
disk_host = record {
  State = Disk;
  Key = ℕ;
  mkdir_all = λ dir s. (none, s);
  read_file = λ dir f s. found (s.files f);
  write_file = λ dir f c s. write f c s;
  generate_key = λ s. (ok 7, s);
  random_int = λ n s. (ok 5, s);
  random_bytes = λ n s. (ok (replicate n 0), s);
  now = λ s. (pos 1000, s);
  create_certificate = λ t k s. (ok t.common_name, s);
  marshal_key = λ k. ok (k ∷ []);
  pem_encode = λ kind b. b;
  pem_decode = λ b. some b;
  sha256 = λ b. b;
}

read_written :
    (f g : FileName) (c : Str) (s : Disk)
    → (write f c s).0 ≡ none
    → found ((write f c s).1.files g) ≡ (if same_file g f then ok c else found (s.files g))
read_written f g c s h = elim (Bool-cases (s.locked f)) [
  | inl q ↦ absurd (ground arith)
  | inr q ↦ elim (Bool-cases (same_file g f)) [
    | inl z ↦ ground (arith, z)
    | inr z ↦ ground (arith, z)
  ]
]

zeros_below : (n : ℕ) → All (λ x. x < 256) (replicate n 0)
zeros_below zero = tt
zeros_below (suc n) = (omega arith, zeros_below n)

abbrev drawn : ℕ → Result GoError Str
drawn n = ok (replicate n 0)

abbrev taken : Result GoError Str → Str
taken (ok b) = b
taken (err e) = []

drawn_below : (n : ℕ) (b : Str) → drawn n ≡ ok b → All (λ x. x < 256) b
drawn_below n b h = rw (← (ap taken h)) (zeros_below n)

pub disk_host-IsHost : IsHost disk_host
disk_host-IsHost = record {
  read-write = λ dir. read_written;
  random_bytes_size = λ n s b h. ground (arith, length-replicate {A = ℕ} n 0);
  random_bytes_range = λ n s b h. drawn_below n b h;
  read-mkdir_all = λ dir d g s. refl;
  read-generate_key = λ d g s. refl;
  read-random_int = λ n d g s. refl;
  read-now = λ d g s. refl;
  read-create_certificate = λ t k d g s. refl;
}
