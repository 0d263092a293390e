-- ===== src/Corpus/Files.antt =====
-- `atomic_write` and `main` of normalize-corpus-flags.py, on the files below the corpus directory.
pub mod Atomic
pub mod Steps
pub mod Prepared
pub mod Again
use lighttpd_fuzz.Base.{
  ℕ, zero, suc, ◌+◌, String, List, [], ◌∷◌, ◌++◌, Bool, true, false, not, ◌&&◌, ◌||◌, ◌==◌,
  is_empty, if◌then◌else◌, length, take, Option, none, some, Result, ok, err, Error, os_error,
  system_exit, index_error,
}
use lighttpd_fuzz.Base.Bytes.{Bytes, codes, bytes_eq}
use lighttpd_fuzz.Base.Text.{Text, get, put, remove, decimal}
use lighttpd_fuzz.Corpus.Normalize.{normalize}
use lighttpd_fuzz.Corpus.Seeds.{seed_inputs}

-- A folder, with its "/" at the end, and a name in it.
pub record FilePath : Type 0 where
  pub folder : Text
  pub name : Text

abbrev pub key : FilePath → Text
key path = path.folder ++ path.name

-- The regular files with their content.
abbrev pub Files : Type 0
Files = List (Text × Bytes)

-- How the `try` block of `atomic_write` goes: the new file is not made, it holds the first bytes only, it
-- cannot take the place of the old one, or nothing fails.
pub data Fault : Type 0 where
  at_open : Fault
  at_write : ℕ → Fault
  at_replace : Fault
  fine : Fault

-- How a call of `atomic_write` goes: the `try` block, and whether `temporary.unlink` works.
pub record Attempt : Type 0 where
  pub fault : Fault
  pub unlinks : Bool

abbrev pub smooth : Attempt
smooth = record { fault = fine; unlinks = true }

-- The files, and how the calls of `atomic_write` that are to come go; at the end of the list nothing fails.
pub record World : Type 0 where
  pub files : Files
  pub attempts : List Attempt

-- `path.with_name(f".{path.name}.{os.getpid()}.tmp")`
unfoldable pub temporary : ℕ → FilePath → FilePath
temporary pid path = record path {
  name = b'.' ∷ (path.name ++ (b'.' ∷ (decimal pid ++ codes ".tmp")));
}

-- `temporary.replace(path)`
abbrev pub moved : Text → Text → Option Bytes → Files → Files
moved source target none files = files
moved source target (some content) files = put target content (remove source files)

abbrev pub replace : Text → Text → Files → Files
replace source target files = moved source target (get source files) files

-- The `try` block.
abbrev pub try_write : Fault → Text → Text → Bytes → Files → Result (Unit {0}) × Files
try_write at_open source target content files = (err os_error, files)
try_write (at_write n) source target content files =
    (err os_error, put source (take n content) files)
try_write at_replace source target content files = (err os_error, put source content files)
try_write fine source target content files =
    (ok tt, replace source target (put source content files))

-- `temporary.unlink(missing_ok=True)` after the `try` block in every case; its exception takes the place of
-- that of the block.
abbrev pub unlink : Bool → Text → Result (Unit {0}) → Files → Result (Unit {0}) × Files
unlink true source r files = (r, remove source files)
unlink false source r files = (err os_error, files)

unfoldable pub atomic_write : ℕ → Attempt → FilePath → Bytes → Files → Result (Unit {0}) × Files
atomic_write pid attempt path content files =
    let source = key (temporary pid path) in
    let (r, files') = try_write attempt.fault source (key path) content files in
    unlink attempt.unlinks source r files'

abbrev pub next_attempt : List Attempt → Attempt × List Attempt
next_attempt [] = (smooth, [])
next_attempt (attempt ∷ attempts) = (attempt, attempts)

-- `atomic_write` as the program calls it.
unfoldable pub write : ℕ → FilePath → Bytes → World → Result (Unit {0}) × World
write pid path content w =
    let (attempt, attempts) = next_attempt w.attempts in
    let (r, files) = atomic_write pid attempt path content w.files in
    (r, record { files = files; attempts = attempts })

module _ {ℓ κ} {A : Type ℓ} {B : Type κ} where
  -- The statements after a call; an exception leaves them out.
  abbrev pub and_then : Result A × World → (A → World → Result B × World) → Result B × World
  and_then (err e, w) rest = (err e, w)
  and_then (ok value, w) rest = rest value w

-- `changed` and `empty`.
pub record Normalized : Type 0 where
  pub changed : ℕ
  pub empty : ℕ

-- What the program asks of its surroundings: `os.getpid`, `Path` of an argument with "/" after it,
-- `mkdir`, `rglob("*")` and the digest in hexadecimal.
pub record System : Type 0 where
  pub pid : ℕ
  pub folder : Text → Text
  pub mkdir : Text → Result (Unit {0})
  pub rglob : Text → Files → List FilePath
  pub digest : Bytes → Text

-- The line that `main` prints.
unfoldable pub summary : Normalized → ℕ → Text
summary t added =
    codes "normalized "
    ++ (decimal t.changed
        ++ (codes " files; added "
            ++ (decimal added
                ++ (codes " seed inputs; skipped " ++ (decimal t.empty ++ codes " empty files")))))

-- `seeds_only`, and the argument that names the corpus.
unfoldable pub arguments : List Text → Result (Bool × Text)
arguments [] = err index_error
arguments (program ∷ corpus ∷ []) = ok (false, corpus)
arguments (program ∷ option ∷ corpus ∷ []) =
    if bytes_eq option (codes "--seeds-only")
    then ok (true, corpus)
    else err (system_exit "usage: argv[0] [--seeds-only] CORPUS_DIRECTORY")
arguments (program ∷ []) = err (system_exit "usage: argv[0] [--seeds-only] CORPUS_DIRECTORY")
arguments (program ∷ a ∷ b ∷ c ∷ more) =
    err (system_exit "usage: argv[0] [--seeds-only] CORPUS_DIRECTORY")

module _ (system : System) where
  -- A round of the loop over `corpus.rglob("*")`; a path that is no regular file has no content.
  unfoldable pub normalize_file :
      FilePath → Option Bytes → Normalized → World → Result Normalized × World
  normalize_file path none t w = (ok t, w)
  normalize_file path (some content) t w =
      if is_empty content
      then (ok (record t { empty = t.empty + 1 }), w)
      else (if bytes_eq (normalize content) content
          then (ok t, w)
          else and_then (write system.pid path (normalize content) w)
              (λ u w'. (ok (record t { changed = t.changed + 1 }), w')))

  unfoldable pub normalize_loop : List FilePath → Normalized → World → Result Normalized × World
  normalize_loop [] t w = (ok t, w)
  normalize_loop (path ∷ paths) t w =
      and_then (normalize_file path (get (key path) w.files) t w)
        (λ t' w'. normalize_loop paths t' w')

  -- `corpus / hashlib.sha1(seed).hexdigest()`
  abbrev pub seed_path : Text → Bytes → FilePath
  seed_path folder seed = record { folder = folder; name = system.digest seed }

  -- A round of the loop over the seeds.
  unfoldable pub add_seed : FilePath → Bytes → Option Bytes → ℕ → World → Result ℕ × World
  add_seed path seed none added w =
      and_then (write system.pid path seed w) (λ u w'. (ok (added + 1), w'))
  add_seed path seed (some content) added w =
      if bytes_eq content seed
      then (ok added, w)
      else and_then (write system.pid path seed w) (λ u w'. (ok (added + 1), w'))

  unfoldable pub seed_loop : Text → List Bytes → ℕ → World → Result ℕ × World
  seed_loop folder [] added w = (ok added, w)
  seed_loop folder (seed ∷ seeds) added w =
      let path = seed_path folder seed in
      and_then (add_seed path seed (get (key path) w.files) added w)
        (λ added' w'. seed_loop folder seeds added' w')

  -- `if not seeds_only:`
  unfoldable pub normalize_corpus : Bool → Text → World → Result Normalized × World
  normalize_corpus true folder w = (ok (record { changed = 0; empty = 0 }), w)
  normalize_corpus false folder w =
      normalize_loop (system.rglob folder w.files) (record { changed = 0; empty = 0 }) w

  -- `main` after its arguments are read; it comes to what it prints.
  unfoldable pub prepare : Result (List Bytes) → Bool → Text → World → Result Text × World
  prepare inputs seeds_only corpus w =
      let folder = system.folder corpus in
      and_then (system.mkdir corpus, w)
        (λ u w₀. and_then (normalize_corpus seeds_only folder w₀) (λ t w₁.
          and_then (inputs, w₁)
            (λ seeds w₂.
              and_then (seed_loop folder seeds 0 w₂) (λ added w₃. (ok (summary t added), w₃)))))

  unfoldable pub main : List Text → World → Result Text × World
  main argv w = and_then (arguments argv, w) (λ chosen w'. prepare seed_inputs chosen.0 chosen.1 w')
