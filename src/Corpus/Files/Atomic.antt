-- ===== src/Corpus/Files/Atomic.antt =====
-- What `atomic_write` leaves, whatever fails in it.
use lighttpd_fuzz.Base.{
  ℕ, ◌∷◌, ◌++◌, ◌≡◌, ◌⊎◌, ◌&&◌, sym, refl, ap, ◌∙◌, Bool, true, false, if◌then◌else◌, length,
  length-append, take, Option, none, some, Result, is_ok, Bool-cases, inl, inr, arith,
}
use lighttpd_fuzz.Base.Bytes.{Bytes, codes, bytes_eq, bytes_eq→eq, bytes_eq_refl}
use lighttpd_fuzz.Base.Text.{Text, get, put, remove, decimal}
use lighttpd_fuzz.Base.Text.Dict.{get-put, get-remove}
use lighttpd_fuzz.Corpus.Files.{
  FilePath, key, Files, Fault, at_open, at_write, at_replace, fine, Attempt, try_write, temporary,
  replace, atomic_write,
}

-- The temporary name is longer than the name it stands for.
pub temporary-differs :
    (pid : ℕ) (path : FilePath) → bytes_eq (key (temporary pid path)) (key path) ≡ false
unfolding temporary
temporary-differs pid path = elim (Bool-cases (bytes_eq (key (temporary pid path)) (key path))) [
  | inl same ↦
      let e : length (key (temporary pid path)) ≡ length (key path) =
        ap (λ (t : Text). length t) (bytes_eq→eq (key (temporary pid path)) (key path) same) in
      absurd (
        omega (
          arith,
          e,
          length-append path.folder path.name,
          length-append path.folder (b'.' ∷ (path.name ++ (b'.' ∷ (decimal pid ++ codes ".tmp")))),
          length-append path.name (b'.' ∷ (decimal pid ++ codes ".tmp")),
        ))
  | inr other ↦ other
]

abbrev is_fine : Fault → Bool
is_fine at_open = false
is_fine (at_write n) = false
is_fine at_replace = false
is_fine fine = true

module _ (source target j : Text) (content : Bytes) (files : Files) where
  absent : get j (remove source files) ≡ (if bytes_eq source j then none else get j files)
  absent = get-remove source j files

  -- What was written to the temporary file is gone with it.
  undone :
      (part : Bytes)
      → get j (remove source (put source part files))
        ≡ (if bytes_eq source j then none else get j files)
  undone part = elim (Bool-cases (bytes_eq source j)) [
    | inl same ↦ get-remove source j (put source part files) ∙ rw same refl
    | inr other ↦
        get-remove source j (put source part files)
        ∙ rw (other, get-put source j part files) (rw other refl)
  ]

  moves : get j (remove source (replace source target (put source content files))) ≡ (
      if bytes_eq source j then none else (if bytes_eq target j then some content else get j files))
  moves =
      rw (get-put source source content files, bytes_eq_refl source)
        (get-remove source j (put target content (remove source (put source content files)))
          ∙ rw (get-put target j content (remove source (put source content files)), undone content)
              (elim (Bool-cases (bytes_eq source j)) [ inl a ↦ rw a refl | inr b ↦ rw b refl ]))

-- Every file after `atomic_write` whose `unlink` works.
pub get-atomic_write :
    (pid : ℕ) (fault : Fault) (path : FilePath) (content : Bytes) (files : Files) (j : Text)
    → get j (atomic_write pid (record { fault = fault; unlinks = true }) path content files).1 ≡ (
        if bytes_eq (key (temporary pid path)) j
        then none
        else (if is_fine fault
            then (if bytes_eq (key path) j then some content else get j files)
            else get j files))
unfolding atomic_write
get-atomic_write pid at_open path content files j =
    absent (key (temporary pid path)) (key path) j content files
get-atomic_write pid (at_write n) path content files j =
    undone (key (temporary pid path)) (key path) j content files (take n content)
get-atomic_write pid at_replace path content files j =
    undone (key (temporary pid path)) (key path) j content files content
get-atomic_write pid fine path content files j =
    moves (key (temporary pid path)) (key path) j content files

-- `unlink` makes no difference to other files.
unlink_other :
    (pid : ℕ) (unlinks : Bool) (fault : Fault) (path : FilePath) (content : Bytes) (files : Files)
    (j : Text)
    → bytes_eq (key (temporary pid path)) j ≡ false
    → get j (atomic_write pid (record { fault = fault; unlinks = unlinks }) path content files).1
      ≡ get j (atomic_write pid (record { fault = fault; unlinks = true }) path content files).1
unfolding atomic_write
unlink_other pid true fault path content files j spare = refl
unlink_other pid false fault path content files j spare =
    let source = key (temporary pid path) in
    sym (get-remove source j (try_write fault source (key path) content files).1 ∙ rw spare refl)

-- What `atomic_write` promises of its result and of the files after it.
pub record IsAtomic (pid : ℕ) (attempt : Attempt) (path : FilePath) (content : Bytes)
    (before : Files) (r : Result (Unit {0})) (after : Files) : Type 0 where
  pub gone : attempt.unlinks ≡ true → get (key (temporary pid path)) after ≡ none
  pub replaced : is_ok r ≡ true → get (key path) after ≡ some content
  pub restored :
      attempt.unlinks ≡ true → is_ok r ≡ false → get (key path) after ≡ get (key path) before
  pub whole : (get (key path) after ≡ get (key path) before) ⊎ (get (key path) after ≡ some content)
  pub others :
      (j : Text)
      → bytes_eq (key path) j ≡ false
      → bytes_eq (key (temporary pid path)) j ≡ false
      → get j after ≡ get j before

module _ (pid : ℕ) (path : FilePath) (content : Bytes) (files : Files) where
  returns :
      (unlinks : Bool) (fault : Fault)
      → is_ok (atomic_write pid (record { fault = fault; unlinks = unlinks }) path content files).0
        ≡ (is_fine fault && unlinks)
  unfolding atomic_write
  returns true at_open = refl
  returns true (at_write n) = refl
  returns true at_replace = refl
  returns true fine = refl
  returns false at_open = refl
  returns false (at_write n) = refl
  returns false at_replace = refl
  returns false fine = refl

  temporary_gone :
      (unlinks : Bool) (fault : Fault)
      → unlinks ≡ true
      → get
          (key (temporary pid path))
          (atomic_write pid (record { fault = fault; unlinks = unlinks }) path content files).1
        ≡ none
  temporary_gone true fault works =
      get-atomic_write pid fault path content files _
      ∙ rw (bytes_eq_refl (key (temporary pid path))) refl
  temporary_gone false fault works = cc

  get_path :
      (unlinks : Bool) (fault : Fault)
      → get
          (key path)
          (atomic_write pid (record { fault = fault; unlinks = unlinks }) path content files).1
        ≡ (if is_fine fault then some content else get (key path) files)
  get_path unlinks fault =
      unlink_other pid unlinks fault path content files (key path) (temporary-differs pid path)
      ∙ get-atomic_write pid fault path content files (key path)
      ∙ rw (temporary-differs pid path, bytes_eq_refl (key path)) refl

  same : (b : Bool) (x : Option Bytes) → (if b then x else x) ≡ x
  same true x = refl
  same false x = refl

  either : (b : Bool) (x y now : Option Bytes) → now ≡ (if b then x else y) → (now ≡ y) ⊎ (now ≡ x)
  either true x y now e = inr e
  either false x y now e = inl e

-- Whatever fails in `atomic_write`: `path` holds what it held before or all of the new content, the new one
-- if the call returns, and the old one if it raises although `unlink` works; the temporary file is gone
-- unless `unlink` fails; and no other file has changed.
pub atomic_write-IsAtomic :
    (pid : ℕ) (attempt : Attempt) (path : FilePath) (content : Bytes) (files : Files)
    → IsAtomic pid attempt path content files
        (atomic_write pid attempt path content files).0
        (atomic_write pid attempt path content files).1
atomic_write-IsAtomic pid attempt path content files =
    let now = get_path pid path content files attempt.unlinks attempt.fault in
    let back = returns pid path content files attempt.unlinks attempt.fault in
    record {
      gone = temporary_gone pid path content files attempt.unlinks attempt.fault;
      replaced = λ done. let e : is_fine attempt.fault ≡ true = ground arith in now ∙ rw e refl;
      restored =
          λ works raised. let e : is_fine attempt.fault ≡ false = ground arith in now ∙ rw e refl;
      whole = either pid path content files (is_fine attempt.fault) _ _ _ now;
      others = λ j other spare.
          unlink_other pid attempt.unlinks attempt.fault path content files j spare
          ∙ get-atomic_write pid attempt.fault path content files j
          ∙ rw (spare, other) (same pid path content files (is_fine attempt.fault) (get j files));
    }
