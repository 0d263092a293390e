-- ===== src/Corpus/Files/Steps.antt =====
-- Writes that do not fail, and what the rounds of the two loops do to the files.
use lighttpd_fuzz.Base.{
  ℕ, ◌+◌, [], ◌∷◌, ◌≡◌, refl, ap, ◌∙◌, ◌⊎◌, false, Option, none, some, Result, ok, Bool-cases, inl,
  inr, arith,
}
use lighttpd_fuzz.Base.Bytes.{Bytes, bytes_eq, bytes_eq→eq, bytes_eq_refl}
use lighttpd_fuzz.Base.Text.{Text, get}
use lighttpd_fuzz.Corpus.Normalize.{normalize}
use lighttpd_fuzz.Corpus.Normalize.Laws.{normalize_idem}
use lighttpd_fuzz.Corpus.Files.{
  FilePath, key, Files, smooth, temporary, fine, atomic_write, World, write, System, Normalized,
  normalize_file, add_seed, and_then,
}
use lighttpd_fuzz.Corpus.Files.Atomic.{get-atomic_write, temporary-differs}

-- Files none of whose writes will fail.
abbrev pub sound : Files → World
sound files = record { files = files; attempts = [] }

abbrev pub IsNormal : Option Bytes → Type 0
IsNormal none = Unit
IsNormal (some content) = normalize content ≡ content

-- Each content is the old one, or `normalize` keeps it.
abbrev pub Keeps : Files → Files → Type 0
Keeps before after = (j : Text) → (get j after ≡ get j before) ⊎ IsNormal (get j after)

pub Keeps-trans : (a b c : Files) → Keeps a b → Keeps b c → Keeps a c
Keeps-trans a b c f g j = elim (g j) [
  | inl same ↦ elim (f j) [ inl same' ↦ inl (same ∙ same') | inr normal ↦ inr (rw same normal) ]
  | inr normal ↦ inr normal
]

pub Keeps-IsNormal : (a b : Files) (j : Text) → Keeps a b → IsNormal (get j a) → IsNormal (get j b)
Keeps-IsNormal a b j f normal = elim (f j) [ inl same ↦ rw same normal | inr normal' ↦ normal' ]

module _ (pid : ℕ) (path : FilePath) (content : Bytes) (files : Files) where
  abbrev pub after_write : Files
  after_write = (atomic_write pid smooth path content files).1

  pub write-sound : write pid path content (sound files) ≡ (ok tt, sound after_write)
  unfolding write atomic_write
  write-sound = refl

  pub get-after_write : get (key path) after_write ≡ some content
  get-after_write =
      get-atomic_write pid fine path content files (key path)
      ∙ rw (temporary-differs pid path, bytes_eq_refl (key path)) refl

  pub after_write-Keeps : normalize content ≡ content → Keeps files after_write
  after_write-Keeps kept j =
      rw (get-atomic_write pid fine path content files j)
        (elim (Bool-cases (bytes_eq (key (temporary pid path)) j)) [
          | inl same ↦ rw same (inr tt)
          | inr other ↦ rw other (elim (Bool-cases (bytes_eq (key path) j)) [
            | inl here ↦ rw here (inr kept)
            | inr away ↦ rw away (inl refl)
          ])
        ])

module _ (system : System) where
  -- A round of the first loop returns, and leaves the file in its normal form.
  pub record Normalizes (path : FilePath) (files : Files) (r : Result Normalized × World)
      : Type 0 where
    pub tally : Normalized
    pub after : Files
    pub runs : r ≡ (ok tally, sound after)
    pub keeps : Keeps files after
    pub normal : IsNormal (get (key path) after)

  pub normalize_file-Normalizes :
      (path : FilePath) (t : Normalized) (files : Files)
      → Normalizes path files (normalize_file system path (get (key path) files) t (sound files))
  normalize_file-Normalizes path t files = by_content (get (key path) files) refl
    where
      by_content :
          (c : Option Bytes)
          → get (key path) files ≡ c
          → Normalizes path files (normalize_file system path c t (sound files))
      by_content none e = record {
        tally = t;
        after = files;
        runs = unfold normalize_file in refl;
        keeps = λ j. inl refl;
        normal = rw e tt;
      }
      by_content (some []) e = record {
        tally = record t { empty = t.empty + 1 };
        after = files;
        runs = unfold normalize_file in refl;
        keeps = λ j. inl refl;
        normal = rw e (unfold normalize in refl);
      }
      by_content (some (b ∷ bs)) e = elim (Bool-cases (bytes_eq (normalize (b ∷ bs)) (b ∷ bs))) [
        | inl same ↦ record {
          tally = t;
          after = files;
          runs = unfold normalize_file in rw same refl;
          keeps = λ j. inl refl;
          normal = rw e (bytes_eq→eq (normalize (b ∷ bs)) (b ∷ bs) same);
        }
        | inr other ↦
            let content : Bytes = normalize (b ∷ bs) in
            record {
              tally = record t { changed = t.changed + 1 };
              after = after_write system.pid path content files;
              runs =
                  unfold normalize_file in
                  rw (other, write-sound system.pid path content files) refl;
              keeps = after_write-Keeps system.pid path content files (normalize_idem (b ∷ bs));
              normal = rw (get-after_write system.pid path content files) (normalize_idem (b ∷ bs));
            }
      ]

  -- A file in its normal form stays as it is.
  pub normalize_file-normal :
      (path : FilePath) (c : Option Bytes) (t : Normalized) (w : World)
      → IsNormal c
      → (empty : ℕ) × (normalize_file system path c t w ≡ (ok (record t { empty = empty }), w))
  unfolding normalize_file
  normalize_file-normal path none t w h = (t.empty, refl)
  normalize_file-normal path (some []) t w h = (t.empty + 1, refl)
  normalize_file-normal path (some (b ∷ bs)) t w h =
      (t.empty, rw (h, bytes_eq_refl bs) (ground arith))

  -- A round of the second loop returns, and leaves the seed in its file.
  pub record Adds (path : FilePath) (seed : Bytes) (files : Files) (r : Result ℕ × World)
      : Type 0 where
    pub added : ℕ
    pub after : Files
    pub runs : r ≡ (ok added, sound after)
    pub keeps : Keeps files after
    pub present : get (key path) after ≡ some seed
    pub others :
        (j : Text)
        → bytes_eq (key path) j ≡ false
        → bytes_eq (key (temporary system.pid path)) j ≡ false
        → get j after ≡ get j files

  pub add_seed-Adds :
      (path : FilePath) (seed : Bytes) (added : ℕ) (files : Files)
      → normalize seed ≡ seed
      → Adds path seed files (add_seed system path seed (get (key path) files) added (sound files))
  unfolding add_seed
  add_seed-Adds path seed added files kept = by_content (get (key path) files) refl
    where
      new_file :
          Adds path seed files
            (and_then (write system.pid path seed (sound files)) (λ u w'. (ok (added + 1), w')))
      new_file = record {
        added = added + 1;
        after = after_write system.pid path seed files;
        runs = rw (write-sound system.pid path seed files) refl;
        keeps = after_write-Keeps system.pid path seed files kept;
        present = get-after_write system.pid path seed files;
        others = λ j away spare.
            get-atomic_write system.pid fine path seed files j ∙ rw (spare, away) refl;
      }

      by_content :
          (c : Option Bytes)
          → get (key path) files ≡ c
          → Adds path seed files (add_seed system path seed c added (sound files))
      by_content none e = new_file
      by_content (some content) e = elim (Bool-cases (bytes_eq content seed)) [
        | inl same ↦ rw same record {
          added = added;
          after = files;
          runs = refl;
          keeps = λ j. inl refl;
          present = e ∙ ap (λ (x : Bytes). some x) (bytes_eq→eq content seed same);
          others = λ j away spare. refl;
        }
        | inr other ↦ rw other new_file
      ]

  -- A seed that is there is not after_write again.
  pub add_seed-present :
      (path : FilePath) (seed : Bytes) (added : ℕ) (w : World)
      → add_seed system path seed (some seed) added w ≡ (ok added, w)
  unfolding add_seed
  add_seed-present path seed added w = rw (bytes_eq_refl seed) refl
