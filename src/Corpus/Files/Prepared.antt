-- ===== src/Corpus/Files/Prepared.antt =====
-- What a run of `main` leaves, and that a second run finds nothing to do.
use lighttpd_fuzz.Base.{
  ℕ, List, [], ◌∷◌, ◌++◌, ◌≡◌, refl, ◌∙◌, Bool, true, false, some, Result, ok, Bool-cases, inl, inr,
  arith, All, ◌==◌,
}
use mathlib.Core.Path.{subst}
use lighttpd_fuzz.Base.Bytes.{Bytes, codes, bytes_eq}
use lighttpd_fuzz.Base.Text.{Text, get, decimal}
use lighttpd_fuzz.Corpus.Normalize.{normalize}
use lighttpd_fuzz.Corpus.Files.{
  FilePath, key, Files, temporary, World, System, Normalized, normalize_loop, seed_path, seed_loop,
}
use lighttpd_fuzz.Corpus.Files.Steps.{
  sound, IsNormal, Keeps, Keeps-trans, Keeps-IsNormal, normalize_file-Normalizes,
  normalize_file-normal, Adds, add_seed-Adds, add_seed-present,
}

bytes_eq-append : (a b c : Bytes) → bytes_eq (a ++ b) (a ++ c) ≡ bytes_eq b c
bytes_eq-append [] b c = refl
bytes_eq-append (x ∷ a) b c = ground (arith, bytes_eq-append a b c)

-- The first of the texts is not "." and no two seeds share a digest.
abbrev pub is_hidden : Text → Bool
is_hidden [] = false
is_hidden (c ∷ cs) = c == b'.'

-- A listed file is in its normal form.
abbrev pub AllNormal : Files → List FilePath → Type 0
AllNormal files paths = All (λ path. IsNormal (get (key path) files)) paths

AllNormal-Keeps :
    (a b : Files) (paths : List FilePath) → Keeps a b → AllNormal a paths → AllNormal b paths
AllNormal-Keeps a b [] f h = tt
AllNormal-Keeps a b (path ∷ paths) f (h, hs) =
    (Keeps-IsNormal a b (key path) f h, AllNormal-Keeps a b paths f hs)

module _ (system : System) where
  pub record NormalizesAll (paths : List FilePath) (files : Files) (r : Result Normalized × World)
      : Type 0 where
    pub tally : Normalized
    pub after : Files
    pub runs : r ≡ (ok tally, sound after)
    pub keeps : Keeps files after
    pub normal : AllNormal after paths

  pub normalize_loop-NormalizesAll :
      (paths : List FilePath) (t : Normalized) (files : Files)
      → NormalizesAll paths files (normalize_loop system paths t (sound files))
  unfolding normalize_loop
  normalize_loop-NormalizesAll [] t files = record {
    tally = t;
    after = files;
    runs = refl;
    keeps = λ j. inl refl;
    normal = tt;
  }
  normalize_loop-NormalizesAll (path ∷ paths) t files =
      let a = normalize_file-Normalizes system path t files in
      let b = normalize_loop-NormalizesAll paths a.tally a.after in
      record {
        tally = b.tally;
        after = b.after;
        runs = rw (a.runs) b.runs;
        keeps = Keeps-trans files a.after b.after a.keeps b.keeps;
        normal = (Keeps-IsNormal a.after b.after (key path) b.keeps a.normal, b.normal);
      }

  pub normalize_loop-normal :
      (paths : List FilePath) (t : Normalized) (files : Files)
      → AllNormal files paths
      → (empty : ℕ) × (normalize_loop system paths t (sound files)
          ≡ (ok (record t { empty = empty }), sound files))
  unfolding normalize_loop
  normalize_loop-normal [] t files h = (t.empty, refl)
  normalize_loop-normal (path ∷ paths) t files (h, hs) =
      let (empty, e) = normalize_file-normal system path (get (key path) files) t (sound files) h in
      let (empty', e') = normalize_loop-normal paths (record t { empty = empty }) files hs in
      (empty', rw e e')

  -- A seed whose digest is another's is that seed.
  abbrev pub IsOnly : Bytes → List Bytes → Type 0
  IsOnly seed others =
      All (λ other. bytes_eq (system.digest other) (system.digest seed) ≡ true → other ≡ seed)
        others

  -- No digest begins with ".", and no two different seeds share one.
  abbrev pub IsDigested : List Bytes → Type 0
  IsDigested [] = Unit
  IsDigested (seed ∷ seeds) =
      (is_hidden (system.digest seed) ≡ false) × IsOnly seed seeds × IsDigested seeds

  module _ (folder : Text) where
    abbrev pub IsThere : Files → Bytes → Type 0
    IsThere files seed = get (key (seed_path system folder seed)) files ≡ some seed

    pub record AddsAll (seeds : List Bytes) (files : Files) (r : Result ℕ × World) : Type 0 where
      pub added : ℕ
      pub after : Files
      pub runs : r ≡ (ok added, sound after)
      pub keeps : Keeps files after
      pub there : All (IsThere after) seeds
      pub still :
          (seed : Bytes)
          → is_hidden (system.digest seed) ≡ false
          → IsOnly seed seeds
          → IsThere files seed
          → IsThere after seed

    spares :
        (seed other : Bytes)
        → is_hidden (system.digest seed) ≡ false
        → bytes_eq
            (key (temporary system.pid (seed_path system folder other)))
            (key (seed_path system folder seed))
          ≡ false
    unfolding temporary
    spares seed other h =
        bytes_eq-append folder (b'.' ∷ hidden) (system.digest seed) ∙ dotted (system.digest seed) h
      where
        hidden : Text
        hidden = system.digest other ++ (b'.' ∷ (decimal system.pid ++ codes ".tmp"))

        dotted : (name : Text) → is_hidden name ≡ false → bytes_eq (b'.' ∷ hidden) name ≡ false
        dotted [] e = refl
        dotted (c ∷ cs) e = ground arith

    -- Adding `other` leaves `seed` where it is.
    add_seed-still :
        (seed other : Bytes) (files : Files) (r : Result ℕ × World)
        → (a : Adds system (seed_path system folder other) other files r)
        → is_hidden (system.digest seed) ≡ false
        → (bytes_eq (system.digest other) (system.digest seed) ≡ true → other ≡ seed)
        → IsThere files seed
        → IsThere a.after seed
    add_seed-still seed other files r a h only there =
        elim (Bool-cases (bytes_eq (system.digest other) (system.digest seed))) [
          | inl same ↦ subst (IsThere a.after) (only same) a.present
          | inr differs ↦
              a.others (key (seed_path system folder seed))
                (bytes_eq-append folder (system.digest other) (system.digest seed) ∙ differs)
                (spares seed other h)
              ∙ there
        ]

    pub seed_loop-AddsAll :
        (seeds : List Bytes) (added : ℕ) (files : Files)
        → All (λ seed. normalize seed ≡ seed) seeds
        → IsDigested seeds
        → AddsAll seeds files (seed_loop system folder seeds added (sound files))
    unfolding seed_loop
    seed_loop-AddsAll [] added files kept digested = record {
      added = added;
      after = files;
      runs = refl;
      keeps = λ j. inl refl;
      there = tt;
      still = λ seed h only there. there;
    }
    seed_loop-AddsAll (seed ∷ seeds) added files (kept, kepts) (h, only, digested) =
        let a = add_seed-Adds system (seed_path system folder seed) seed added files kept in
        let b = seed_loop-AddsAll seeds a.added a.after kepts digested in
        record {
          added = b.added;
          after = b.after;
          runs = rw (a.runs) b.runs;
          keeps = Keeps-trans files a.after b.after a.keeps b.keeps;
          there = (b.still seed h only a.present, b.there);
          still = λ other h' onlys there.
              let (one, rest) = onlys in
              b.still other h' rest (add_seed-still other seed files _ a h' one there);
        }

    pub seed_loop-there :
        (seeds : List Bytes) (added : ℕ) (files : Files)
        → All (IsThere files) seeds
        → seed_loop system folder seeds added (sound files) ≡ (ok added, sound files)
    unfolding seed_loop
    seed_loop-there [] added files h = refl
    seed_loop-there (seed ∷ seeds) added files (h, hs) =
        rw (h, add_seed-present system (seed_path system folder seed) seed added (sound files))
          (seed_loop-there seeds added files hs)
