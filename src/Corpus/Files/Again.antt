-- ===== src/Corpus/Files/Again.antt =====
-- A run of `main`, and the run after it.
use lighttpd_fuzz.Base.{
  ℕ, List, [], ◌∷◌, ◌≡◌, refl, sym, ◌⊎◌, Bool, true, false, none, Result, ok, err, inl, inr, All,
}
use mathlib.Core.Path.{subst}
use mathlib.Core.List.{Memᴰ}
use mathlib.Core.List.Memᴰ
use lighttpd_fuzz.Base.Bytes.{Bytes}
use lighttpd_fuzz.Base.Text.{Text, get}
use lighttpd_fuzz.Corpus.Normalize.{normalize}
use lighttpd_fuzz.Corpus.Seeds.{seed_inputs}
use lighttpd_fuzz.Corpus.Seeds.Accepted.{IsKept, AllOk, seed_inputs-IsKept}
use lighttpd_fuzz.Corpus.Files.{
  FilePath, key, Files, World, System, Normalized, normalize_corpus, prepare, arguments, main,
  summary,
}
use lighttpd_fuzz.Corpus.Files.Steps.{sound, IsNormal, Keeps, Keeps-trans, Keeps-IsNormal}
use lighttpd_fuzz.Corpus.Files.Prepared.{
  AllNormal, normalize_loop-NormalizesAll, normalize_loop-normal, IsDigested, IsThere,
  seed_loop-AddsAll, seed_loop-there,
}

module _ {ℓ κ} {A : Type ℓ} (P : A → Type κ) where
  All-at : (xs : List A) (x : A) → All P xs → Memᴰ x xs → P x
  All-at [] x h m = absurd (Memᴰ.not-nil m)
  All-at (y ∷ ys) x (h, hs) (Memᴰ.head e) = subst P (sym e) h
  All-at (y ∷ ys) x (h, hs) (Memᴰ.tail m) = All-at ys x hs m

  each : (xs : List A) → ((x : A) → Memᴰ x xs → P x) → All P xs
  each [] f = tt
  each (x ∷ xs) f = (f x (Memᴰ.head refl), each xs (λ y m. f y (Memᴰ.tail m)))

seeds_kept : (seeds : List Bytes) → All IsKept seeds → All (λ seed. normalize seed ≡ seed) seeds
seeds_kept [] h = tt
seeds_kept (seed ∷ seeds) (h, hs) = (h.kept, seeds_kept seeds hs)

module _ (system : System) where
  -- A file that `rglob` lists and that was there before was listed before.
  abbrev pub IsListing : Type 0
  IsListing =
      (folder : Text) (before after : Files) (path : FilePath)
      → Memᴰ path (system.rglob folder after)
      → (get (key path) before ≡ none) ⊎ Memᴰ path (system.rglob folder before)

  -- What is left of the files in a folder: those that are listed have their normal form.
  relisted :
      (folder : Text) (files between after : Files)
      → IsListing
      → Keeps files after
      → Keeps between after
      → AllNormal between (system.rglob folder files)
      → AllNormal after (system.rglob folder after)
  relisted folder files between after listing keeps keeps' normal =
      each (λ path. IsNormal (get (key path) after)) (system.rglob folder after)
        (λ path m. elim (keeps (key path)) [
          | inr done ↦ done
          | inl same ↦ elim (listing folder files after path m) [
            | inl missing ↦ rw (same, missing) tt
            | inr listed ↦ Keeps-IsNormal between after (key path) keeps' (
                All-at (λ path. IsNormal (get (key path) between)) (system.rglob folder files) path
                  normal listed)
          ]
        ])

  -- A run that prints `printed`, puts every seed into its file, and leaves nothing for the next run.
  pub record IsPrepared (seeds_only : Bool) (corpus : Text) (seeds : List Bytes) (files : Files)
      (run : World → Result Text × World) : Type 0 where
    pub printed : Text
    pub after : Files
    pub runs : run (sound files) ≡ (ok printed, sound after)
    pub there : All (IsThere system (system.folder corpus) after) seeds
    pub empty : ℕ
    pub again :
        run (sound after) ≡ (ok (summary (record { changed = 0; empty = empty }) 0), sound after)

  prepare-IsPrepared :
      (seeds_only : Bool) (corpus : Text) (seeds : List Bytes) (files : Files)
      → system.mkdir corpus ≡ ok tt
      → IsListing
      → All IsKept seeds
      → IsDigested system seeds
      → IsPrepared seeds_only corpus seeds files (prepare system (ok seeds) seeds_only corpus)
  unfolding prepare normalize_corpus
  prepare-IsPrepared true corpus seeds files made listing kept digested =
      let folder = system.folder corpus in
      let b = seed_loop-AddsAll system folder seeds 0 files (seeds_kept seeds kept) digested in
      record {
        printed = summary (record { changed = 0; empty = 0 }) b.added;
        after = b.after;
        runs = rw (made, b.runs) refl;
        there = b.there;
        empty = 0;
        again = rw (made, seed_loop-there system folder seeds 0 b.after b.there) refl;
      }
  prepare-IsPrepared false corpus seeds files made listing kept digested =
      let folder = system.folder corpus in
      let zeros : Normalized = record { changed = 0; empty = 0 } in
      let a = normalize_loop-NormalizesAll system (system.rglob folder files) zeros files in
      let b = seed_loop-AddsAll system folder seeds 0 a.after (seeds_kept seeds kept) digested in
      let normal : AllNormal b.after (system.rglob folder b.after) =
        relisted folder files a.after b.after listing
          (Keeps-trans files a.after b.after a.keeps b.keeps) b.keeps a.normal in
      let (empty, e) =
        normalize_loop-normal system (system.rglob folder b.after) zeros b.after normal in
      record {
        printed = summary a.tally b.added;
        after = b.after;
        runs = rw (made, a.runs, b.runs) refl;
        there = b.there;
        empty = empty;
        again = rw (made, e, seed_loop-there system folder seeds 0 b.after b.there) refl;
      }

  -- The seeds of the module, which no part of it fails to build.
  pub record IsRun (argv : List Text) (seeds_only : Bool) (corpus : Text) (files : Files)
      : Type 0 where
    pub seeds : List Bytes
    pub built : seed_inputs ≡ ok seeds
    pub run : IsPrepared seeds_only corpus seeds files (main system argv)

  abbrev pub AllDigested : Result (List Bytes) → Type 0
  AllDigested (err e) = Unit
  AllDigested (ok seeds) = IsDigested system seeds

  -- If `main` is called with a corpus directory that can be made, no write fails, a file that `rglob`
  -- lists and that was there before was listed before, no digest of a seed begins with "." and no two
  -- different seeds share one, then it returns with every seed in the file of its digest; and a second run
  -- with the same arguments changes no file and prints that it normalised and added none.
  pub main-IsRun :
      (argv : List Text) (seeds_only : Bool) (corpus : Text) (files : Files)
      → arguments argv ≡ ok (seeds_only, corpus)
      → system.mkdir corpus ≡ ok tt
      → IsListing
      → AllDigested seed_inputs
      → IsRun argv seeds_only corpus files
  main-IsRun argv seeds_only corpus files chosen made listing digested =
      by_seeds seed_inputs refl seed_inputs-IsKept digested
    where
      by_seeds :
          (r : Result (List Bytes))
          → seed_inputs ≡ r
          → AllOk IsKept r
          → AllDigested r
          → IsRun argv seeds_only corpus files
      by_seeds (err e) b kept digested = absurd kept
      by_seeds (ok seeds) b kept digested =
          let p = prepare-IsPrepared seeds_only corpus seeds files made listing kept digested in
          record {
            seeds = seeds;
            built = b;
            run = record {
              printed = p.printed;
              after = p.after;
              runs = unfold main in rw (chosen, b) p.runs;
              there = p.there;
              empty = p.empty;
              again = unfold main in rw (chosen, b) p.again;
            };
          }
