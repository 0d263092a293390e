-- ===== src/Tests/Corpus.antt =====
-- The theorems on the files of the corpus applied to a small folder.
use lighttpd_fuzz.Base.{true, List, [], ◌∷◌, ◌++◌, ◌≡◌, refl, false, ok, err, inr, Result}
use lighttpd_fuzz.Base.Bytes.{Bytes, codes, bytes_eq→eq}
use lighttpd_fuzz.Base.Text.{Text}
use lighttpd_fuzz.Corpus.Seeds.{seed_inputs}
use lighttpd_fuzz.Corpus.Files.{FilePath, Files, System, Attempt, atomic_write, at_write, arguments}
use lighttpd_fuzz.Corpus.Files.Atomic.{IsAtomic, atomic_write-IsAtomic}
use lighttpd_fuzz.Corpus.Files.Prepared.{IsOnly, IsDigested}
use lighttpd_fuzz.Corpus.Files.Again.{IsListing, IsRun, AllDigested, main-IsRun}

abbrev first_file : FilePath
first_file = record { folder = codes "corpus/"; name = codes "a" }

abbrev files : Files
files = (codes "corpus/a", codes "GET /") ∷ (codes "corpus/b", []) ∷ []

-- The disk is full after two bytes.
abbrev full_disk : Attempt
full_disk = record { fault = at_write 2; unlinks = true }

atomic_write-IsAtomic_example :
    IsAtomic 7 full_disk first_file
      (codes "new")
      files
      (atomic_write 7 full_disk first_file (codes "new") files).0
      (atomic_write 7 full_disk first_file (codes "new") files).1
atomic_write-IsAtomic_example = atomic_write-IsAtomic 7 full_disk first_file (codes "new") files

-- A folder with one file; a digest that keeps the whole seed.
abbrev system : System
system = record {
  pid = 7;
  folder = λ name. name ++ codes "/";
  mkdir = λ name. ok tt;
  rglob = λ folder files. first_file ∷ [];
  digest = λ seed. b'x' ∷ seed;
}

all-IsDigested : (seeds : List Bytes) → IsDigested system seeds
all-IsDigested [] = tt
all-IsDigested (seed ∷ seeds) = (refl, only seeds, all-IsDigested seeds)
  where
    only : (others : List Bytes) → IsOnly system seed others
    only [] = tt
    only (other ∷ others) = ((λ same. bytes_eq→eq other seed same), only others)

seeds_digested : (r : Result (List Bytes)) → AllDigested system r
seeds_digested (err e) = tt
seeds_digested (ok seeds) = all-IsDigested seeds

listing : IsListing system
listing folder before after path m = inr m

abbrev argv : List Text
argv = codes "normalize" ∷ codes "corpus" ∷ []

argv_read : arguments argv ≡ ok (false, codes "corpus")
unfolding arguments
argv_read = refl

main-IsRun_example : IsRun system argv false (codes "corpus") files
main-IsRun_example =
    main-IsRun system argv false (codes "corpus") files argv_read refl listing
      (seeds_digested seed_inputs)
