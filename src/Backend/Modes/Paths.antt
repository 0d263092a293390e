-- ===== src/Backend/Modes/Paths.antt =====
-- The last component of a path selects the mode.
use lighttpd_fuzz.Base.{
  ℕ, zero, suc, List, [], ◌∷◌, ◌++◌, ◌≡◌, refl, true, ◌==◌, if◌then◌else◌, All, replicate, Option,
  none, some, arith, ap, sym, ◌∙◌, append_assoc,
}
use lighttpd_fuzz.Base.Bytes.{codes}
use lighttpd_fuzz.Base.Text.{Text, get}
use lighttpd_fuzz.Backend.Modes.{
  mode_names, mode_value, known_or_normal, canonical_mode, path_mode, query_mode, uri_mode,
  select_mode, Url, after_last, right_strip, keep,
}
use lighttpd_fuzz.Backend.Modes.Selected.{IsMode, elem-All, canonical_mode-of_mode}

module _ (sep : ℕ) where
  sep_self : (sep == sep) ≡ true
  sep_self = ground arith

  -- Separators at the end are stripped, whatever stands before them.
  right_strip-replicate : (k : ℕ) → right_strip sep (replicate k sep) ≡ []
  unfolding right_strip
  right_strip-replicate zero = refl
  right_strip-replicate (suc k) = rw (right_strip-replicate k, sep_self)

  keep-cons : (c : ℕ) (xs : Text) {z : ℕ} {zs : Text} → xs ≡ z ∷ zs → keep sep c xs ≡ c ∷ xs
  keep-cons c [] e = cc
  keep-cons c (x ∷ xs) e = refl

  append_cons : (xs : Text) (z : ℕ) (zs : Text) → (y : ℕ) × (ys : Text) × (xs ++ z ∷ zs ≡ y ∷ ys)
  append_cons [] z zs = (z, zs, refl)
  append_cons (x ∷ xs) z zs = (x, xs ++ z ∷ zs, refl)

  right_strip-append :
      (xs ys : Text) {z : ℕ} {zs : Text}
      → right_strip sep ys ≡ z ∷ zs
      → right_strip sep (xs ++ ys) ≡ xs ++ z ∷ zs
  unfolding right_strip
  right_strip-append [] ys e = e
  right_strip-append (x ∷ xs) ys {z} {zs} e =
      let (_, _, c) = append_cons xs z zs in
      ap (keep sep x) (right_strip-append xs ys e) ∙ keep-cons x (xs ++ z ∷ zs) c

  after_last-append :
      (xs ys piece : Text) → after_last sep piece (xs ++ sep ∷ ys) ≡ after_last sep [] ys
  unfolding after_last
  after_last-append [] ys piece =
      ap (λ b. after_last sep (if b then [] else piece ++ sep ∷ []) ys) sep_self
  after_last-append (x ∷ xs) ys piece =
      after_last-append xs ys (if x == sep then [] else piece ++ x ∷ [])

-- A name of a mode behind a slash, with any number of slashes after it.
record IsLast (name : Text) : Type 0 where
  alone : after_last b'/' [] name ≡ name
  stripped :
      (front : Text) (k : ℕ)
      → right_strip b'/' (front ++ (name ++ replicate k b'/')) ≡ front ++ name

name_IsLast :
    (name : Text) {z : ℕ} {zs : Text}
    → after_last b'/' [] name ≡ name
    → name ≡ z ∷ zs
    → ((k : ℕ) → right_strip b'/' (name ++ replicate k b'/') ≡ name)
    → IsLast name
name_IsLast name a e s = record {
  alone = a;
  stripped = λ front k.
      right_strip-append b'/' front (name ++ replicate k b'/') (s k ∙ e)
      ∙ ap (λ t. front ++ t) (sym e);
}

slashes : (k : ℕ) → right_strip b'/' (replicate k b'/') ≡ []
slashes = right_strip-replicate b'/'

names-AreLast : All IsLast mode_names
unfolding after_last right_strip
names-AreLast = (
  name_IsLast (codes "normal") refl refl (λ k. rw slashes),
  (
    name_IsLast (codes "chunked-trailers") refl refl (λ k. rw slashes),
    (
      name_IsLast (codes "100") refl refl (λ k. rw slashes),
      (
        name_IsLast (codes "103") refl refl (λ k. rw slashes),
        (
          name_IsLast (codes "interim") refl refl (λ k. rw slashes),
          (
            name_IsLast (codes "early-close") refl refl (λ k. rw slashes),
            (
              name_IsLast (codes "malformed-headers") refl refl (λ k. rw slashes),
              (
                name_IsLast (codes "truncated-headers") refl refl (λ k. rw slashes),
                (
                  name_IsLast (codes "malformed-chunk") refl refl (λ k. rw slashes),
                  (
                    name_IsLast (codes "truncated-chunk") refl refl (λ k. rw slashes),
                    (
                      name_IsLast (codes "redirect-cookie") refl refl (λ k. rw slashes),
                      (
                        name_IsLast (codes "upgrade") refl refl (λ k. rw slashes),
                        (name_IsLast (codes "partial") refl refl (λ k. rw slashes), tt),
                      ),
                    ),
                  ),
                ),
              ),
            ),
          ),
        ),
      ),
    ),
  ),
)

path_mode-of_last :
    (front name : Text) (k : ℕ)
    → IsMode name
    → path_mode (front ++ b'/' ∷ (name ++ replicate k b'/')) ≡ name
unfolding path_mode
path_mode-of_last front name k h =
    let last : IsLast name = elem-All IsLast name mode_names h names-AreLast in
    let stripped : right_strip b'/' (front ++ b'/' ∷ (name ++ replicate k b'/'))
        ≡ front ++ b'/' ∷ name =
      ap (right_strip b'/') (sym (append_assoc front (b'/' ∷ []) (name ++ replicate k b'/')))
      ∙ last.stripped (front ++ b'/' ∷ []) k
      ∙ append_assoc front (b'/' ∷ []) name in
    ap (λ t. known_or_normal (mode_value (after_last b'/' [] t))) stripped
    ∙ ap (λ t. known_or_normal (mode_value t)) (after_last-append b'/' front name [] ∙ last.alone)
    ∙ unfold canonical_mode in canonical_mode-of_mode name h

-- A URI whose path ends in a slash, the name of a mode and any number of slashes selects that mode,
-- if no header and no value in the query selects one.
pub select_mode-of_path :
    (parse : Text → Option Url) (uri : Text) (headers : List (Text × Text)) (url : Url)
    (front name : Text) (k : ℕ)
    → IsMode name
    → get (codes "x-backend-mode") headers ≡ none
    → parse uri ≡ some url
    → url.query (codes "backend-mode") ≡ []
    → url.query (codes "mode") ≡ []
    → url.path ≡ front ++ b'/' ∷ (name ++ replicate k b'/')
    → select_mode parse uri headers ≡ name
unfolding select_mode uri_mode query_mode
select_mode-of_path parse uri headers url front name k h g p q r e =
    rw (g, select_mode, p, uri_mode) (rw (q, r, e) (path_mode-of_last front name k h))
