-- ===== src/Backend/Http/Split.antt =====
-- Where `find` and `split` cut.
use lighttpd_fuzz.Base.{
  ℕ, zero, suc, ◌≤◌, [], ◌∷◌, ◌++◌, ◌≡◌, ◌≢◌, refl, sym, ap, ◌∙◌, true, false, ◌&&◌, ◌==◌,
  Bool-cases, inl, inr, length, append_assoc, append-nil, drop, All, Option, some, arith,
}
use lighttpd_fuzz.Base.Bytes.{Bytes}
use lighttpd_fuzz.Base.Text.{starts_with}
use lighttpd_fuzz.Backend.Http.{split_at}

-- What follows makes no difference, when there are enough bytes.
starts_with-append :
    (xs ys separator : Bytes)
    → length separator ≤ length xs
    → starts_with (xs ++ ys) separator ≡ starts_with xs separator
unfolding starts_with
starts_with-append xs ys [] h = refl
starts_with-append [] ys (s ∷ separator) h = absurd (omega arith)
starts_with-append (x ∷ xs) ys (s ∷ separator) h =
    ap (λ b. x == s && b) (starts_with-append xs ys separator (omega arith))

drop-append : (n : ℕ) (xs ys : Bytes) → n ≤ length xs → drop n (xs ++ ys) ≡ drop n xs ++ ys
drop-append zero xs ys h = refl
drop-append (suc n) [] ys h = absurd (omega arith)
drop-append (suc n) (x ∷ xs) ys h = drop-append n xs ys (omega arith)

starts_with-length :
    (xs separator : Bytes) → starts_with xs separator ≡ true → length separator ≤ length xs
unfolding starts_with
starts_with-length xs [] e = omega arith
starts_with-length [] (s ∷ separator) e = cc
starts_with-length (x ∷ xs) (s ∷ separator) e =
    omega (arith, starts_with-length xs separator (ground arith))

starts_with-eq :
    (xs separator : Bytes)
    → starts_with xs separator ≡ true
    → xs ≡ separator ++ drop (length separator) xs
unfolding starts_with
starts_with-eq xs [] e = refl
starts_with-eq [] (s ∷ separator) e = cc
starts_with-eq (x ∷ xs) (s ∷ separator) e =
    let here : x ≡ s = ground arith in
    let rest : starts_with xs separator ≡ true = ground arith in
    ap (λ t. t ∷ xs) here ∙ ap (λ t. s ∷ t) (starts_with-eq xs separator rest)

pub cut-injective :
    {a b c d : Bytes}
    → ◌≡◌ {A = Option (Bytes × Bytes)} (some (a, b)) (some (c, d))
    → (a ≡ c) × (b ≡ d)
cut-injective e = (cc, cc)

module _ (separator : Bytes) where
  -- A cut leaves out the separator alone.
  pub split_at-eq :
      (front xs before behind : Bytes)
      → split_at separator front xs ≡ some (before, behind)
      → front ++ xs ≡ before ++ (separator ++ behind)
  unfolding split_at
  split_at-eq front [] before behind e = cc
  split_at-eq front (x ∷ xs) before behind e = elim (Bool-cases (starts_with (x ∷ xs) separator)) [
    | inl here ↦
        let (a, b) =
          cut-injective {a = front} {b = drop (length separator) (x ∷ xs)} (rw here at e) in
        ap (λ t. front ++ t) (starts_with-eq (x ∷ xs) separator here) ∙ rw (a, b) refl
    | inr away ↦
        sym (append_assoc front (x ∷ []) xs)
        ∙ split_at-eq (front ++ x ∷ []) xs before behind (rw away at e)
  ]

  split_at-length :
      (front xs before behind : Bytes)
      → split_at separator front xs ≡ some (before, behind)
      → length separator ≤ length xs
  unfolding split_at
  split_at-length front [] before behind e = cc
  split_at-length front (x ∷ xs) before behind e =
      elim (Bool-cases (starts_with (x ∷ xs) separator)) [
        | inl here ↦ starts_with-length (x ∷ xs) separator here
        | inr away ↦
            omega (arith, split_at-length (front ++ x ∷ []) xs before behind (rw away at e))
      ]

  -- What follows does not move the first cut.
  pub split_at-append :
      (front xs ys before behind : Bytes)
      → split_at separator front xs ≡ some (before, behind)
      → split_at separator front (xs ++ ys) ≡ some (before, behind ++ ys)
  unfolding split_at
  split_at-append front [] ys before behind e = cc
  split_at-append front (x ∷ xs) ys before behind e =
      let long : length separator ≤ length (x ∷ xs) =
        split_at-length front (x ∷ xs) before behind e in
      let same = starts_with-append (x ∷ xs) ys separator long in
      elim (Bool-cases (starts_with (x ∷ xs) separator)) [
        | inl here ↦
            let (a, b) =
              cut-injective {a = front} {b = drop (length separator) (x ∷ xs)} (rw here at e) in
            let there : starts_with (x ∷ xs ++ ys) separator ≡ true = same ∙ here in
            rw (there, drop-append (length separator) (x ∷ xs) ys long, a, b) refl
        | inr away ↦
            let nowhere : starts_with (x ∷ xs ++ ys) separator ≡ false = same ∙ away in
            rw nowhere (split_at-append (front ++ x ∷ []) xs ys before behind (rw away at e))
      ]

-- A separator of one byte is found at its first occurrence.
pub split_at-first :
    (s : ℕ) (front xs ys : Bytes)
    → All (λ b. b ≢ s) xs
    → split_at (s ∷ []) front (xs ++ s ∷ ys) ≡ some (front ++ xs, ys)
unfolding split_at starts_with
split_at-first s front [] ys h =
    let here : (s == s) ≡ true = ground arith in rw (here, append-nil front) refl
split_at-first s front (x ∷ xs) ys (h, hs) =
    let away : (x == s) ≡ false = ground arith in
    rw away (
      split_at-first s (front ++ x ∷ []) xs ys hs
      ∙ ap (λ t. some (t, ys)) (append_assoc front (x ∷ []) xs))
