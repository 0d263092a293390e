-- ===== src/Base/Text/Dict.antt =====
-- Laws of the dictionaries.
use lighttpd_fuzz.Base.{
  List, [], ◌∷◌, ◌≡◌, refl, sym, ◌∙◌, false, Bool-cases, inl, inr, if◌then◌else◌, none, some, All,
  arith,
}
use lighttpd_fuzz.Base.Bytes.{bytes_eq, bytes_eq→eq}
use lighttpd_fuzz.Base.Text.{Text, get, put, remove}
use mathlib.Core.Path.{subst}

bytes_eq_sym : (a b : Text) → bytes_eq a b ≡ bytes_eq b a
bytes_eq_sym [] [] = refl
bytes_eq_sym [] (y ∷ ys) = refl
bytes_eq_sym (x ∷ xs) [] = refl
bytes_eq_sym (x ∷ xs) (y ∷ ys) = ground (arith, bytes_eq_sym xs ys)

module _ {ℓ} {V : Type ℓ} where
  pub get-put :
      (k j : Text) (v : V) (d : List (Text × V))
      → get j (put k v d) ≡ (if bytes_eq k j then some v else get j d)
  unfolding get put
  get-put k j v [] = refl
  get-put k j v ((i, w) ∷ d) = elim (Bool-cases (bytes_eq i k)) [
    | inl same ↦
        let e : i ≡ k = bytes_eq→eq i k same in
        rw same (rw e (elim (Bool-cases (bytes_eq k j)) [ inl a ↦ rw a | inr b ↦ rw b ]))
    | inr other ↦ rw other (elim (Bool-cases (bytes_eq i j)) [
      | inl here ↦
          let e : i ≡ j = bytes_eq→eq i j here in
          let apart : bytes_eq k j ≡ false =
            bytes_eq_sym k j ∙ subst (λ t. bytes_eq t k ≡ false) e other in
          rw (here, apart)
      | inr away ↦ rw away (get-put k j v d)
    ])
  ]

  pub put-All {κ} :
      (P : Text → V → Type κ) (k : Text) (v : V) (d : List (Text × V))
      → P k v
      → All (λ e. P e.0 e.1) d
      → All (λ e. P e.0 e.1) (put k v d)
  unfolding put
  put-All P k v [] h hs = (h, tt)
  put-All P k v ((i, w) ∷ d) h (g, gs) = elim (Bool-cases (bytes_eq i k)) [
    | inl same ↦ rw same (subst (λ t. P t v) (sym (bytes_eq→eq i k same)) h, gs)
    | inr other ↦ rw other (g, put-All P k v d h gs)
  ]

  pub get-remove :
      (k j : Text) (d : List (Text × V))
      → get j (remove k d) ≡ (if bytes_eq k j then none else get j d)
  unfolding get remove
  get-remove k j [] = elim (Bool-cases (bytes_eq k j)) [ inl a ↦ rw a | inr b ↦ rw b ]
  get-remove k j ((i, w) ∷ d) = elim (Bool-cases (bytes_eq i k)) [
    | inl same ↦
        let e : i ≡ k = bytes_eq→eq i k same in
        rw same (
          get-remove k j d
          ∙ rw e (elim (Bool-cases (bytes_eq k j)) [ inl a ↦ rw a | inr b ↦ rw b ]))
    | inr other ↦ rw other (elim (Bool-cases (bytes_eq i j)) [
      | inl here ↦
          let e : i ≡ j = bytes_eq→eq i j here in
          let apart : bytes_eq k j ≡ false =
            bytes_eq_sym k j ∙ subst (λ t. bytes_eq t k ≡ false) e other in
          rw (here, apart)
      | inr away ↦ rw away (get-remove k j d)
    ])
  ]
