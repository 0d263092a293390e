-- ===== src/Corpus/Normalize/Laws.antt =====
-- `normalize` writes inputs that the fuzzer and send-test-case.py accept, and changes no others.
use lighttpd_fuzz.Base.{
  ℕ, ◌≤◌, [], ◌∷◌, ◌≡◌, ◌≢◌, refl, ◌∙◌, true, bit_and, ◌==◌, leb, not, ◌&&◌, Bool-cases, inl, inr,
  ◌⊎◌, is_ok, arith,
}
use lighttpd_fuzz.Base.Bits.{bit_and_7}
use lighttpd_fuzz.Base.Bytes.{Bytes}
use lighttpd_fuzz.Corpus.Packets.{valid_multipacket}
use lighttpd_fuzz.Corpus.Normalize.{normalize}
use lighttpd_fuzz.Send.Packets.{fuzzer_packets}
use lighttpd_fuzz.Framing.Accept.{fuzzer_packets_agrees}

-- A first byte of three flags; behind the multipacket flag a valid framing.
pub record IsInput (flags : ℕ) (rest : Bytes) : Type 0 where
  pub known_flags : flags ≤ 7
  pub well_framed : bit_and flags 2 ≢ 0 → valid_multipacket rest ≡ true

abbrev pub IsAcceptable : Bytes → Type 0
IsAcceptable [] = ⊥
IsAcceptable (flags ∷ rest) = IsInput flags rest

module _ (flags : ℕ) (rest : Bytes) where
  normalize_input : IsInput flags rest → normalize (flags ∷ rest) ≡ flags ∷ rest
  unfolding normalize
  normalize_input i = ground (arith, bit_and_7 flags, i.known_flags, i.well_framed)

  normalize_raw : ¬ (IsInput flags rest) → normalize (flags ∷ rest) ≡ 0 ∷ flags ∷ rest
  unfolding normalize
  normalize_raw no_input = elim (Bool-cases (leb flags 0x07)) [
    | inr unknown ↦ rw unknown
    | inl known ↦
        elim (Bool-cases (not (bit_and flags 0x02 == 0) && not (valid_multipacket rest))) [
          | inl bad ↦ rw (known, bad)
          | inr good ↦
              absurd (
                no_input (record { known_flags = ground arith; well_framed = λ set. ground arith }))
        ]
  ]

  IsInput-dec : Dec (IsInput flags rest)
  IsInput-dec = elim (Bool-cases (leb flags 0x07)) [
    | inr unknown ↦ no (λ i. let n = i.known_flags in ground arith)
    | inl known ↦ elim (Bool-cases (bit_and flags 0x02 == 0)) [
      | inl clear ↦ yes (record { known_flags = ground arith; well_framed = λ set. ground arith })
      | inr set ↦ elim (Bool-cases (valid_multipacket rest)) [
        | inl good ↦ yes (record { known_flags = ground arith; well_framed = λ _. good })
        | inr bad ↦ no (λ i. cc (bad, i.well_framed (ground arith)))
      ]
    ]
  ]

raw-IsInput : (rest : Bytes) → IsInput 0 rest
raw-IsInput rest = record { known_flags = omega arith; well_framed = λ h. absurd (h refl) }

-- An empty input is kept, and so is an acceptable one; any other gets a zero byte in front of it.
pub normalize_cases :
    (content : Bytes)
    → (normalize content ≡ content) × ((content ≡ []) ⊎ IsAcceptable content)
      ⊎ (normalize content ≡ 0 ∷ content) × ¬ (IsAcceptable content)
normalize_cases [] = inl (unfold normalize in refl, inl refl)
normalize_cases (flags ∷ rest) = elim (IsInput-dec flags rest) [
  | yes i ↦ inl (normalize_input flags rest i, inr i)
  | no n ↦ inr (normalize_raw flags rest n, n)
]

-- What `normalize` makes of an input that is not empty is acceptable: its flags are at most 7, and
-- behind the multipacket flag the rest passes `valid_multipacket`.
pub normalize-IsAcceptable : (content : Bytes) → content ≢ [] → IsAcceptable (normalize content)
normalize-IsAcceptable content h = elim (normalize_cases content) [
  | inl (e, inl nothing) ↦ absurd (h nothing)
  | inl (e, inr i) ↦ rw e i
  | inr (e, n) ↦ rw e (raw-IsInput content)
]

-- An acceptable input is kept.
pub normalize-of_acceptable : (content : Bytes) → IsAcceptable content → normalize content ≡ content
normalize-of_acceptable [] i = absurd i
normalize-of_acceptable (flags ∷ rest) i = normalize_input flags rest i

-- Normalising twice is normalising once.
pub normalize_idem : (content : Bytes) → normalize (normalize content) ≡ normalize content
normalize_idem [] = unfold normalize in refl
normalize_idem (flags ∷ rest) =
    normalize-of_acceptable _ (normalize-IsAcceptable (flags ∷ rest) (λ e. cc))

pub acceptable_is_ok :
    (content : Bytes) → IsAcceptable content → is_ok (fuzzer_packets content) ≡ true
acceptable_is_ok [] i = absurd i
acceptable_is_ok (flags ∷ rest) i = elim (Bool-cases (bit_and flags 2 == 0)) [
  | inl clear ↦ unfold fuzzer_packets in rw clear
  | inr set ↦
      let f : bit_and flags 2 ≢ 0 = ground arith in
      fuzzer_packets_agrees flags rest f ∙ i.well_framed f
]

-- Every normalised input that is not empty can be taken apart by `fuzzer_packets`.
pub fuzzer_packets-normalize :
    (content : Bytes) → content ≢ [] → is_ok (fuzzer_packets (normalize content)) ≡ true
fuzzer_packets-normalize content h =
    acceptable_is_ok (normalize content) (normalize-IsAcceptable content h)
