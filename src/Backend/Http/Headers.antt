-- ===== src/Backend/Http/Headers.antt =====
-- The headers of a request are read, however the stream is cut.
use lighttpd_fuzz.Base.{
  ℕ, zero, suc, ◌+◌, ◌-◌, ◌≤◌, ◌<◌, List, [], ◌∷◌, ◌++◌, ◌≡◌, refl, sym, ap, ◌∙◌, false, ltb, leb,
  Bool-cases, inl, inr, min, length, length-append, length-take, append_assoc, append-nil, take,
  drop, take-append-drop, Option, none, some, Result, ok, arith,
}
use lighttpd_fuzz.Base.Bytes.{Bytes}
use lighttpd_fuzz.Backend.Plan.{max_headers}
use lighttpd_fuzz.Backend.Socket.{
  Arrival, chunk, pause, Connection, Conn, push, recv, recv_from, pure,
}
use lighttpd_fuzz.Backend.Socket.Stream.{stream, outcome, stream-push, outcome-push, split_want}
use lighttpd_fuzz.Backend.Http.{split_at, end_of_headers, recv_headers_loop, recv_headers}
use lighttpd_fuzz.Backend.Http.Split.{split_at-eq, split_at-append, cut-injective}

-- What a round does with the data that it has, when a cut is looked for in them.
abbrev after_cut : ℕ → Bytes → Option (Bytes × Bytes) → Conn (Bytes × Bytes)
after_cut fuel content (some (head, extra)) = pure (head ++ end_of_headers, extra)
after_cut fuel content none = recv_headers_loop fuel content

-- The data hold no whole head, so they are shorter than it.
none_short :
    (head front received content s : Bytes)
    → split_at end_of_headers [] head ≡ some (front, [])
    → split_at end_of_headers [] content ≡ none
    → content ++ s ≡ head ++ received
    → length head ≤ length content
    → ⊥
none_short head front received content s whole cut e long =
    let (left, a, b) = split_want content s head received e in
    let n : length head ≡ min (length head) (length content) + length left =
      ap (λ (t : Bytes). length t) a
      ∙ omega (
        arith,
        length-append (take (length head) content) left,
        length-take (length head) content,
      ) in
    let nothing : left ≡ [] = no_length left (omega arith) in
    let front_part : head ≡ take (length head) content =
      a
      ∙ ap (λ t. take (length head) content ++ t) nothing
      ∙ append-nil (take (length head) content) in
    let same : head ++ drop (length head) content ≡ content =
      ap (λ t. t ++ drop (length head) content) front_part
      ∙ take-append-drop (length head) content in
    let found =
      split_at-append end_of_headers [] head (drop (length head) content) front [] whole in
    let q : split_at end_of_headers [] content ≡ some (front, drop (length head) content) =
      ap (λ t. split_at end_of_headers [] t) (sym same) ∙ found in
    cc (cut, q)
  where
    no_length : (xs : Bytes) → length xs ≡ 0 → xs ≡ []
    no_length [] e = refl
    no_length (x ∷ xs) e = absurd (omega arith)

module _ (accepts : List ℕ) (sent : Bytes) where
  abbrev conn : List Arrival → Connection
  conn incoming = record { incoming = incoming; accepts = accepts; sent = sent }

  headers_round :
      (fuel m b : ℕ) (bs content : Bytes) (rest : List Arrival)
      → length content ≤ max_headers
      → min 4096 (max_headers + 1 - length content) ≡ suc m
      → recv_headers_loop (suc fuel) content (conn (chunk b bs ∷ rest))
        ≡ after_cut fuel
            (content ++ b ∷ take m bs)
            (split_at end_of_headers [] (content ++ b ∷ take m bs))
            (conn (push (drop m bs) rest))
  unfolding recv_headers_loop recv recv_from
  headers_round fuel m b bs content rest h n =
      let small : ltb max_headers (length content) ≡ false = ground arith in
      rw (small, n)
        (ap
          (λ k.
            after_cut fuel (content ++ take k (b ∷ bs))
              (split_at end_of_headers [] (content ++ b ∷ take m bs))
              (conn (push (drop m bs) rest)))
          n)

  -- The head that is read, and what was received behind it.
  pub record HeadRead (head received : Bytes) (incoming : List Arrival)
      (r : Result (Bytes × Bytes) × Connection) : Type 0 where
    pub extra : Bytes
    pub rest : List Arrival
    pub runs : r ≡ (ok (head, extra), conn rest)
    pub behind : extra ++ stream rest ≡ received
    pub ends : outcome rest ≡ outcome incoming

  module _ (head front received : Bytes)
      (whole : split_at end_of_headers [] head ≡ some (front, []))
      (fits : length head ≤ max_headers + 1) where
    cut_here :
        (fuel : ℕ) (content a x : Bytes) (incoming : List Arrival)
        → content ++ stream incoming ≡ head ++ received
        → split_at end_of_headers [] content ≡ some (a, x)
        → HeadRead head received incoming (after_cut fuel content (some (a, x)) (conn incoming))
    cut_here fuel content a x incoming e cut =
        let here = split_at-append end_of_headers [] content (stream incoming) a x cut in
        let there = split_at-append end_of_headers [] head received front [] whole in
        let (p, q) =
          cut-injective {a = a} {b = x ++ stream incoming} {c = front} {d = received}
            (sym here ∙ ap (split_at end_of_headers []) e ∙ there) in
        let all : head ≡ front ++ end_of_headers =
          split_at-eq end_of_headers [] head front [] whole in
        record {
          extra = x;
          rest = incoming;
          runs =
              ap (λ (t : Bytes). (ok (t, x), conn incoming))
                (ap (λ t. t ++ end_of_headers) p ∙ sym all);
          behind = q;
          ends = refl;
        }

    all_there : (content : Bytes) → content ++ [] ≡ head ++ received → length head ≤ length content
    all_there content e = omega (
      arith,
      ap (λ (t : Bytes). length t) e,
      length-append content [],
      length-append head received,
    )

    by_cut :
        (fuel : ℕ) (content : Bytes) (incoming : List Arrival) (found : Option (Bytes × Bytes))
        → split_at end_of_headers [] content ≡ found
        → content ++ stream incoming ≡ head ++ received
        → (split_at end_of_headers [] content ≡ none
            → HeadRead head received incoming (recv_headers_loop fuel content (conn incoming)))
        → HeadRead head received incoming (after_cut fuel content found (conn incoming))
    by_cut fuel content incoming none cut e again = again cut
    by_cut fuel content incoming (some (a, x)) cut e again =
        cut_here fuel content a x incoming e cut

    recv_headers_loop-HeadRead :
        (fuel : ℕ) (content : Bytes) (incoming : List Arrival)
        → content ++ stream incoming ≡ head ++ received
        → split_at end_of_headers [] content ≡ none
        → max_headers + 1 ≤ length content + fuel
        → HeadRead head received incoming (recv_headers_loop fuel content (conn incoming))
    recv_headers_loop-HeadRead zero content incoming e cut f =
        absurd (none_short head front received content (stream incoming) whole cut e (omega arith))
    recv_headers_loop-HeadRead (suc fuel) content [] e cut f =
        absurd (none_short head front received content [] whole cut e (all_there content e))
    recv_headers_loop-HeadRead (suc fuel) content (pause ∷ rest) e cut f =
        absurd (none_short head front received content [] whole cut e (all_there content e))
    recv_headers_loop-HeadRead (suc fuel) content (chunk b bs ∷ rest) e cut f =
        elim (Bool-cases (leb (length head) (length content))) [
          | inl long ↦ absurd (
              none_short head front received content (stream (chunk b bs ∷ rest)) whole cut e
                (ground arith))
          | inr short ↦
              let lacks : length content < length head = ground arith in
              let m : ℕ = min 4096 (max_headers + 1 - length content) - 1 in
              let asked : min 4096 (max_headers + 1 - length content) ≡ suc m = omega arith in
              let block : Bytes = b ∷ take m bs in
              let left : List Arrival = push (drop m bs) rest in
              let same : (content ++ block) ++ stream left ≡ head ++ received =
                append_assoc content block (stream left)
                ∙ ap (λ t. content ++ (block ++ t)) (stream-push (drop m bs) rest)
                ∙ ap (λ t. content ++ (b ∷ t))
                    (sym (append_assoc (take m bs) (drop m bs) (stream rest))
                      ∙ ap (λ t. t ++ stream rest) (take-append-drop m bs))
                ∙ e in
              let r =
                by_cut fuel (content ++ block) left (split_at end_of_headers [] (content ++ block))
                  refl same
                  (λ none_yet.
                    recv_headers_loop-HeadRead fuel (content ++ block) left same none_yet
                      (omega (arith, f, length-append content block))) in
              record {
                extra = r.extra;
                rest = r.rest;
                runs =
                    headers_round fuel m b bs content rest (omega (arith, lacks, fits)) asked
                    ∙ r.runs;
                behind = r.behind;
                ends = r.ends ∙ outcome-push (drop m bs) rest;
              }
        ]

    -- `recv_headers` returns the head, and what it has received behind it.
    pub recv_headers-HeadRead :
        (incoming : List Arrival)
        → stream incoming ≡ head ++ received
        → HeadRead head received incoming (recv_headers (conn incoming))
    unfolding recv_headers
    recv_headers-HeadRead incoming e =
        recv_headers_loop-HeadRead (max_headers + 1) [] incoming e (unfold split_at in refl)
          (omega arith)
