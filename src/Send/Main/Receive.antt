-- ===== src/Send/Main/Receive.antt =====
-- What `receive` returns.
use lighttpd_fuzz.Base.{
  ℕ, zero, suc, ◌+◌, ◌≤◌, ◌<◌, List, [], ◌∷◌, ◌++◌, ◌≡◌, refl, sym, ap, ◌∙◌, false, ltb, length,
  length-append, append_assoc, append-nil, take, drop, length-take, take-append-drop, ok, Result,
  Bool-cases, inl, inr, arith, is_empty, min, if◌then◌else◌,
}
use lighttpd_fuzz.Base.Bytes.{Bytes}
use lighttpd_fuzz.Backend.Socket.{Arrival, chunk, pause, push, recv_from}
use lighttpd_fuzz.Backend.Socket.Stream.{stream, stream-push}
use lighttpd_fuzz.Send.Main.{limit, receive_loop, receive, recv_or_end}

module _ (limit size : ℕ) where
  -- The bytes in front of a pause or of the end, all of them if they are fewer than the limit.
  pub record IsReceived (before : Bytes) (arrivals : List Arrival) (r : Result Bytes × List Arrival)
      : Type 0 where
    pub response : Bytes
    pub later : Bytes
    pub rest : List Arrival
    pub runs : r ≡ (ok (before ++ response), rest)
    pub prefix : response ++ later ≡ stream arrivals
    pub all_of_it : length before + length response < limit → response ≡ stream arrivals
    pub bounded : length before + length response < limit + suc size

  receive_loop-IsReceived :
      (fuel : ℕ) (before : Bytes) (arrivals : List Arrival)
      → length before < limit + suc size
      → limit ≤ length before + fuel
      → IsReceived before arrivals (receive_loop limit (suc size) fuel before arrivals)
  unfolding receive_loop recv_from
  receive_loop-IsReceived zero before arrivals h f = record {
    response = [];
    later = stream arrivals;
    rest = arrivals;
    runs =
        let enough : ltb (length before) limit ≡ false = ground arith in
        rw (enough, append-nil before) refl;
    prefix = refl;
    all_of_it = λ few. absurd (omega arith);
    bounded = omega arith;
  }
  receive_loop-IsReceived (suc fuel) before arrivals h f =
      elim (Bool-cases (ltb (length before) limit)) [
        | inr full ↦ rw full record {
          response = [];
          later = stream arrivals;
          rest = arrivals;
          runs = rw (append-nil before) refl;
          prefix = refl;
          all_of_it = λ few. absurd (ground arith);
          bounded = omega arith;
        }
        | inl more ↦ rw more (by_arrivals (receive_loop-IsReceived fuel) arrivals (ground arith))
      ]
    where
      ended :
          (a : List Arrival) (rest : List Arrival)
          → [] ≡ stream a
          → IsReceived before a (ok before, rest)
      ended a rest e = record {
        response = [];
        later = [];
        rest = rest;
        runs = rw (append-nil before) refl;
        prefix = e;
        all_of_it = λ few. e;
        bounded = omega arith;
      }

      by_arrivals :
          ((next : Bytes) (a : List Arrival)
            → length next < limit + suc size
            → limit ≤ length next + fuel
            → IsReceived next a (receive_loop limit (suc size) fuel next a))
          → (a : List Arrival) → length before < limit
          → IsReceived before a (
              let (got, rest) = recv_or_end (suc size) a in
              if is_empty got
              then (ok before, rest)
              else receive_loop limit (suc size) fuel (before ++ got) rest)
      by_arrivals again [] small = ended [] [] refl
      by_arrivals again (pause ∷ rest) small = ended (pause ∷ rest) rest refl
      by_arrivals again (chunk b bs ∷ rest) small =
          let got = take (suc size) (b ∷ bs) in
          let left = drop (suc size) (b ∷ bs) in
          let sized : length got ≡ min (suc size) (suc (length bs)) =
            length-take (suc size) (b ∷ bs) in
          let longer : length (before ++ got) ≡ length before + length got =
            length-append before got in
          let r = again (before ++ got) (push left rest) (omega arith) (omega arith) in
          let cut : got ++ stream (push left rest) ≡ stream (chunk b bs ∷ rest) =
            (ap (λ t. got ++ t) (stream-push left rest) ∙ sym (append_assoc got left (stream rest)))
            ∙ ap (λ t. t ++ stream rest) (take-append-drop (suc size) (b ∷ bs)) in
          record {
            response = got ++ r.response;
            later = r.later;
            rest = r.rest;
            runs = r.runs ∙ ap (λ t. (ok t, r.rest)) (append_assoc before got r.response);
            prefix = append_assoc got r.response r.later ∙ ap (λ t. got ++ t) r.prefix ∙ cut;
            all_of_it = λ few.
                ap (λ t. got ++ t) (r.all_of_it (omega (arith, few, length-append got r.response)))
                ∙ cut;
            bounded = omega (arith, r.bounded, length-append got r.response);
          }

-- `receive` returns what arrives before a pause or the end of the stream, or a beginning of at least
-- 1048576 and less than 1114112 bytes of it.
pub receive-IsReceived :
    (arrivals : List Arrival) → IsReceived limit 65535 [] arrivals (receive arrivals)
unfolding receive
receive-IsReceived arrivals =
    receive_loop-IsReceived limit 65535 limit [] arrivals (omega arith) (omega arith)
