-- ===== src/Corpus/Normalize.antt =====
-- `normalize` of normalize-corpus-flags.py.
pub mod Laws
use lighttpd_fuzz.Base.{[], ◌∷◌, not, ◌&&◌, leb, ◌==◌, bit_and, if◌then◌else◌}
use lighttpd_fuzz.Base.Bytes.{Bytes}
use lighttpd_fuzz.Corpus.Packets.{valid_multipacket}

unfoldable pub normalize : Bytes → Bytes
normalize [] = []
normalize (flags ∷ rest) =
    if leb flags 0x07
    then (if not (bit_and flags 0x02 == 0) && not (valid_multipacket rest)
        then 0 ∷ flags ∷ rest
        else bit_and flags 0x07 ∷ rest)
    else 0 ∷ flags ∷ rest
