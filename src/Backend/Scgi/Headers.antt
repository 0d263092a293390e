-- ===== src/Backend/Scgi/Headers.antt =====
-- `_parse_scgi_headers` of backend-responder.py.
use lighttpd_fuzz.Base.{List, [], ◌∷◌, ◌++◌, ◌==◌, if◌then◌else◌, Result, ok, err, value_error}
use lighttpd_fuzz.Base.Bytes.{Bytes}
use lighttpd_fuzz.Base.Text.{Text, put}

-- `data.split(b"\0")`, over what the field holds so far.
unfoldable pub split_fields : Bytes → Bytes → List Bytes
split_fields field [] = field ∷ []
split_fields field (b ∷ bs) =
    let ended = field ∷ split_fields [] bs in
    let longer = split_fields (field ++ b ∷ []) bs in if b == 0 then ended else longer

-- The last field, unless it is empty.
abbrev pub last_field : Bytes → List Bytes
last_field [] = []
last_field (b ∷ bs) = (b ∷ bs) ∷ []

-- `if fields and not fields[-1]: fields.pop()`
unfoldable pub pop_empty : List Bytes → List Bytes
pop_empty [] = []
pop_empty (field ∷ []) = last_field field
pop_empty (field ∷ next ∷ rest) = field ∷ pop_empty (next ∷ rest)

-- The loop over the pairs of fields; a field without a partner is what the test of the length refuses.
unfoldable pub pair_fields : List Bytes → List (Text × Bytes) → Result (List (Text × Bytes))
pair_fields [] result = ok result
pair_fields (name ∷ []) result = err (value_error "invalid SCGI headers")
pair_fields (name ∷ value ∷ fields) result = pair_fields fields (put name value result)

unfoldable pub parse_scgi_headers : Bytes → Result (List (Text × Bytes))
parse_scgi_headers content = pair_fields (pop_empty (split_fields [] content)) []
