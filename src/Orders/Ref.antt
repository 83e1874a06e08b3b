-- ===== src/Orders/Ref.antt =====
-- client/xts_api.py, `format_order_ref_chunk`: the identifiers of an order's chunks, clamped to the
-- broker's 50 characters.
pub mod Laws
use xts_multi_tennant.Prelude.{
  Bool, Text, [], all, false, if◌then◌else◌, leb, length, ltb, max, suc, take, zero, ℕ, ◌%◌, ◌&&◌,
  ◌++◌, ◌+◌, ◌-◌, ◌/◌, ◌==◌, ◌∷◌,
}

-- `str(n)`, on fuel `n + 1`.
unfoldable pub decimal_from : ℕ → ℕ → Text → Text
decimal_from zero n acc = acc
decimal_from (suc fuel) n acc =
    let rest = decimal_from fuel (n / 10) ((b'0' + n % 10) ∷ acc) in
    if ltb n 10 then (b'0' + n % 10) ∷ acc else rest

unfoldable pub decimal : ℕ → Text
unfolding decimal_from
decimal n = decimal_from (suc n) n []

unfoldable pub is_digit : ℕ → Bool
is_digit c = leb b'0' c && leb c b'9'

-- `_RETRY\d*` at the front, up to the end of the text.
unfoldable pub is_retry : Text → Bool
unfolding is_digit
is_retry (c0 ∷ c1 ∷ c2 ∷ c3 ∷ c4 ∷ c5 ∷ s) =
    c0 == b'_'
    && c1 == b'R'
    && c2 == b'E'
    && c3 == b'T'
    && c4 == b'R'
    && c5 == b'Y'
    && all is_digit s
is_retry _ = false

-- `re.search(r'(_RETRY\d*)$', base_ref)`, the empty text where nothing matches.
unfoldable pub retry_suffix : Text → Text
unfolding is_retry
retry_suffix [] = []
retry_suffix (c ∷ s) = if is_retry (c ∷ s) then c ∷ s else retry_suffix s

-- `f"_{chunk_idx}" if chunk_idx > 1 else ""`
unfoldable pub chunk_suffix : ℕ → Text
unfolding decimal
chunk_suffix idx = if ltb 1 idx then b'_' ∷ decimal idx else []

pub clamp : Text → Text → Text → ℕ → Text
clamp base retry chunk max_len =
    let combined = retry ++ chunk in
    let avail = max 1 (max_len - length combined) in
    take avail (take (length base - length retry) base) ++ combined

pub format_order_ref_chunk : Text → ℕ → ℕ → Text
unfolding chunk_suffix retry_suffix clamp
format_order_ref_chunk [] idx max_len = []
format_order_ref_chunk (c ∷ base) idx max_len =
    let chunk = chunk_suffix idx in
    if leb (length ((c ∷ base) ++ chunk)) max_len
    then (c ∷ base) ++ chunk
    else clamp (c ∷ base) (retry_suffix (c ∷ base)) chunk max_len
