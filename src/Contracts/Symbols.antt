-- ===== src/Contracts/Symbols.antt =====
-- client/xts_api.py, `resolve_symbol_smart`, `_apply_aliases` and `_lookup_exact_or_normalized`. The
-- aliases of the configuration and of the source are tables that are given, on ASCII texts.
use xts_multi_tennant.Prelude.{
  Bool, List, Option, Text, [], codes, drop, false, if◌then◌else◌, keep, leb, length, none, some,
  starts_with, strip, take, text_eq, upper, ◌&&◌, ◌-◌, ◌==◌, ◌||◌, ◌∷◌,
}
use xts_multi_tennant.Dicts.{lookup}

-- The prefixes of `PREFIX_STRIPPER`, with their colon.
unfoldable pub prefixes : List Text
prefixes =
    codes "MCXFO:"
    ∷ codes "MCX:"
    ∷ codes "NSECD:"
    ∷ codes "NSEFO:"
    ∷ codes "NSE:"
    ∷ codes "BSEFO:"
    ∷ codes "BSECD:"
    ∷ codes "BSE:"
    ∷ codes "NCDEX:"
    ∷ codes "MSEI:"
    ∷ codes "CDS:"
    ∷ []

-- `PREFIX_STRIPPER.sub('', s)`
unfoldable pub strip_prefix : List Text → Text → Text
strip_prefix [] s = s
strip_prefix (p ∷ ps) s =
    let others = strip_prefix ps s in if starts_with s p then drop (length p) s else others

-- `s.endswith(t)`
unfoldable pub ends_with : Text → Text → Bool
ends_with s t = leb (length t) (length s) && text_eq (drop (length s - length t) s) t

-- `[1-9]!` at the end.
unfoldable pub is_continuous : Text → Bool
is_continuous (c ∷ (d ∷ [])) = leb b'1' c && leb c b'9' && (d == b'!')
is_continuous _ = false

-- `SUFFIX_STRIPPER.sub('', s)`
unfoldable pub strip_suffix : Text → Text
unfolding ends_with is_continuous
strip_suffix s =
    let n = length s in
    if ends_with s (codes ".NS") || ends_with s (codes ".BO") || ends_with s (codes "FUT")
    then take (n - 3) s
    else if is_continuous (drop (n - 2) s)
    then take (n - 2) s
    else s

-- `[^A-Z0-9]` removed.
unfoldable pub alphanum_only : Text → Text
alphanum_only s = keep (λ c. leb b'A' c && leb c b'Z' || leb b'0' c && leb c b'9') s

-- `d[key]` for the first table that has the key.
unfoldable pub alias_of : List (List (Text × Text)) → Text → Option Text
unfolding lookup
alias_of [] name = none
alias_of (t ∷ ts) name =
    let later = alias_of ts name in elim (lookup name t) [ none ↦ later | some a ↦ some a ]

-- The configuration's table comes before the source's.
unfoldable pub apply_aliases : List (List (Text × Text)) → Text → Text
unfolding alias_of
apply_aliases tables name = elim (alias_of tables name) [ none ↦ name | some a ↦ a ]

unfoldable pub clean_symbol : Text → Text
unfolding strip_prefix strip_suffix prefixes
clean_symbol raw = strip_suffix (strip_prefix prefixes (strip (upper raw)))

unfoldable pub resolve_symbol_smart : List (List (Text × Text)) → Text → Text
unfolding clean_symbol alias_of alphanum_only
resolve_symbol_smart tables raw =
    let clean = clean_symbol raw in
    elim (alias_of tables clean) [
      | some a ↦ a
      | none ↦ elim (alias_of tables (alphanum_only clean)) [ some a ↦ a | none ↦ clean ]
    ]
