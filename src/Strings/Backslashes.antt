-- ===== src/Strings/Backslashes.antt =====
-- What `convert_raw_string` of src/utf8.cpp makes of backslashes.
use eople.Base.{ℕ, zero, suc, ◌≡◌, ◌≢◌, refl, [], ◌∷◌, arith, replicate}
use eople.Strings.{backslash, replace_from, replace_all, convert_raw_string}

pass-others :
    (c r k : ℕ)
    → c ≢ backslash
    → replace_all c r (replicate (suc k) backslash) ≡ replicate (suc k) backslash
unfolding replace_all replace_from
pass-others c r k h = go k
  where
    go :
        (k : ℕ)
        → replace_from c r backslash (replicate k backslash) ≡ backslash ∷ replicate k backslash
    go zero = refl
    go (suc k) = ground (arith, go k)

pass-backslashes : (k : ℕ) → replace_all 92 92 (replicate (suc k) backslash) ≡ backslash ∷ []
unfolding replace_all replace_from
pass-backslashes k = go k
  where
    go : (k : ℕ) → replace_from 92 92 backslash (replicate k backslash) ≡ backslash ∷ []
    go zero = refl
    go (suc k) = go k

-- Any number of backslashes becomes a single one, where an even number of them would stand for half
-- as many.
pub convert_raw_string-backslashes :
    (k : ℕ) → convert_raw_string (replicate (suc k) backslash) ≡ backslash ∷ []
unfolding convert_raw_string
convert_raw_string-backslashes k =
    let n = pass-others 110 10 k (omega arith) in
    let t = pass-others 116 9 k (omega arith) in
    let r = pass-others 114 13 k (omega arith) in
    let b = pass-others 98 8 k (omega arith) in
    let f = pass-others 102 12 k (omega arith) in
    let quotes = pass-others 39 39 0 (omega arith) in
    let quote = pass-others 34 34 0 (omega arith) in
    rw (n, t, r, b, f, pass-backslashes k, quotes) quote
