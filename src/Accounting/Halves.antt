-- ===== src/Accounting/Halves.antt =====
-- The number of an IPv6 address.
use uologin.Prelude.{
  ℕ, ◌≡◌, false, List, ◌++◌, length, take-append, drop-append, bit_xor_self, ap, append-nil, [],
  sym, ◌∙◌,
}
use uologin.External.{Platform, inet6}
use uologin.Accounting.{to_integer, read64, read_loop}

-- `Read64` reads the first eight bytes.
read64_eight : (s t : List ℕ) → length s ≡ 8 → read64 (s ++ t) ≡ read_loop 0 s
unfolding read64
read64_eight s t h = ap (read_loop 0) (take-append s t (sym h))

read64_exact : (s : List ℕ) → length s ≡ 8 → read64 s ≡ read_loop 0 s
read64_exact s h = ap read64 (sym (append-nil s)) ∙ read64_eight s [] h

module _ (P : Platform) where
  -- Two equal halves cancel each other out.
  pub to_integer-halves :
      (a : P.Address) (half : List ℕ)
      → P.is_null a ≡ false
      → P.family a ≡ inet6
      → P.is_v4_mapped a ≡ false
      → P.v6_bytes a ≡ half ++ half
      → length half ≡ 8
      → to_integer P a ≡ 0
  unfolding to_integer
  to_integer-halves a half n f m h l =
      rw (n, f, m, h, drop-append half half (sym l), read64_eight half half l, read64_exact half l)
        (bit_xor_self (read_loop 0 half))
