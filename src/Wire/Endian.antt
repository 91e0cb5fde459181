-- ===== src/Wire/Endian.antt =====
-- lib/rtnt/include/rtnt/common/utils.hpp, `endian::swap`: unsigned integers of `w` bytes, on a host
-- of either byte order.
use native.Mathlib.Nat.{pow-suc}
use rtype.Base.{
  ℕ, zero, suc, ◌+◌, ◌*◌, ◌/◌, ◌%◌, ◌^◌, ◌<◌, ◌≡◌, refl, sym, ap, ◌∙◌, ◌==◌, if◌then◌else◌, ==_iff,
  Bool-cases, inl, inr, List, [], ◌∷◌, reverse, reverse-reverse, length, length-reverse, All,
  All-reverse, arith,
}

-- `std::endian::native`
pub data Host : Type 0 where
  little big : Host

-- The bytes of a number, the least significant first.
abbrev pub le_bytes : ℕ → ℕ → List ℕ
le_bytes zero n = []
le_bytes (suc w) n = (n % 256) ∷ le_bytes w (n / 256)

abbrev pub of_le : List ℕ → ℕ
of_le [] = 0
of_le (b ∷ bs) = b + 256 * of_le bs

-- The object representation of an unsigned integer of `w` bytes, and the value it stands for.
pub to_mem : Host → ℕ → ℕ → List ℕ
to_mem little w n = le_bytes w n
to_mem big w n = reverse (le_bytes w n)

pub of_mem : Host → List ℕ → ℕ
of_mem little bs = of_le bs
of_mem big bs = of_le (reverse bs)

reversed : Host → ℕ → ℕ → ℕ
reversed little w n = of_mem little (reverse (to_mem little w n))
reversed big w n = n

pub swap : Host → ℕ → ℕ → ℕ
unfolding reversed
swap h w n = if w == 1 then n else reversed h w n

abbrev pub IsBytes : List ℕ → Type 0
IsBytes = All (λ b. b < 256)

length-le_bytes : (w n : ℕ) → length (le_bytes w n) ≡ w
length-le_bytes zero n = refl
length-le_bytes (suc w) n = ap suc (length-le_bytes w (n / 256))

le_bytes-IsBytes : (w n : ℕ) → IsBytes (le_bytes w n)
le_bytes-IsBytes zero n = tt
le_bytes-IsBytes (suc w) n = (omega arith, le_bytes-IsBytes w (n / 256))

of_le-le_bytes : (w n : ℕ) → n < 256 ^ w → of_le (le_bytes w n) ≡ n
of_le-le_bytes zero n h = omega arith
of_le-le_bytes (suc w) n h =
    let ih = of_le-le_bytes w (n / 256) (omega (arith, pow-suc 256 w)) in omega arith

le_bytes-of_le : (bs : List ℕ) → IsBytes bs → le_bytes (length bs) (of_le bs) ≡ bs
le_bytes-of_le [] h = refl
le_bytes-of_le (b ∷ bs) h = rw (
  let e : (b + 256 * of_le bs) % 256 ≡ b = omega (arith, h.0) in e,
  let e : (b + 256 * of_le bs) / 256 ≡ of_le bs = omega (arith, h.0) in e,
  le_bytes-of_le bs h.1,
)

pub length-to_mem : (h : Host) (w n : ℕ) → length (to_mem h w n) ≡ w
unfolding to_mem
length-to_mem little w n = length-le_bytes w n
length-to_mem big w n = length-reverse (le_bytes w n) ∙ length-le_bytes w n

pub of_mem-to_mem : (h : Host) (w n : ℕ) → n < 256 ^ w → of_mem h (to_mem h w n) ≡ n
unfolding to_mem of_mem
of_mem-to_mem little w n b = of_le-le_bytes w n b
of_mem-to_mem big w n b = rw reverse-reverse (of_le-le_bytes w n b)

-- What stands on the wire for a number: its bytes, the most significant first.
abbrev pub network_bytes : ℕ → ℕ → List ℕ
network_bytes w n = reverse (le_bytes w n)

pub single_byte : (h : Host) (n : ℕ) → to_mem h 1 n ≡ network_bytes 1 n
unfolding to_mem
single_byte little n = refl
single_byte big n = refl

reversed-bytes : (h : Host) (w n : ℕ) → to_mem h w (reversed h w n) ≡ network_bytes w n
unfolding reversed to_mem of_mem
reversed-bytes big w n = refl
reversed-bytes little w n =
    ap (λ (k : ℕ). le_bytes k (of_le (reverse (le_bytes w n))))
      (sym (length-le_bytes w n) ∙ sym (length-reverse (le_bytes w n)))
    ∙ le_bytes-of_le (reverse (le_bytes w n))
        (All-reverse (λ b. b < 256) (le_bytes w n) (le_bytes-IsBytes w n))

-- On either host a swapped number lies in memory in network order.
pub to_mem-swap : (h : Host) (w n : ℕ) → to_mem h w (swap h w n) ≡ network_bytes w n
unfolding swap
to_mem-swap h w n = elim (Bool-cases (w == 1)) [
  | inl one ↦ rw one (let e : w ≡ 1 = (==_iff w 1).0 one in rw e (single_byte h n))
  | inr wide ↦ rw wide (reversed-bytes h w n)
]

reversed-of_mem :
    (h : Host) (w n : ℕ) → n < 256 ^ w → reversed h w (of_mem h (network_bytes w n)) ≡ n
unfolding reversed of_mem to_mem
reversed-of_mem big w n b = rw reverse-reverse (of_le-le_bytes w n b)
reversed-of_mem little w n b =
    ap (λ (bs : List ℕ). of_le (reverse bs)) (reversed-bytes little w n)
    ∙ ap of_le (reverse-reverse (le_bytes w n))
    ∙ of_le-le_bytes w n b

single-of_mem : (h : Host) (n : ℕ) → n < 256 ^ 1 → of_mem h (network_bytes 1 n) ≡ n
unfolding of_mem
single-of_mem little n b = of_le-le_bytes 1 n b
single-of_mem big n b = of_le-le_bytes 1 n b

-- Network bytes that are read into memory and swapped give the number back, on either host.
pub swap-of_mem : (h : Host) (w n : ℕ) → n < 256 ^ w → swap h w (of_mem h (network_bytes w n)) ≡ n
unfolding swap
swap-of_mem h w n b = elim (Bool-cases (w == 1)) [
  | inl one ↦ let e : w ≡ 1 = (==_iff w 1).0 one in rw one (rw e (single-of_mem h n (rw e at b)))
  | inr wide ↦ rw wide (reversed-of_mem h w n b)
]

pub length-network_bytes : (w n : ℕ) → length (network_bytes w n) ≡ w
length-network_bytes w n = length-reverse (le_bytes w n) ∙ length-le_bytes w n
