-- ===== src/Common/Bytes.antt =====
-- Packed little-endian data: a number in a given count of bytes, and a sequence of fields.
use Prim.Native.Nat.{ℕ, zero, suc, ◌+◌, ◌*◌, ◌/◌, ◌%◌, ◌^◌, ◌<◌}
use mathlib.Core.Path.{◌≡◌, refl, ap}
use mathlib.Core.List.{List, [], ◌∷◌, ◌++◌, append_assoc}
use native.Mathlib.Nat.{pow-suc}
use native.Mathlib.Omega.{arith}
use my_diffbot.Common.Lists.{
  length, take, drop, length-append, take-append_exact, drop-append_exact, IsBytes, All-append,
}

unfoldable pub le_bytes : ℕ → ℕ → List ℕ
le_bytes zero x = []
le_bytes (suc n) x = (x % 256) ∷ le_bytes n (x / 256)

unfoldable pub of_le_bytes : List ℕ → ℕ
of_le_bytes [] = 0
of_le_bytes (b ∷ rest) = b + 256 * of_le_bytes rest

pub length-le_bytes : (n x : ℕ) → length (le_bytes n x) ≡ n
unfolding le_bytes
length-le_bytes zero x = refl
length-le_bytes (suc n) x = ap suc (length-le_bytes n (x / 256))

pub le_bytes-IsBytes : (n x : ℕ) → IsBytes (le_bytes n x)
unfolding le_bytes
le_bytes-IsBytes zero x = tt
le_bytes-IsBytes (suc n) x = (omega arith, le_bytes-IsBytes n (x / 256))

pub of_le_bytes-le_bytes : (n x : ℕ) → x < 256 ^ n → of_le_bytes (le_bytes n x) ≡ x
unfolding le_bytes of_le_bytes
of_le_bytes-le_bytes zero x h = omega arith
of_le_bytes-le_bytes (suc n) x h =
    omega (arith, of_le_bytes-le_bytes n (x / 256) (omega (arith, pow-suc 256 n)))

-- A layout lists the sizes of the fields of a packed struct.
abbrev pub Layout : Type 0
Layout = List ℕ

abbrev pub size_of : Layout → ℕ
size_of [] = 0
size_of (n ∷ ns) = n + size_of ns

-- The values of the fields as bytes, and the values read off the first bytes of a payload.
unfoldable pub pack : Layout → List ℕ → List ℕ
unfolding le_bytes
pack [] values = []
pack (n ∷ ns) [] = le_bytes n 0 ++ pack ns []
pack (n ∷ ns) (v ∷ vs) = le_bytes n v ++ pack ns vs

unfoldable pub unpack : Layout → List ℕ → List ℕ
unfolding of_le_bytes
unpack [] bytes = []
unpack (n ∷ ns) bytes = of_le_bytes (take n bytes) ∷ unpack ns (drop n bytes)

-- One value for each field, each of its size.
abbrev pub Holds : Layout → List ℕ → Type 0
Holds [] [] = Unit {0}
Holds [] (v ∷ vs) = ⊥
Holds (n ∷ ns) [] = ⊥
Holds (n ∷ ns) (v ∷ vs) = (v < 256 ^ n) × Holds ns vs

pub length-pack : (ns : Layout) (vs : List ℕ) → length (pack ns vs) ≡ size_of ns
unfolding pack
length-pack [] vs = refl
length-pack (n ∷ ns) [] =
    omega (arith, length-append (le_bytes n 0) (pack ns []), length-le_bytes n 0, length-pack ns [])
length-pack (n ∷ ns) (v ∷ vs) =
    omega (arith, length-append (le_bytes n v) (pack ns vs), length-le_bytes n v, length-pack ns vs)

pub pack-IsBytes : (ns : Layout) (vs : List ℕ) → IsBytes (pack ns vs)
unfolding pack
pack-IsBytes [] vs = tt
pack-IsBytes (n ∷ ns) [] =
    All-append (λ b. b < 256) (le_bytes n 0) (pack ns []) (le_bytes-IsBytes n 0)
      (pack-IsBytes ns [])
pack-IsBytes (n ∷ ns) (v ∷ vs) =
    All-append (λ b. b < 256) (le_bytes n v) (pack ns vs) (le_bytes-IsBytes n v)
      (pack-IsBytes ns vs)

-- Reading back what was written, whatever follows.
pub unpack-pack :
    (ns : Layout) (vs rest : List ℕ) → Holds ns vs → unpack ns (pack ns vs ++ rest) ≡ vs
unfolding pack unpack
unpack-pack [] [] rest h = refl
unpack-pack [] (v ∷ vs) rest h = absurd h
unpack-pack (n ∷ ns) [] rest h = absurd h
unpack-pack (n ∷ ns) (v ∷ vs) rest (hv, h) =
    let len : n ≡ length (le_bytes n v) = omega (arith, length-le_bytes n v) in
    rw (
      append_assoc (le_bytes n v) (pack ns vs) rest,
      take-append_exact n (le_bytes n v) (pack ns vs ++ rest) len,
      drop-append_exact n (le_bytes n v) (pack ns vs ++ rest) len,
      of_le_bytes-le_bytes n v hv,
      unpack-pack ns vs rest h,
    )
