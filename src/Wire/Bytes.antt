-- ===== src/Wire/Bytes.antt =====
-- Numbers in memory, and reads through `BinaryMemory::buffer`. The host is little-endian.
use Prim.Native.Nat.{ℕ, zero, suc, ◌+◌, ◌*◌, ◌/◌, ◌%◌, ◌^◌, ◌<◌}
use frrpc.Prelude.{
  List, [], ◌∷◌, ◌++◌, Option, none, some, ◌≡◌, refl, sym, ap, arith, leb, length, take, drop,
  if◌then◌else◌, length-append, take-append, drop-append,
}

abbrev pub Bytes : Type 0
Bytes = List ℕ

-- The `w` bytes of a number.
unfoldable pub le_bytes : ℕ → ℕ → Bytes
le_bytes zero n = []
le_bytes (suc w) n = (n % 256) ∷ le_bytes w (n / 256)

unfoldable pub le_value : Bytes → ℕ
le_value [] = 0
le_value (b ∷ bs) = b + 256 * le_value bs

-- `n` bytes from `buffer(offset)`; `none` when they are not all in the buffer.
unfoldable pub slice : ℕ → ℕ → Bytes → Option Bytes
slice offset n bs =
    let rest = drop offset bs in if leb n (length rest) then some (take n rest) else none

-- `*(const T*)binary.buffer(offset)` for a `T` of `w` bytes.
unfoldable pub read : ℕ → ℕ → Bytes → Option ℕ
unfolding slice
read w offset bs = elim (slice offset w bs) [ none ↦ none | some xs ↦ some (le_value xs) ]

pub length-le_bytes : (w n : ℕ) → length (le_bytes w n) ≡ w
unfolding le_bytes
length-le_bytes zero n = refl
length-le_bytes (suc w) n = ap suc (length-le_bytes w (n / 256))

pub le_value-le_bytes_u16 : (n : ℕ) → n < 2 ^ 16 → le_value (le_bytes 2 n) ≡ n
unfolding le_bytes le_value
le_value-le_bytes_u16 n h = omega arith

pub le_value-le_bytes_u32 : (n : ℕ) → n < 2 ^ 32 → le_value (le_bytes 4 n) ≡ n
unfolding le_bytes le_value
le_value-le_bytes_u32 n h = omega arith

abbrev nil_of {ℓ} : (A : Type ℓ) → List A
nil_of A = []

drop-nil {ℓ} : {A : Type ℓ} (n : ℕ) → drop n [] ≡ nil_of A
drop-nil zero = refl
drop-nil (suc n) = refl

pub drop-add {ℓ} : {A : Type ℓ} (a b : ℕ) (xs : List A) → drop (a + b) xs ≡ drop b (drop a xs)
drop-add zero b xs = let e : zero + b ≡ b = omega arith in rw e
drop-add {A} (suc a) b [] =
    let e : suc a + b ≡ suc (a + b) = omega arith in rw e (sym (drop-nil {A = A} b))
drop-add (suc a) b (x ∷ xs) =
    let e : suc a + b ≡ suc (a + b) = omega arith in rw e (drop-add a b xs)

-- Behind a part `xs` of the buffer stands what follows it.
pub drop_next :
    (offset next : ℕ) (bs xs ys : Bytes)
    → drop offset bs ≡ xs ++ ys
    → next ≡ offset + length xs
    → drop next bs ≡ ys
drop_next offset next bs xs ys h e = rw (e, drop-add offset (length xs) bs, h) (drop-append xs ys)

pub slice_at :
    (offset n : ℕ) (bs xs ys : Bytes)
    → drop offset bs ≡ xs ++ ys
    → n ≡ length xs
    → slice offset n bs ≡ some xs
unfolding slice
slice_at offset n bs xs ys h e = rw (e, h) (ground (arith, length-append xs ys, take-append xs ys))

pub read_u16 :
    (offset n : ℕ) (bs ys : Bytes)
    → drop offset bs ≡ le_bytes 2 n ++ ys
    → n < 2 ^ 16
    → read 2 offset bs ≡ some n
unfolding read
read_u16 offset n bs ys h lt =
    rw (slice_at offset 2 bs (le_bytes 2 n) ys h (sym (length-le_bytes 2 n)), read)
      (ap some (le_value-le_bytes_u16 n lt))

pub read_u32 :
    (offset n : ℕ) (bs ys : Bytes)
    → drop offset bs ≡ le_bytes 4 n ++ ys
    → n < 2 ^ 32
    → read 4 offset bs ≡ some n
unfolding read
read_u32 offset n bs ys h lt =
    rw (slice_at offset 4 bs (le_bytes 4 n) ys h (sym (length-le_bytes 4 n)), read)
      (ap some (le_value-le_bytes_u32 n lt))
