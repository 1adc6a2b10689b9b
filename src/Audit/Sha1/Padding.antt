-- ===== src/Audit/Sha1/Padding.antt =====
-- The padded message fills whole blocks, and the words that the loops keep fit 32 bits.
use ses.Base.{
  ℕ, zero, suc, ◌+◌, ◌-◌, ◌*◌, ◌/◌, ◌%◌, ◌≤◌, ◌<◌, ◌≡◌, refl, List, ◌∷◌, ◌++◌, arith, length,
  length-append,
}
use ses.Audit.Sha1.{word_size, zeros, set_uint32, padded_length, pad}

length-zeros : (n : ℕ) → length (zeros n) ≡ n
length-zeros zero = refl
length-zeros (suc n) = omega (arith, length-zeros n)

-- The padded message is as long as `paddedLength` says: a multiple of 64 with room for the message, the
-- byte 0x80 and the eight bytes of its length, and less than a block more.
pub length-pad :
    (bytes : List ℕ)
    → (length (pad bytes) ≡ padded_length (length bytes))
      × (length (pad bytes) % 64 ≡ 0)
      × (length bytes + 9 ≤ length (pad bytes))
      × (length (pad bytes) < length bytes + 9 + 64)
unfolding pad
length-pad bytes =
    let n = length bytes in
    let gap = padded_length n - n - 9 in
    let tail = set_uint32 (n * 8 / word_size) ++ set_uint32 (n * 8 % word_size) in
    omega (
      arith,
      length-append bytes (0x80 ∷ (zeros gap ++ tail)),
      length-append (zeros gap) tail,
      length-zeros gap,
    )
