-- ===== src/Node/Key/Range.antt =====
-- `rand_in_range` of src/node/peer_key.rs: what it promises of the drawn key.
use udp2p.Base.{
  ℕ, zero, suc, ◌+◌, ◌*◌, ◌/◌, ◌%◌, dec_lt, ◌≤◌, ◌<◌, ◌≡◌, refl, ap, ◌∙◌, true, ◌&&◌, [], ◌∷◌, ok,
  panic, length, replicate, All, ltb, ◌==◌, arith,
}
use udp2p.Base.Table.{all_below, all_below_sound}
use udp2p.Node.Key.{
  Key, IsByte, IsKey, byte_leading_zeros, leading_zeros_from, leading_zeros, zero_first, modify_at,
  mark_bit, rand_in_range, fill, rand,
}

-- What the two masks do to a byte.
IsMarked : ℕ → ℕ → Type 0
IsMarked bit m = (byte_leading_zeros m ≡ bit) × (0 < m) × IsByte m

mark_table :
    all_below 8 (λ bit.
      all_below 256
        (λ b. let m = mark_bit bit b in (byte_leading_zeros m == bit) && (ltb 0 m && ltb m 256)))
    ≡ true
unfolding all_below byte_leading_zeros mark_bit
mark_table = refl

mark_bit_bounds : (bit b : ℕ) → bit < 8 → IsByte b → IsMarked bit (mark_bit bit b)
unfolding IsMarked
mark_bit_bounds bit b p q =
    let row = all_below_sound 8 _ bit mark_table p in
    let cell = all_below_sound 256 _ b row q in ground (arith, cell)

-- The first `n` bytes are cleared and the next is marked.
cleared :
    (n m bit : ℕ) (r : Key)
    → n < length r
    → bit < 8
    → All IsByte r
    → (k : Key) × (l : Key) × (zero_first n r ≡ ok k)
      × (modify_at n (mark_bit bit) k ≡ ok l)
      × (length l ≡ length r)
      × All IsByte l
      × (leading_zeros_from m l ≡ m + 8 * n + bit)
unfolding zero_first modify_at leading_zeros_from IsMarked
cleared n m bit [] h p v = absurd (omega arith)
cleared zero m bit (b ∷ r) h p v =
    let (zeros, pos, byte) = mark_bit_bounds bit b p v.0 in
    (b ∷ r, mark_bit bit b ∷ r, refl, refl, refl, (byte, v.1), ground arith)
cleared (suc n) m bit (b ∷ r) h p v =
    let (k, l, first, second, len, bytes, zeros) = cleared n (m + 8) bit r (omega arith) p v.1 in
    (0 ∷ k, 0 ∷ l, ground arith, ground arith, ap suc len, (omega arith, bytes), omega arith)

-- Below 256 `rand_in_range` returns, and its key has 32 bytes and exactly `idx` leading zero bits.
pub leading_zeros-rand_in_range :
    (idx : ℕ) (random : Key)
    → idx < 256
    → IsKey random
    → (k : Key) × (rand_in_range idx random ≡ ok k) × IsKey k × (leading_zeros k ≡ idx)
unfolding rand_in_range leading_zeros
leading_zeros-rand_in_range idx r h v =
    let (k, l, first, second, len, bytes, zeros) =
      cleared (idx / 8) 0 (idx % 8) r (omega (arith, v.0)) (omega arith) v.1 in
    (l, rw first second, (len ∙ v.0, bytes), omega (arith, zeros))

zero_first_short : (n : ℕ) (r : Key) → length r < n → zero_first n r ≡ panic
unfolding zero_first
zero_first_short zero r h = absurd (omega arith)
zero_first_short (suc n) [] h = refl
zero_first_short (suc n) (b ∷ r) h = rw (zero_first_short n r (omega arith))

zero_first_exact : (r : Key) → (k : Key) × (zero_first (length r) r ≡ ok k) × (length k ≡ length r)
unfolding zero_first
zero_first_exact [] = ([], refl, refl)
zero_first_exact (b ∷ r) = let (k, e, len) = zero_first_exact r in (0 ∷ k, rw e, ap suc len)

modify_at_short : (f : ℕ → ℕ) (k : Key) → modify_at (length k) f k ≡ panic
unfolding modify_at
modify_at_short f [] = refl
modify_at_short f (b ∷ k) = rw (modify_at_short f k)

-- From 256 on `rand_in_range` panics: the index of the marked byte is out of range.
pub rand_in_range_panics :
    (idx : ℕ) (random : Key) → 256 ≤ idx → IsKey random → rand_in_range idx random ≡ panic
unfolding rand_in_range
rand_in_range_panics idx r h v = elim (dec_lt 32 (idx / 8)) [
  | yes far ↦ rw (zero_first_short (idx / 8) r (omega (arith, v.0)))
  | no near ↦
      let (k, e, len) = zero_first_exact r in
      let at : idx / 8 ≡ length r = omega (arith, v.0) in rw (at, e, ← len) (modify_at_short _ k)
]

fill-IsKey :
    (draw : ℕ → ℕ) (round : ℕ) (k : Key)
    → ((i : ℕ) → IsByte (draw i))
    → (length (fill draw round k) ≡ length k) × All IsByte (fill draw round k)
unfolding fill
fill-IsKey draw round [] h = (refl, tt)
fill-IsKey draw round (b ∷ k) h =
    let (len, bytes) = fill-IsKey draw (suc round) k h in (ap suc len, (h round, bytes))

-- Bytes that are drawn make a key.
pub rand-IsKey : (draw : ℕ → ℕ) → ((i : ℕ) → IsByte (draw i)) → IsKey (rand draw)
unfolding rand
rand-IsKey draw h = let (len, bytes) = fill-IsKey draw 0 (replicate 32 0) h in (len ∙ refl, bytes)
