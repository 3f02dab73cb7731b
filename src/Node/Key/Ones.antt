-- ===== src/Node/Key/Ones.antt =====
-- `leading_ones` of src/node/peer_key.rs: where it counts the leading one bits and where it does not.
use udp2p.Base.{
  ℕ, zero, suc, ◌+◌, ◌*◌, ◌<◌, ◌≡◌, refl, ◌≢◌, true, not, ◌||◌, [], ◌∷◌, ◌++◌, replicate, ◌==◌, leb,
  ap, ◌∙◌, arith,
}
use udp2p.Base.Table.{all_below, all_below_sound}
use udp2p.Node.Key.{Key, byte_leading_ones, leading_ones_from, leading_ones}

ones_table : all_below 256 (λ b. leb 255 b || not (byte_leading_ones b == 8)) ≡ true
unfolding all_below byte_leading_ones
ones_table = refl

byte_leading_ones-ne : (b : ℕ) → b < 255 → byte_leading_ones b ≢ 8
byte_leading_ones-ne b h = ground (arith, all_below_sound 256 _ b ones_table (omega arith))

byte_leading_ones_full : byte_leading_ones 255 ≡ 8
unfolding byte_leading_ones
byte_leading_ones_full = refl

-- A full byte counts eight.
ones_full :
    (n full : ℕ) (rest : Key)
    → leading_ones_from n (replicate full 255 ++ rest) ≡ leading_ones_from (n + 8 * full) rest
unfolding leading_ones_from
ones_full n zero rest =
    ap (λ (k : ℕ). leading_ones_from k rest) {x = n} {y = n + 8 * 0} (omega arith)
ones_full n (suc full) rest = rw byte_leading_ones_full (
    ones_full (n + 8) full rest
    ∙ ap (λ (k : ℕ). leading_ones_from k rest) {x = n + 8 + 8 * full} {y = n + 8 * suc full}
        (omega arith))

ones_stop :
    (n b : ℕ) (rest : Key)
    → 0 < b
    → b < 255
    → leading_ones_from n (b ∷ rest) ≡ n + byte_leading_ones b
unfolding leading_ones_from
ones_stop n b rest p q = ground (arith, byte_leading_ones-ne b q)

-- `leading_ones` after full bytes: a byte that is neither 0 nor 255 ends the count as it should; a
-- zero byte does not end it, though no bit of it is set; and at the key's end the count is thrown
-- away, so the key of all ones has 0 leading ones.
pub leading_ones_lem :
    (full b : ℕ) (rest : Key)
    → 0 < b
    → b < 255
    → (leading_ones (replicate full 255 ++ b ∷ rest) ≡ 8 * full + byte_leading_ones b)
      × (leading_ones (replicate full 255 ++ 0 ∷ b ∷ rest) ≡ 8 * full + byte_leading_ones b)
      × (leading_ones (replicate full 255 ++ []) ≡ 0)
unfolding leading_ones leading_ones_from
leading_ones_lem full b rest p q =
    let stop = ones_stop (0 + 8 * full) b rest p q in
    (
      omega (arith, ones_full 0 full (b ∷ rest), stop),
      omega (arith, ones_full 0 full (0 ∷ b ∷ rest), stop),
      ones_full 0 full [],
    )
