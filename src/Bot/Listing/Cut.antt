-- ===== src/Bot/Listing/Cut.antt =====
-- What /filters shows of a long response.
use patrizio_bot.Prelude.{
  ℕ, ◌+◌, ◌-◌, ◌≡◌, ◌<◌, ◌≤◌, ap, true, false, [], ◌∷◌, ◌++◌, ltb, leb, arith,
}
use patrizio_bot.Text.{Text, codes, rune_length, byte_length}
use patrizio_bot.Bot.Listing.{broken, slice_bytes, truncate}

1≤rune_length : (c : ℕ) → 1 ≤ rune_length c
unfolding rune_length
1≤rune_length c = ground arith

slice_bytes-append :
    (pre : Text) (c : ℕ) (post : Text) (k : ℕ)
    → k < rune_length c
    → slice_bytes (byte_length pre + k) (pre ++ c ∷ post) ≡ pre ++ broken k
unfolding slice_bytes byte_length
slice_bytes-append [] c post k h =
    let over : leb (rune_length c) (0 + k) ≡ false = ground (arith, h) in
    let start : 0 + k ≡ k = omega arith in rw over (ap broken start)
slice_bytes-append (a ∷ pre) c post k h =
    let whole : leb (rune_length a) (rune_length a + byte_length pre + k) ≡ true = ground arith in
    let left : rune_length a + byte_length pre + k - rune_length a ≡ byte_length pre + k =
      omega arith in
    rw whole (rw left (ap (λ s. a ∷ s) (slice_bytes-append pre c post k h)))

-- A response over 50 bytes whose byte 47 falls `k` bytes into the code point `c` is shown as what is in
-- front of `c`, the `k` cut-off bytes, which are no code point, and "...".
pub truncate_split :
    (pre : Text) (c : ℕ) (post : Text) (k : ℕ)
    → byte_length pre + k ≡ 47
    → k < rune_length c
    → 50 < byte_length (pre ++ c ∷ post)
    → truncate (pre ++ c ∷ post) ≡ (pre ++ broken k) ++ codes "..."
unfolding truncate
truncate_split pre c post k at_47 inside long =
    let over : ltb 50 (byte_length (pre ++ c ∷ post)) ≡ true = ground (arith, long) in
    rw over (rw⁻¹ at_47 (ap (λ s. s ++ codes "...") (slice_bytes-append pre c post k inside)))
