-- ===== src/Config/StorageLaws.antt =====
-- What src/config.c loads after it saved.
use molewire.Base.{
  ℕ, zero, suc, ◌+◌, ◌%◌, ◌^◌, ◌≤◌, ◌<◌, ◌≡◌, ◌⊎◌, inl, inr, refl, sym, ◌∙◌, ap, arith, true, Bytes,
  word_at, bit_xor,
}
use native.Mathlib.Decide.{dec_lt}
use molewire.Config.Storage.{
  config_magic, at_crc32, config_size, crc_bits, crc_bytes, crc32, put_word, Baked, config_load,
  sealed, config_save,
}

-- The checksum reads only the bytes that it is over.
pub crc_bytes-agree :
    (left i : ℕ) (p q : Bytes) (crc : ℕ)
    → ((j : ℕ) → i ≤ j → j < i + left → p j ≡ q j)
    → crc_bytes left i p crc ≡ crc_bytes left i q crc
unfolding crc_bytes
crc_bytes-agree zero i p q crc h = refl
crc_bytes-agree (suc left) i p q crc h =
    crc_bytes-agree left (i + 1) p q (crc_bits 8 (bit_xor crc (p i)))
      (λ j a b. h j (omega arith) (omega arith))
    ∙ ap (λ x. crc_bytes left (i + 1) q (crc_bits 8 (bit_xor crc x)))
        (h i (omega arith) (omega arith))

pub crc32-agree :
    (len : ℕ) (p q : Bytes) → ((j : ℕ) → j < len → p j ≡ q j) → crc32 p len ≡ crc32 q len
unfolding crc32
crc32-agree len p q h =
    ap (λ x. bit_xor x 0xFFFFFFFF % 2 ^ 32)
      (crc_bytes-agree len 0 p q 0xFFFFFFFF (λ j a b. h j (omega arith)))

crc32-lt : (p : Bytes) (len : ℕ) → crc32 p len < 2 ^ 32
unfolding crc32
crc32-lt p len = omega arith

put_word-lt : (p : Bytes) (i v j : ℕ) → j < i → put_word p i v j ≡ p j
put_word-lt p i v j h = ground arith

word_at-put_word : (p : Bytes) (i v : ℕ) → v < 2 ^ 32 → word_at (put_word p i v) i ≡ v
word_at-put_word p i v h = ground arith

abbrev pub saved : Bytes → Bytes → Bytes
saved cfg flash = (config_save true cfg flash).1

saved-sealed : (cfg flash : Bytes) (j : ℕ) → j < config_size → saved cfg flash j ≡ sealed cfg j
unfolding config_save
saved-sealed cfg flash j h = ground arith

pub word_at-agree :
    (p q : Bytes) (i : ℕ) → ((j : ℕ) → i ≤ j → j < i + 4 → p j ≡ q j) → word_at p i ≡ word_at q i
word_at-agree p q i h = omega (
  arith,
  h i (omega arith) (omega arith),
  h (i + 1) (omega arith) (omega arith),
  h (i + 2) (omega arith) (omega arith),
  h (i + 3) (omega arith) (omega arith),
)

sealed-magic : (cfg : Bytes) → word_at (sealed cfg) 0 ≡ config_magic
unfolding sealed
sealed-magic cfg = refl

sealed-crc : (cfg : Bytes) → word_at (sealed cfg) at_crc32 ≡ crc32 (sealed cfg) at_crc32
unfolding sealed
sealed-crc cfg =
    let p = put_word cfg 0 config_magic in
    word_at-put_word p at_crc32 (crc32 p at_crc32) (crc32-lt p at_crc32)
    ∙ crc32-agree at_crc32 p (put_word p at_crc32 (crc32 p at_crc32))
        (λ j h. sym (put_word-lt p at_crc32 (crc32 p at_crc32) j h))

sealed-same : (cfg : Bytes) (j : ℕ) → (j < 4) ⊎ ((at_crc32 ≤ j) ⊎ (sealed cfg j ≡ cfg j))
unfolding sealed
sealed-same cfg j = elim (dec_lt j 4) [
  | yes p ↦ inl p
  | no p ↦ elim (dec_lt j at_crc32) [
    | no q ↦ inr (inl (omega arith))
    | yes q ↦ inr (inr (ground arith))
  ]
]

pub saved-crc :
    (cfg flash : Bytes) → crc32 (saved cfg flash) at_crc32 ≡ word_at (saved cfg flash) at_crc32
saved-crc cfg flash =
    let f = saved cfg flash in
    crc32-agree at_crc32 f (sealed cfg) (λ j h. saved-sealed cfg flash j (omega arith))
    ∙ sym (sealed-crc cfg)
    ∙ sym (word_at-agree f (sealed cfg) at_crc32 (λ j a b. saved-sealed cfg flash j (omega arith)))

saved-accepted : (w : Baked) (cfg flash : Bytes) → config_load w (saved cfg flash) ≡ saved cfg flash
unfolding config_load
saved-accepted w cfg flash =
    let f = saved cfg flash in
    let magic =
      word_at-agree f (sealed cfg) 0 (λ j a b. saved-sealed cfg flash j (omega arith))
      ∙ sealed-magic cfg in
    let sum = saved-crc cfg flash in ground arith

-- Once a record was written to flash it is loaded as it was written, whatever the flash held: with the
-- magic and the checksum that saving set, and all else as it was in memory.
pub config_load-config_save :
    (w : Baked) (cfg flash : Bytes) (j : ℕ)
    → j < config_size
    → let saving = config_save true cfg flash in
      let loaded = config_load w saving.1 in
      (loaded j ≡ saving.0 j) × ((j < 4) ⊎ ((at_crc32 ≤ j) ⊎ (loaded j ≡ cfg j)))
unfolding config_save
config_load-config_save w cfg flash j h =
    let here : config_load w (saved cfg flash) j ≡ sealed cfg j =
      ap (λ f. f j) (saved-accepted w cfg flash) ∙ saved-sealed cfg flash j h in
    (
      here,
      elim (sealed-same cfg j) [
        | inl front ↦ inl front
        | inr (inl behind) ↦ inr (inl behind)
        | inr (inr same) ↦ inr (inr (here ∙ same))
      ],
    )
