-- ===== src/Config/Damage.antt =====
-- What src/config.c does with a saved record that is damaged in the flash.
use molewire.Base.{
  ℕ, ◌<◌, ◌≡◌, ◌≢◌, ◌⊎◌, inl, inr, refl, arith, false, Bool-cases, Bytes, word_at, ◌==◌,
}
use molewire.Config.Storage.{
  config_magic, at_crc32, v1_at_crc32, put_byte, crc32, Baked, config_defaults, migrated,
  config_load, sealed, config_save,
}
use molewire.Config.Checksum.{crc32-tells}
use molewire.Config.StorageLaws.{word_at-agree, saved, saved-crc}

-- A record that was saved and then damaged in one byte before its checksum.
abbrev pub damaged : Bytes → ℕ → ℕ → Bytes
damaged flash at b = put_byte flash at b

saved-bytes : (cfg flash : Bytes) → ((j : ℕ) → cfg j < 256) → (j : ℕ) → saved cfg flash j < 256
unfolding config_save sealed
saved-bytes cfg flash m j = let here = m j in ground arith

-- A record whose checksum does not fit is not taken for a current one.
config_load-unfit :
    (w : Baked) (f : Bytes)
    → (crc32 f at_crc32 == word_at f at_crc32) ≡ false
    → (config_load w f ≡ config_defaults w)
      ⊎ ((crc32 f v1_at_crc32 ≡ word_at f v1_at_crc32) × (config_load w f ≡ migrated w f))
unfolding config_load
config_load-unfit w f wrong = elim (Bool-cases (word_at f 0 == config_magic)) [
  | inr foreign ↦ inl (rw foreign refl)
  | inl ours ↦ elim (Bool-cases (crc32 f v1_at_crc32 == word_at f v1_at_crc32)) [
    | inl old ↦ inr (ground arith, rw (ours, wrong, old) refl)
    | inr none_fits ↦ inl (rw (ours, wrong, none_fits) refl)
  ]
]

-- If one byte before the checksum of a saved record of bytes changes in the flash, the record is not
-- taken for a current one: the defaults are loaded, or, if the checksum of version 1.0 should fit,
-- what that version's fields hold.
pub config_load-damaged :
    (w : Baked) (cfg flash : Bytes) (at b : ℕ)
    → ((j : ℕ) → cfg j < 256)
    → at < at_crc32
    → b < 256
    → saved cfg flash at ≢ b
    → let f = damaged (saved cfg flash) at b in
      (config_load w f ≡ config_defaults w)
      ⊎ ((crc32 f v1_at_crc32 ≡ word_at f v1_at_crc32) × (config_load w f ≡ migrated w f))
config_load-damaged w cfg flash at b m low k other =
    let p = saved cfg flash in
    let f = damaged p at b in
    let tells =
      crc32-tells p f at at_crc32 (saved-bytes cfg flash m)
        (λ j. (let here = saved-bytes cfg flash m j in ground arith)) (λ j ne. ground arith)
        (λ e. other (ground arith)) low in
    let word = word_at-agree f p at_crc32 (λ j a c. ground arith) in
    let right = saved-crc cfg flash in config_load-unfit w f (ground arith)
