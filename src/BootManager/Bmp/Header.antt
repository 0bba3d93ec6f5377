-- ===== src/BootManager/Bmp/Header.antt =====
-- The header of a BMP file: which are accepted.
use uefi_game.Prelude.{
  ℕ, ◌+◌, ◌*◌, ◌≤◌, ◌<◌, ◌≡◌, ap, ◌⊎◌, inl, inr, true, false, List, arith, ◌==◌, Bool-cases, ==→eq,
  length, get_or, get_elem?-eq-get_or, ok,
}
use uefi_game.BootManager.Bmp.{u16_at, u32_at, is_supported}

-- The little-endian numbers at an offset.
abbrev pub word16 : List ℕ → ℕ → ℕ
word16 bytes i = get_or bytes i 0 + 256 * get_or bytes (i + 1) 0

abbrev pub word32 : List ℕ → ℕ → ℕ
word32 bytes i = word16 bytes i + 65536 * word16 bytes (i + 2)

pub record IsSupported (bytes : List ℕ) : Type 0 where
  pub signature : word16 bytes 0 ≡ 0x4d42
  pub header_size : word32 bytes 14 ≡ 0x7c
  pub bits_per_pixel : word16 bytes 28 ≡ 0x20
  pub compression_method : word32 bytes 30 ≡ 3
  pub red_mask : word32 bytes 54 ≡ 0x00ff0000
  pub green_mask : word32 bytes 58 ≡ 0x0000ff00
  pub blue_mask : word32 bytes 62 ≡ 0x000000ff
  pub alpha_mask : word32 bytes 66 ≡ 0xff000000

pub u16_at_lem :
    (bytes : List ℕ) (i : ℕ) → i + 1 < length bytes → u16_at bytes i ≡ ok (word16 bytes i)
unfolding u16_at
u16_at_lem bytes i h =
    rw (get_elem?-eq-get_or bytes i 0 (omega arith), get_elem?-eq-get_or bytes (i + 1) 0 h)

pub u32_at_lem :
    (bytes : List ℕ) (i : ℕ) → i + 3 < length bytes → u32_at bytes i ≡ ok (word32 bytes i)
unfolding u32_at
u32_at_lem bytes i h = rw (u16_at_lem bytes i (omega arith), u16_at_lem bytes (i + 2) (omega arith))

pub is_supported_lem :
    (bytes : List ℕ) → IsSupported bytes → 70 ≤ length bytes → is_supported bytes ≡ ok true
unfolding is_supported
is_supported_lem bytes s h = rw (
  u16_at_lem bytes 0 (omega arith),
  s.signature,
  u32_at_lem bytes 14 (omega arith),
  s.header_size,
  u16_at_lem bytes 28 (omega arith),
  s.bits_per_pixel,
  u32_at_lem bytes 30 (omega arith),
  s.compression_method,
  u32_at_lem bytes 66 (omega arith),
  s.alpha_mask,
  u32_at_lem bytes 54 (omega arith),
  s.red_mask,
  u32_at_lem bytes 58 (omega arith),
  s.green_mask,
  u32_at_lem bytes 62 (omega arith),
  s.blue_mask,
)

-- One of the tests: it fails, or the value is the one wanted.
test-cases : (v n : ℕ) → ((v == n) ≡ false) ⊎ (((v == n) ≡ true) × (v ≡ n))
test-cases v n = elim (Bool-cases (v == n)) [ inl e ↦ inr (e, ==→eq v n e) | inr e ↦ inl e ]

pub is_supported_reject :
    (bytes : List ℕ) → ¬ IsSupported bytes → 70 ≤ length bytes → is_supported bytes ≡ ok false
unfolding is_supported
is_supported_reject bytes other h =
    rw (u16_at_lem bytes 0 (omega arith)) (elim (test-cases (word16 bytes 0) 0x4d42) [
      | inl no_match ↦ rw no_match
      | inr (e0, s0) ↦ rw e0 (
          rw (u32_at_lem bytes 14 (omega arith)) (elim (test-cases (word32 bytes 14) 0x7c) [
            | inl no_match ↦ rw no_match
            | inr (e1, s1) ↦ rw e1 (
                rw (u16_at_lem bytes 28 (omega arith)) (elim (test-cases (word16 bytes 28) 0x20) [
                  | inl no_match ↦ rw no_match
                  | inr (e2, s2) ↦ rw e2 (
                      rw (u32_at_lem bytes 30 (omega arith))
                        (elim (test-cases (word32 bytes 30) 3) [
                          | inl no_match ↦ rw no_match
                          | inr (e3, s3) ↦ rw e3 (
                              rw (u32_at_lem bytes 66 (omega arith))
                                (elim (test-cases (word32 bytes 66) 0xff000000) [
                                  | inl no_match ↦ rw no_match
                                  | inr (e4, s4) ↦ rw e4 (
                                      rw (u32_at_lem bytes 54 (omega arith))
                                        (elim (test-cases (word32 bytes 54) 0x00ff0000) [
                                          | inl no_match ↦ rw no_match
                                          | inr (e5, s5) ↦ rw e5 (
                                              rw (u32_at_lem bytes 58 (omega arith))
                                                (elim (test-cases (word32 bytes 58) 0x0000ff00) [
                                                  | inl no_match ↦ rw no_match
                                                  | inr (e6, s6) ↦ rw e6 (
                                                      rw (u32_at_lem bytes 62 (omega arith))
                                                        (elim (test-cases (word32 bytes 62)
                                                          0x000000ff) [
                                                            | inl no_match ↦ ap ok no_match
                                                            | inr (e7, s7) ↦ absurd (
                                                              other (record {
                                                              signature = s0;
                                                              header_size = s1;
                                                              bits_per_pixel = s2;
                                                              compression_method = s3;
                                                              red_mask = s5;
                                                              green_mask = s6;
                                                              blue_mask = s7;
                                                              alpha_mask = s4;
                                                              }))
                                                          ]))
                                                ]))
                                        ]))
                                ]))
                        ]))
                ]))
          ]))
    ])
