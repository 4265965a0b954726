-- ===== src/Sha256/Tests.antt =====
-- The digests of the standard's two short messages.
use libromx.Prelude.{[], ◌∷◌, ◌≡◌, refl}
use libromx.Bytes.{Bytes}
use libromx.Sha256.{
  sha256, sha256_init, sha256_update, sha256_finish, transform, length_bytes, digest_bytes,
}

abbrev abc_digest : Bytes
abc_digest =
    0xba ∷ 0x78 ∷ 0x16 ∷ 0xbf ∷ 0x8f ∷ 0x01 ∷ 0xcf ∷ 0xea ∷ 0x41 ∷ 0x41 ∷ 0x40 ∷ 0xde ∷ 0x5d ∷ 0xae
    ∷ 0x22 ∷ 0x23 ∷ 0xb0 ∷ 0x03 ∷ 0x61 ∷ 0xa3 ∷ 0x96 ∷ 0x17 ∷ 0x7a ∷ 0x9c ∷ 0xb4 ∷ 0x10 ∷ 0xff
    ∷ 0x61 ∷ 0xf2 ∷ 0x00 ∷ 0x15 ∷ 0xad ∷ []

sha256_abc : sha256 (0x61 ∷ 0x62 ∷ 0x63 ∷ []) ≡ abc_digest
unfolding sha256 sha256_init sha256_update sha256_finish transform length_bytes digest_bytes
sha256_abc = refl
