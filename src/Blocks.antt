-- ===== src/Blocks.antt =====
-- What the writers of encrypt.go, sign_stream.go and signcrypt_seal.go have in common: a
-- bytes.Buffer of plaintext that is cut into blocks.
pub mod Cut
pub mod Layout
pub mod Writer
pub mod Reader
pub mod Closer
use saltpack.Base.{
  ℕ, zero, suc, Bool, true, false, not, ◌&&◌, List, length, ltb, ◌==◌, eq_bool, if◌then◌else◌,
}
use saltpack.Const.{Version, version1, version2, eq_version}
use saltpack.Errors.{Result, ok, panic, ◌>>◌, panic_if}
use saltpack.State.{St, and_then}

-- `checkEncryptBlockRead`, and the same code in `checkSignBlockRead`.
unfoldable pub check_encrypt_block_read : Version → Bool → ℕ → ℕ → ℕ → Result (Unit {0})
check_encrypt_block_read version is_final block_size plaintext_len buf_len = do
  panic_if (ltb block_size plaintext_len)
  panic_if (ltb plaintext_len block_size && ltb 0 buf_len)
  if eq_version version version1
      then panic_if (not (eq_bool is_final (plaintext_len == 0)))
      else if eq_version version version2
      then panic_if (is_final && not (buf_len == 0))
      else panic

unfoldable pub check_sign_block_read : Version → Bool → ℕ → ℕ → ℕ → Result (Unit {0})
unfolding check_encrypt_block_read
check_sign_block_read version is_final block_size chunk_len buf_len =
    check_encrypt_block_read version is_final block_size chunk_len buf_len

-- `for buffer.Len() > blockSize { block(false) }`. A round takes a byte at least from the buffer,
-- so that its length is enough fuel.
module _ {S : Type 0} (buffer : S → List ℕ) (block_size : ℕ) (block : St S (Unit {0})) where
  unfoldable pub drain : ℕ → St S (Unit {0})
  drain zero s = elim (ltb block_size (length (buffer s))) [
    | true ↦ (panic, s)
    | false ↦ (ok tt, s)
  ]
  drain (suc fuel) s = elim (ltb block_size (length (buffer s))) [
    | true ↦ and_then (block s).0 (block s).1 (λ _ t. drain fuel t)
    | false ↦ (ok tt, s)
  ]
