-- ===== src/Signature/Crypto.antt =====
-- `create_signature` and `verify_signature`. The four algorithms differ in the texts of their
-- errors and in which of `ring`'s calls can fail: an Ed25519 signature cannot.
use oxifed.Base.{ℕ, String, Result, ok, ◌>>=◌, map_err, fail_if, not, ◌⧺◌}
use oxifed.Signature.Types.{
  SignatureAlgorithm, rsa_sha256, rsa_pss_sha512, ecdsa_p256_sha256, ed25519, SignatureError,
  invalid_key_format, verification_failed, crypto_error, base64_error, Bytes, Crates,
}

abbrev key_label : SignatureAlgorithm → String
key_label rsa_sha256 = "RSA"
key_label rsa_pss_sha512 = "RSA"
key_label ecdsa_p256_sha256 = "ECDSA"
key_label ed25519 = "Ed25519"

abbrev signing_failed : SignatureAlgorithm → String
signing_failed rsa_sha256 = "RSA signing failed: "
signing_failed rsa_pss_sha512 = "RSA-PSS signing failed: "
signing_failed ecdsa_p256_sha256 = "Signing failed: "
signing_failed ed25519 = "Signing failed: "

module _ (crates : Crates) where
  open crates use {from_pkcs8, sign, verify, encode, decode}

  unfoldable pub create_signature :
      String → SignatureAlgorithm → Bytes → (rng : ℕ) → Result SignatureError String
  create_signature base alg key rng = do
    pair ←
        map_err (from_pkcs8 alg key)
          (λ e. invalid_key_format ("Invalid " ⧺ key_label alg ⧺ " key: " ⧺ e))
    bytes ← map_err (sign alg pair rng base) (λ e. crypto_error (signing_failed alg ⧺ e))
    ok (encode bytes)

  unfoldable pub verify_signature :
      String → String → SignatureAlgorithm → Bytes → Result SignatureError (Unit {0})
  verify_signature base signature alg key = do
    bytes ← map_err (decode signature) base64_error
    fail_if (not (verify alg key base bytes)) verification_failed
