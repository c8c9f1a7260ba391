-- ===== src/Envelope/Legacy.antt =====
-- packages/crypto/src/aes-gcm.ts: version 1 items, authenticated by an HMAC over iv and ciphertext,
-- and plain byte encryption. The random iv is an argument; "no additional data" is the empty list.
use nopass.Prelude.{ℕ, List, [], ◌++◌, Result, ◌>>=◌, ◌>>◌, guard, or_throw}
use nopass.Types.Vault.{VaultItemPlaintext, EncryptedBlob}
use nopass.Errors.{Error, mac_failed, cipher_failed, invalid_json}
use nopass.Platform.{Platform, to_base64, from_base64}

module _ {K : Type 0} (env : Platform K) where
  -- `JSON.parse(new TextDecoder().decode(bytes))`
  abbrev pub parse_item : List ℕ → Result Error VaultItemPlaintext
  parse_item bytes = or_throw (env.parse_json (env.decode_text bytes)) invalid_json

  unfoldable pub encrypt_item : VaultItemPlaintext → K → K → List ℕ → EncryptedBlob
  encrypt_item plaintext enc_key mac_key iv =
      let ciphertext = env.aes_encrypt enc_key iv [] (env.encode_text (env.stringify plaintext)) in
      record {
        blob = to_base64 env ciphertext;
        blob_iv = to_base64 env iv;
        blob_mac = to_base64 env (env.hmac_sign mac_key (iv ++ ciphertext));
      }

  unfoldable pub decrypt_item : EncryptedBlob → K → K → Result Error VaultItemPlaintext
  decrypt_item encrypted enc_key mac_key = do
    iv ← from_base64 env encrypted.blob_iv
    ciphertext ← from_base64 env encrypted.blob
    mac ← from_base64 env encrypted.blob_mac
    guard (env.hmac_verify mac_key mac (iv ++ ciphertext)) mac_failed
    plaintext ← or_throw (env.aes_decrypt enc_key iv [] ciphertext) cipher_failed
    parse_item plaintext

  unfoldable pub encrypt_bytes : List ℕ → K → List ℕ → EncryptedBlob
  encrypt_bytes plaintext key iv = record {
    blob = to_base64 env (env.aes_encrypt key iv [] plaintext);
    blob_iv = to_base64 env iv;
    blob_mac = "";
  }

  unfoldable pub decrypt_bytes : EncryptedBlob → K → Result Error (List ℕ)
  decrypt_bytes encrypted key = do
    iv ← from_base64 env encrypted.blob_iv
    ciphertext ← from_base64 env encrypted.blob
    or_throw (env.aes_decrypt key iv [] ciphertext) cipher_failed
