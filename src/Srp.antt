-- ===== src/Srp.antt =====
-- packages/crypto/src/srp-client.ts: the SRP-6a client. Random bytes are arguments.
use Prim.Native.String
use nopass.Prelude.{
  ℕ, zero, suc, ◌+◌, ◌-◌, ◌*◌, ◌%◌, ◌≡◌, String, Bool, true, false, not, List, [], ◌∷◌, ◌++◌,
  Option, none, some, Result, ok, err, ◌>>=◌, ◌>>◌, guard, or_throw, if◌then◌else◌, ◌==◌, leb,
  length,
}
use Prim.Native.Nat.{bit_or, bit_xor}
use nopass.Platform.{Platform}
use nopass.Account.Kdf.{Derivation}
pub mod Powers
pub mod Numbers
pub mod Compare
pub mod Premaster
pub mod Laws
pub mod Login
use nopass.Srp.Numbers.{hex_to_bytes, bytes_to_hex, big_int_to_bytes, bytes_to_big_int, mod_pow}

-- The modulus `N`, the generator `G`, and the bytes of `N_HEX`, `N_BYTES` in number.
pub record Group : Type 0 where
  pub n : ℕ
  pub g : ℕ
  pub n_bytes : List ℕ

-- G_2048. `n_bytes` is `hexToBytes(N_HEX)`, whose first byte is not 0.
unfoldable pub g_2048 : Group
g_2048 =
    let n : ℕ =
      0xac6bdb41324a9a9bf166de5e1389582faf72b6651987ee07fc3192943db56050a37329cbb4a099ed8193e0757767a13dd52312ab4b03310dcd7f48a9da04fd50e8083969edb767b0cf6095179a163ab3661a05fbd5faaae82918a9962f0b93b855f97993ec975eeaa80d740adbf4ff747359d041d5c33ea71d281e446b14773bca97b43a23fb801676bd207a436c6481f1d2b9078717461a5b9d32e688f87748544523b524b0d57d5ea77a2775d2ecfa032cfbdbf52fb3786160279004e57ae6af874e7303ce53299ccc041c7bc308d82a5698f3a8d0c38271ae35f8e9dbfbb694b5c803d89f7ae435de236d525f54759b65e372fcd68ef20fa7111f9e4aff73 in
    record { n = n; g = 2; n_bytes = big_int_to_bytes n }

-- What is thrown: by `atob`, by `BigInt` of no digits, for a key that is 0 in the group, and where the
-- server's proof is not the one expected.
pub data SrpError : Type 0 where
  not_base64 not_a_number invalid_public server_proof_failed : SrpError

-- Two hex texts, each the list of its digits.
pub record PrivateSession : Type 0 where
  pub public_key : List ℕ
  pub secret : List ℕ

pub record SrpRegistrationMaterial : Type 0 where
  pub srp_salt : String
  pub srp_verifier : String

pub record SrpStep1Result : Type 0 where
  pub client_public_a : String
  pub private_session : PrivateSession

-- The closure `verifyServerProof` is kept as what it closes over, `A_bytes`, `m1Bytes` and `sBytes`.
pub record SrpStep2Result : Type 0 where
  pub client_proof_m1 : String
  pub session_key : List ℕ
  pub a_bytes : List ℕ
  pub m1_bytes : List ℕ

-- `new Uint8Array(n)`
abbrev pub zeros : ℕ → List ℕ
zeros zero = []
zeros (suc n) = 0 ∷ zeros n

-- `diff |= (expected[i] ?? 0) ^ (server[i] ?? 0)` for each byte that is expected.
unfoldable pub diff_from : ℕ → List ℕ → List ℕ → ℕ
diff_from diff [] server = diff
diff_from diff (e ∷ es) [] = diff_from (bit_or diff (bit_xor e 0)) es []
diff_from diff (e ∷ es) (s ∷ ss) = diff_from (bit_or diff (bit_xor e s)) es ss

module _ {K : Type 0} (env : Platform K) (kdf : Derivation) (group : Group) where
  unfoldable pub big_int : List ℕ → Result SrpError ℕ
  big_int bytes = or_throw (bytes_to_big_int bytes) not_a_number

  unfoldable pub hex_to_base64 : List ℕ → String
  hex_to_base64 hex = env.btoa (hex_to_bytes hex)

  unfoldable pub base64_to_hex : String → Result SrpError (List ℕ)
  base64_to_hex b64 = do bytes ← or_throw (env.atob b64) not_base64; ok (bytes_to_hex bytes)

  -- `K_CONST`, which the code computes once.
  unfoldable pub compute_k : Result SrpError ℕ
  unfolding big_int
  compute_k =
      let g_bytes = big_int_to_bytes group.g in
      big_int
        (kdf.sha256 (group.n_bytes ++ (zeros (length group.n_bytes - length g_bytes) ++ g_bytes)))

  unfoldable pub derive_x : List ℕ → String → String → Result SrpError ℕ
  unfolding big_int
  derive_x salt_hex identity password =
      let inner_hash =
        kdf.sha256 (kdf.encode_text (String.◌++◌ identity (String.◌++◌ ":" password))) in
      big_int (kdf.sha256 (hex_to_bytes salt_hex ++ inner_hash))

  -- `salt_bytes` is random.
  unfoldable pub generate_srp_registration :
      String → String → List ℕ → Result SrpError SrpRegistrationMaterial
  generate_srp_registration email master_password salt_bytes = do
    let salt_hex = bytes_to_hex salt_bytes
    x ← derive_x salt_hex email master_password
    let v = mod_pow group.g x group.n
    ok (record {
      srp_salt = hex_to_base64 salt_hex;
      srp_verifier = hex_to_base64 (bytes_to_hex (big_int_to_bytes v));
    })

  -- `a_bytes` is random.
  unfoldable pub srp_step1 : List ℕ → Result SrpError SrpStep1Result
  srp_step1 a_bytes = do
    a ← big_int a_bytes
    let a_hex = bytes_to_hex (big_int_to_bytes (mod_pow group.g a group.n))
    ok (record {
      client_public_a = hex_to_base64 a_hex;
      private_session = record { public_key = a_hex; secret = bytes_to_hex (big_int_to_bytes a) };
    })

  -- `((B - kgx) % N + N) % N`, where a remainder has the sign of the dividend.
  unfoldable pub sub_mod : ℕ → ℕ → ℕ
  sub_mod b kgx =
      if leb kgx b
      then ((b - kgx) % group.n + group.n) % group.n
      else (group.n - (kgx - b) % group.n) % group.n

  -- The premaster secret `S`.
  unfoldable pub premaster : ℕ → ℕ → ℕ → ℕ → ℕ → ℕ
  unfolding sub_mod
  premaster k a b u x =
      mod_pow (sub_mod b (k * mod_pow group.g x group.n % group.n)) (a + u * x) group.n

  -- The last part, from the keys of both sides.
  unfoldable pub finish_step2 :
      List ℕ → String → String → ℕ → ℕ → ℕ → Result SrpError SrpStep2Result
  finish_step2 salt_hex email master_password b a public_key = do
    guard (not (b % group.n == 0)) invalid_public
    x ← derive_x salt_hex email master_password
    let a_bytes = big_int_to_bytes public_key
    let b_bytes = big_int_to_bytes b
    u ← big_int (kdf.sha256 (a_bytes ++ b_bytes))
    k ← compute_k
    let s_bytes = big_int_to_bytes (premaster k a b u x)
    let m1_bytes = kdf.sha256 (a_bytes ++ (b_bytes ++ s_bytes))
    ok (record {
      client_proof_m1 = hex_to_base64 (bytes_to_hex m1_bytes);
      session_key = s_bytes;
      a_bytes = a_bytes;
      m1_bytes = m1_bytes;
    })

  unfoldable pub srp_step2 :
      String → String → String → String → PrivateSession → Result SrpError SrpStep2Result
  srp_step2 email master_password srp_salt_b64 server_public_b64 private_session = do
    salt_hex ← base64_to_hex srp_salt_b64
    b_hex ← base64_to_hex server_public_b64
    b ← big_int (hex_to_bytes b_hex)
    a ← big_int (hex_to_bytes private_session.secret)
    public_key ← big_int (hex_to_bytes private_session.public_key)
    finish_step2 salt_hex email master_password b a public_key

  unfoldable pub verify_server_proof : SrpStep2Result → String → Result SrpError (Unit {0})
  unfolding base64_to_hex diff_from
  verify_server_proof step2 server_m2_b64 = do
    let expected_m2 = kdf.sha256 (step2.a_bytes ++ (step2.m1_bytes ++ step2.session_key))
    hex ← base64_to_hex server_m2_b64
    let server_m2 = hex_to_bytes hex
    let diff = if length server_m2 == length expected_m2 then 0 else 1
    guard (diff_from diff expected_m2 server_m2 == 0) server_proof_failed
