-- ===== src/Base/Codec.antt =====
-- What the crate takes from serde_json and from the hex crate, which are not part of the repository.
use Prim.Native.Nat.{ℕ, ◌<◌}
use mathlib.Core.Path.{◌≡◌}
use mathlib.Core.Option.{Option, some}
use mathlib.Core.List.{List}
use udp2p.Base.Lists.{All}

-- `ByteRep` of src/utils/utils.rs for a type with derived `Serialize` and `Deserialize`:
-- `serde_json::to_string` and `serde_json::from_slice`. A value that could be written is read back.
pub record Codec {ℓ} (A : Type ℓ) : Type ℓ where
  pub as_bytes : A → Option (List ℕ)
  pub from_bytes : List ℕ → Option A
  pub from_bytes-as_bytes : (a : A) (v : List ℕ) → as_bytes a ≡ some v → from_bytes v ≡ some a
  pub as_bytes-IsByte : (a : A) (v : List ℕ) → as_bytes a ≡ some v → All (λ b. b < 256) v

-- `hex::encode` and `hex::decode`.
pub record Hex : Type 0 where
  pub encode : List ℕ → List ℕ
  pub decode : List ℕ → Option (List ℕ)
  pub decode-encode : (v : List ℕ) → All (λ b. b < 256) v → decode (encode v) ≡ some v
