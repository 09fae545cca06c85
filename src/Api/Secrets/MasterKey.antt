-- ===== src/Api/Secrets/MasterKey.antt =====
-- crates/gum-api/src/secret_store.rs: parsing the master key of the secret store. The decoders of
-- base64 are parameters; a key is a list of 32 bytes.
use Prim.Native.Nat.{bit_or}
use Prim.Native.String.{len}
use gum.Prelude.{
  ℕ, ◌+◌, ◌-◌, ◌*◌, ◌&&◌, Option, none, some, List, [], ◌∷◌, String, str_eq, leb, ◌==◌,
  if◌then◌else◌,
}
use gum.Prelude.Lists.{length}
use gum.Text.{trim}
use gum.Text.Bytes.{as_bytes}
use gum.Types.{Result, ok, err}

unfoldable pub hex_nibble : ℕ → Option ℕ
hex_nibble byte =
    if leb b'0' byte && leb byte b'9'
    then some (byte - b'0')
    else if leb b'a' byte && leb byte b'f'
    then some (byte - b'a' + 10)
    else if leb b'A' byte && leb byte b'F'
    then some (byte - b'A' + 10)
    else none

-- `(hi << 4) | lo`, of two nibbles
join_nibbles : Option ℕ → Option ℕ → Option ℕ
join_nibbles (some hi) (some lo) = some (bit_or (hi * 16) lo)
join_nibbles _ _ = none

cons_byte : Option ℕ → Option (List ℕ) → Option (List ℕ)
cons_byte (some byte) (some rest) = some (byte ∷ rest)
cons_byte _ _ = none

-- The bytes that the chunks of two stand for.
unfoldable pub decode_pairs : List ℕ → Option (List ℕ)
unfolding hex_nibble join_nibbles cons_byte
decode_pairs [] = some []
decode_pairs (hi ∷ []) = some []
decode_pairs (hi ∷ lo ∷ rest) =
    cons_byte (join_nibbles (hex_nibble hi) (hex_nibble lo)) (decode_pairs rest)

unfoldable pub decode_hex_32 : String → Option (List ℕ)
unfolding decode_pairs
decode_hex_32 value = if len value == 64 then decode_pairs (as_bytes value) else none

-- base64 of the standard and of the URL-safe alphabet; `none` is an error.
pub record Base64 : Type 0 where
  pub standard : String → Option (List ℕ)
  pub url_safe_no_pad : String → Option (List ℕ)

-- The bytes, if they are 32.
key_bytes : Option (List ℕ) → Option (List ℕ)
key_bytes none = none
key_bytes (some bytes) = if length bytes == 32 then some bytes else none

first_key : List (Option (List ℕ)) → Result (List ℕ)
first_key [] =
    err "GUM_SECRET_MASTER_KEY must decode to 32 bytes (hex, base64, or raw 32-byte string)"
first_key (none ∷ rest) = first_key rest
first_key (some key ∷ rest) = ok key

unfoldable pub parse_master_key : Base64 → String → Result (List ℕ)
unfolding key_bytes first_key
parse_master_key base64 raw =
    let value = trim raw in
    if str_eq value ""
    then err "GUM_SECRET_MASTER_KEY cannot be empty"
    else first_key (
        decode_hex_32 value
        ∷ key_bytes (base64.standard value)
        ∷ key_bytes (base64.url_safe_no_pad value)
        ∷ key_bytes (some (as_bytes value))
        ∷ [])
