-- ===== src/DataProxy/Format.antt =====
-- File formats and blocks: `FileFormat` and `ObjectLocation` of components/data_proxy/src/structs.rs.
-- A key of 32 bytes is a list of numbers; a length (`i64`) is its bit pattern, which `as usize` keeps.
pub mod Blocks
use aos_server.Base.{
  ℕ, ◌+◌, ◌/◌, ◌%◌, Bool, true, false, Option, none, some, List, [], ◌∷◌, ◌==◌, if◌then◌else◌,
}
use aos_server.DataProxy.Words.{add64}

abbrev pub Key : Type 0
Key = List ℕ

pub data FileFormat : Type 0 where
  raw raw_compressed : FileFormat
  raw_encrypted raw_encrypted_compressed pithos : Key → FileFormat

-- `enc_key` is the random key that is drawn first.
unfoldable pub from_bools : Key → Bool → Bool → Bool → FileFormat
from_bools enc_key true allow_encryption allow_compression = pithos enc_key
from_bools enc_key false true false = raw_encrypted enc_key
from_bools enc_key false false true = raw_compressed
from_bools enc_key false true true = raw_encrypted_compressed enc_key
from_bools enc_key false false false = raw

unfoldable pub is_encrypted : FileFormat → Bool
is_encrypted (raw_encrypted key) = true
is_encrypted (raw_encrypted_compressed key) = true
is_encrypted (pithos key) = true
is_encrypted _ = false

unfoldable pub is_compressed : FileFormat → Bool
is_compressed raw_compressed = true
is_compressed (raw_encrypted_compressed key) = true
is_compressed (pithos key) = true
is_compressed _ = false

unfoldable pub get_encryption_key : FileFormat → Option Key
get_encryption_key (raw_encrypted key) = some key
get_encryption_key (raw_encrypted_compressed key) = some key
get_encryption_key (pithos key) = some key
get_encryption_key _ = none

pub record ObjectLocation : Type 0 where
  pub file_format : FileFormat
  pub raw_content_len : ℕ
  pub disk_content_len : ℕ

abbrev pub is_pithos_format : FileFormat → Bool
is_pithos_format (pithos key) = true
is_pithos_format _ = false

unfoldable pub is_pithos : ObjectLocation → Bool
is_pithos location = is_pithos_format location.file_format

abbrev pub blocks_of : ℕ → ℕ → FileFormat → ℕ
blocks_of raw_len disk_len raw =
    if raw_len % 65536 == 0 then raw_len / 65536 else (raw_len / 65536) + 1
blocks_of raw_len disk_len raw_compressed =
    if disk_len % 65536 == 0 then disk_len / 65536 else (disk_len / 65536) + 1
blocks_of raw_len disk_len (raw_encrypted key) =
    if add64 raw_len 109 % 65564 == 0
    then add64 raw_len 109 / 65564
    else (add64 raw_len 109 / 65564) + 1
blocks_of raw_len disk_len _ =
    if add64 disk_len 109 % 65564 == 0
    then add64 disk_len 109 / 65564
    else (add64 disk_len 109 / 65564) + 1

unfoldable pub count_blocks : ObjectLocation → ℕ
count_blocks location =
    blocks_of location.raw_content_len location.disk_content_len location.file_format
