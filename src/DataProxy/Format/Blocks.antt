-- ===== src/DataProxy/Format/Blocks.antt =====
-- What the flags of a format say, and how many blocks a location counts.
use aos_server.Base.{
  ℕ, ◌+◌, ◌*◌, ◌≤◌, ◌<◌, ◌≡◌, refl, Bool, true, false, ◌||◌, none, some, arith, if◌then◌else◌,
}
use aos_server.DataProxy.Format.{
  Key, FileFormat, raw, raw_compressed, raw_encrypted, raw_encrypted_compressed, pithos, from_bools,
  is_encrypted, is_compressed, get_encryption_key, ObjectLocation, is_pithos_format, count_blocks,
  blocks_of,
}

-- A format made from flags has the properties that the flags allow, where Pithos implies both
-- others, and it has a key, the one that was drawn, exactly if it is encrypted.
from_bools-flags :
    (enc_key : Key) (allow_pithos allow_encryption allow_compression : Bool)
    → (let f = from_bools enc_key allow_pithos allow_encryption allow_compression in
        (is_pithos_format f ≡ allow_pithos)
        × (is_encrypted f ≡ (allow_pithos || allow_encryption))
        × (is_compressed f ≡ (allow_pithos || allow_compression))
        × (get_encryption_key f ≡ (if is_encrypted f then some enc_key else none)))
unfolding from_bools is_encrypted is_compressed get_encryption_key
from_bools-flags k true e c = (refl, refl, refl, refl)
from_bools-flags k false true true = (refl, refl, refl, refl)
from_bools-flags k false true false = (refl, refl, refl, refl)
from_bools-flags k false false true = (refl, refl, refl, refl)
from_bools-flags k false false false = (refl, refl, refl, refl)

-- The bytes that blocks are counted for, and the size of a block.
abbrev pub counted : ℕ → ℕ → FileFormat → ℕ
counted raw_len disk_len raw = raw_len
counted raw_len disk_len raw_compressed = disk_len
counted raw_len disk_len (raw_encrypted key) = raw_len + 109
counted raw_len disk_len (raw_encrypted_compressed key) = disk_len + 109
counted raw_len disk_len (pithos key) = disk_len + 109

abbrev pub block_size : FileFormat → ℕ
block_size raw = 65536
block_size raw_compressed = 65536
block_size (raw_encrypted key) = 65564
block_size (raw_encrypted_compressed key) = 65564
block_size (pithos key) = 65564

-- For lengths that are not negative, the blocks hold all bytes that are counted, and one block less
-- would not.
count_blocks-bounds :
    (location : ObjectLocation)
    → location.raw_content_len < 9223372036854775808
    → location.disk_content_len < 9223372036854775808
    → (let size = counted location.raw_content_len location.disk_content_len location.file_format in
        let block = block_size location.file_format in
        (size ≤ count_blocks location * block) × (count_blocks location * block < size + block))
unfolding count_blocks
count_blocks-bounds location small_raw small_disk =
    by_format location.raw_content_len location.disk_content_len location.file_format small_raw
      small_disk
  where
    by_format :
        (r d : ℕ) (f : FileFormat)
        → r < 9223372036854775808
        → d < 9223372036854775808
        → (counted r d f ≤ blocks_of r d f * block_size f)
          × (blocks_of r d f * block_size f < counted r d f + block_size f)
    by_format r d raw hr hd = (ground arith, ground arith)
    by_format r d raw_compressed hr hd = (ground arith, ground arith)
    by_format r d (raw_encrypted key) hr hd = (ground arith, ground arith)
    by_format r d (raw_encrypted_compressed key) hr hd = (ground arith, ground arith)
    by_format r d (pithos key) hr hd = (ground arith, ground arith)
