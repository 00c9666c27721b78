-- ===== src/DataProxy/Examples.antt =====
-- Formats and ranges at concrete values.
use aos_server.Base.{◌≡◌, refl, some, []}
use aos_server.DataProxy.Format.{raw, raw_encrypted, ObjectLocation, count_blocks}
use aos_server.DataProxy.Ranges.{S3Range, int, Ranges}

abbrev encrypted_location : ObjectLocation
encrypted_location = record {
  file_format = raw_encrypted [];
  raw_content_len = 100000;
  disk_content_len = 100056;
}

two_blocks : count_blocks encrypted_location ≡ 2
unfolding count_blocks
two_blocks = refl

-- Bytes 70000 up to and with 70009 of 100000.
abbrev asked : S3Range
asked = int 70000 (some 70009)

abbrev raw_location : ObjectLocation
raw_location = record { file_format = raw; raw_content_len = 100000; disk_content_len = 100000 }
