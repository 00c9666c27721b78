-- ===== src/DataProxy/Ranges.antt =====
-- Byte ranges: components/data_proxy/src/s3_frontend/utils/ranges.rs. A range string `bytes=a-b` is
-- the pair of its numbers. What the footer of a Pithos file says is read by a package.
pub mod Bounds
use aos_server.Base.{
  ℕ, ◌+◌, ◌/◌, ◌%◌, Bool, true, false, Option, none, some, List, [], ◌∷◌, ltb, is_some, Result, ok,
  err, Error, message, if◌then◌else◌,
}
use aos_server.DataProxy.Words.{add64, sub64, mul64}
use aos_server.DataProxy.Format.{get_encryption_key, is_compressed, is_pithos, ObjectLocation}

-- `ArunaRange`: from the first byte to behind the last.
pub record Range : Type 0 where
  pub start : ℕ
  pub end : ℕ

pub data S3Range : Type 0 where
  int : ℕ → Option ℕ → S3Range
  suffix : ℕ → S3Range

-- RAW_CHUNK and ENCRYTPION_CHUNK
abbrev pub raw_chunk : ℕ
raw_chunk = 65536

abbrev pub encryption_chunk : ℕ
encryption_chunk = 65564

-- The entries of a footer's table of contents: a decrypted file with its
-- `get_range_and_filter_by_range`, or another.
pub data FileContext : Type 0 where
  file_decrypted : (Range → Range × List ℕ) → FileContext
  other_variant : FileContext

-- The string for the storage, the edit list, the number of bytes that result, and the range.
pub record Ranges : Type 0 where
  pub query : Option (ℕ × ℕ)
  pub edit_list : Option (List ℕ)
  pub actual_size : ℕ
  pub actual_range : Option Range

unfoldable pub aruna_range_from_s3range : S3Range → ℕ → Range
aruna_range_from_s3range (int first (some val)) content_length = record {
  start = first;
  end = if ltb content_length val then content_length else add64 val 1;
}
aruna_range_from_s3range (int first none) content_length = record {
  start = first;
  end = content_length;
}
aruna_range_from_s3range (suffix length) content_length = record {
  start = sub64 content_length length;
  end = content_length;
}

unfoldable pub calculate_content_length_from_range : Range → ℕ
calculate_content_length_from_range range = sub64 range.end range.start

abbrev clipped : ℕ → Range → Range
clipped compressed_size a =
    if ltb compressed_size a.end then record a { end = compressed_size } else a

unfoldable pub pithos_ranges : Range → ℕ → Range × List ℕ → Ranges
unfolding calculate_content_length_from_range
pithos_ranges aruna_range compressed_size (a, b) =
    let a' = clipped compressed_size a in
    record {
      query = some (a'.start, sub64 a'.end 1);
      edit_list = some b;
      actual_size = calculate_content_length_from_range a';
      actual_range = some aruna_range;
    }

abbrev pub from_files : Range → ℕ → List FileContext → Result Error Ranges
from_files aruna_range compressed_size [] = err (message "No files in footer")
from_files aruna_range compressed_size (file_decrypted get_range ∷ files) =
    ok (pithos_ranges aruna_range compressed_size (get_range aruna_range))
from_files aruna_range compressed_size (other_variant ∷ files) = err (message "File not decrypted")

abbrev pub from_footer : Range → ℕ → Option (List FileContext) → Result Error Ranges
from_footer aruna_range compressed_size none = err (message "Footer not found")
from_footer aruna_range compressed_size (some files) = from_files aruna_range compressed_size files

abbrev pub size_of : Range → ℕ
size_of r = sub64 r.end r.start

abbrev pub compressed_ranges : Range → Ranges
compressed_ranges r = record {
  query = none;
  edit_list = some (r.start ∷ size_of r ∷ []);
  actual_size = size_of r;
  actual_range = some r;
}

abbrev pub encrypted_ranges : Range → Ranges
encrypted_ranges r =
    let start = r.start / raw_chunk in
    let start_skip = r.start % raw_chunk in
    let end = add64 (r.end / raw_chunk) 1 in
    record {
      query = some (mul64 start encryption_chunk, mul64 end encryption_chunk);
      edit_list = some (start_skip ∷ size_of r ∷ []);
      actual_size = size_of r;
      actual_range = some r;
    }

abbrev pub raw_ranges : Range → Ranges
raw_ranges r = record {
  query = some (r.start, r.end);
  edit_list = none;
  actual_size = size_of r;
  actual_range = some r;
}

unfoldable pub for_range :
    Range → ℕ → Option (List FileContext) → ObjectLocation → Result Error Ranges
unfolding is_pithos is_compressed get_encryption_key pithos_ranges
for_range r compressed_size footer location =
    if is_pithos location
    then from_footer r compressed_size footer
    else if is_compressed location.file_format
    then ok (compressed_ranges r)
    else if is_some (get_encryption_key location.file_format)
    then ok (encrypted_ranges r)
    else ok (raw_ranges r)

unfoldable pub calculate_ranges :
    Option S3Range → ℕ → ℕ → Option (List FileContext) → ObjectLocation → Result Error Ranges
unfolding aruna_range_from_s3range for_range
calculate_ranges none content_length compressed_size footer location =
    ok (record {
      query = none;
      edit_list = none;
      actual_size = compressed_size;
      actual_range = none;
    })
calculate_ranges (some range) content_length compressed_size footer location =
    for_range (aruna_range_from_s3range range content_length) compressed_size footer location
