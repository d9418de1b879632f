-- ===== src/HealthCheck/Disk.antt =====
-- internal/healthcheck/disk_usage.go and client.go: the usage of the disk of a directory, as it is
-- answered and as it is asked for. Byte counts are `uint64` and wrap around. The system's `statfs` of a
-- clean path is a parameter; so are the parts of HTTP, of URLs and of JSON that the client calls.
pub mod Measured
use cosmos_operator.Common.{
  ℕ, ◌*◌, ◌%◌, ◌^◌, Text, txt, text_eq, List, [], ◌∷◌, Bool, not, Option, none, some, ◌⊎◌, inl, inr,
  ◌==◌, if◌then◌else◌,
}
use cosmos_operator.HealthCheck.{ResponseWriter, new_writer, write_header, encode_json}

pub record DiskUsageResponse : Type 0 where
  pub dir : Text
  pub all_bytes : ℕ
  pub free_bytes : ℕ
  pub error : Text

abbrev pub no_response : DiskUsageResponse
no_response = record { dir = []; all_bytes = 0; free_bytes = 0; error = [] }

-- The fields of `syscall.Statfs_t` that are read: blocks, free blocks and the size of a block.
pub record Statfs : Type 0 where
  pub blocks : ℕ
  pub bfree : ℕ
  pub bsize : ℕ

abbrev pub mul64 : ℕ → ℕ → ℕ
mul64 a b = a * b % 2 ^ 64

-- The handler `DiskUsage`, of the query parameter `dir`; an error of `statfs` is its text.
module _ (statfs : Text → Statfs ⊎ Text) where
  abbrev pub write_usage : Text → Statfs ⊎ Text → ResponseWriter DiskUsageResponse
  write_usage dir (inr e) =
      encode_json (record no_response { dir = dir; error = e }) (write_header 500 new_writer)
  write_usage dir (inl fs) =
      encode_json
        (record no_response {
          dir = dir;
          all_bytes = mul64 fs.blocks fs.bsize;
          free_bytes = mul64 fs.bfree fs.bsize;
        })
        (write_header 200 new_writer)

  unfoldable pub disk_usage : Text → ResponseWriter DiskUsageResponse
  disk_usage dir =
      if text_eq dir []
      then encode_json (record no_response { error = txt "query param dir must be specified" })
          (write_header 400 new_writer)
      else write_usage dir (statfs dir)

-- The tests of a decoded response.
abbrev pub check_response : DiskUsageResponse → DiskUsageResponse ⊎ Text
check_response r =
    if not (text_eq r.error [])
    then inr r.error
    else (if r.all_bytes == 0 then inr (txt "invalid response: 0 free bytes") else inl r)

-- What the client asks: the host of a URL, `none` where it does not parse; the body of a request to a
-- host and port for a directory, or the text of an error; and a decoded body, `none` where it is no JSON.
module _ (host_of : Text → Option Text) (join_host_port : Text → Text → Text)
    (get_disk : Text → Text → Text ⊎ Text) (decode : Text → Option DiskUsageResponse) where
  abbrev pub check_decoded : Option DiskUsageResponse → DiskUsageResponse ⊎ Text
  check_decoded none = inr (txt "malformed json")
  check_decoded (some r) = check_response r

  abbrev pub check_body : Text ⊎ Text → DiskUsageResponse ⊎ Text
  check_body (inr e) = inr e
  check_body (inl body) = check_decoded (decode body)

  abbrev pub request_usage : Option Text → Text → DiskUsageResponse ⊎ Text
  request_usage none dir = inr (txt "url parse")
  request_usage (some host) dir = check_body (get_disk (join_host_port host (txt "1251")) dir)

  -- `Client.DiskUsage`.
  unfoldable pub ask_disk_usage : Text → Text → DiskUsageResponse ⊎ Text
  ask_disk_usage host dir = request_usage (host_of host) dir
