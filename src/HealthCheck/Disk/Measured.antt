-- ===== src/HealthCheck/Disk/Measured.antt =====
-- The client of internal/healthcheck/client.go with the handler of disk_usage.go at the other end.
use cosmos_operator.Common.{
  ℕ, ◌*◌, ◌^◌, ◌≤◌, ◌<◌, Text, txt, text_eq, [], ◌∷◌, false, ◌≡◌, Option, some, ◌⊎◌, inl, arith,
}
use cosmos_operator.HealthCheck.{ResponseWriter}
use cosmos_operator.HealthCheck.Disk.{
  DiskUsageResponse, no_response, Statfs, mul64, disk_usage, check_response, ask_disk_usage,
}

-- The response that a writer has the body of.
abbrev pub body_of : ResponseWriter DiskUsageResponse → DiskUsageResponse
body_of w = elim w.body [ [] ↦ no_response | r ∷ rs ↦ r ]

mul64-eq : (a b : ℕ) → a * b < 2 ^ 64 → mul64 a b ≡ a * b
mul64-eq a b h = grind arith

scale-le : (a b c : ℕ) → a ≤ b → a * c ≤ b * c
scale-le a b c h = grind arith

-- The response for a file system.
abbrev measured_response : Text → Statfs → DiskUsageResponse
measured_response dir fs = record {
  dir = dir;
  all_bytes = fs.blocks * fs.bsize;
  free_bytes = fs.bfree * fs.bsize;
  error = [];
}

body_of-disk_usage :
    (statfs : Text → Statfs ⊎ Text) (dir : Text) (fs : Statfs)
    → text_eq dir [] ≡ false
    → statfs dir ≡ inl fs
    → fs.blocks * fs.bsize < 2 ^ 64
    → fs.bfree ≤ fs.blocks
    → body_of (disk_usage statfs dir) ≡ measured_response dir fs
unfolding disk_usage
body_of-disk_usage statfs dir fs given measured below free =
    let le = scale-le fs.bfree fs.blocks fs.bsize free in
    rw (
      given,
      measured,
      mul64-eq fs.blocks fs.bsize below,
      mul64-eq fs.bfree fs.bsize (omega (arith, le, below)),
    )

check_response-measured :
    (dir : Text) (fs : Statfs)
    → 0 < fs.blocks * fs.bsize
    → check_response (measured_response dir fs) ≡ inl (measured_response dir fs)
unfolding text_eq
check_response-measured dir fs h = ground arith

module _ (statfs : Text → Statfs ⊎ Text) (host_of : Text → Option Text)
    (join_host_port : Text → Text → Text) (get_disk : Text → Text → Text ⊎ Text)
    (decode : Text → Option DiskUsageResponse) where
  -- From a host whose answer decodes to the response of the handler: the byte counts of the file system for a directory are
  -- those that the client returns, with no more free bytes than bytes, where the file system has a byte,
  -- has no more free blocks than blocks, and has less than 2⁶⁴ bytes.
  pub ask_disk_usage-measured :
      (url host dir body : Text) (fs : Statfs)
      → host_of url ≡ some host
      → get_disk (join_host_port host (txt "1251")) dir ≡ inl body
      → decode body ≡ some (body_of (disk_usage statfs dir))
      → text_eq dir [] ≡ false
      → statfs dir ≡ inl fs
      → 0 < fs.blocks * fs.bsize
      → fs.blocks * fs.bsize < 2 ^ 64
      → fs.bfree ≤ fs.blocks
      → (ask_disk_usage host_of join_host_port get_disk decode url dir
          ≡ inl (record {
            dir = dir;
            all_bytes = fs.blocks * fs.bsize;
            free_bytes = fs.bfree * fs.bsize;
            error = [];
          }))
        × (fs.bfree * fs.bsize ≤ fs.blocks * fs.bsize)
  unfolding ask_disk_usage
  ask_disk_usage-measured url host dir body fs parsed served sent given measured some_bytes below
        free =
      (
        rw (parsed, served, sent, body_of-disk_usage statfs dir fs given measured below free)
            (check_response-measured dir fs some_bytes),
        scale-le fs.bfree fs.blocks fs.bsize free,
      )
