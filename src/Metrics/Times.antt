-- ===== src/Metrics/Times.antt =====
-- The times of files in Python: os.stat gives nanoseconds as the float st_mtime, which
-- _publish_entry of metrics_commit.py turns into nanoseconds again and _ordered_entries of
-- metrics_send.py sorts by. A float is a number of units of 2 ^ -82, as large as its 53 bits allow.
use pyntara.Shared.{
  ℕ, zero, suc, ◌+◌, ◌*◌, ◌/◌, ◌%◌, ◌^◌, ◌&&◌, ◌||◌, ltb, ◌==◌, nat_eq, if◌then◌else◌,
}

abbrev pub nanoseconds_per_second : ℕ
nanoseconds_per_second = 1000000000

-- 1e-9, in those units.
abbrev pub nanosecond : ℕ
nanosecond = 4835703278458517

-- How many bits are cut off to leave 53, with enough fuel for numbers below 2 ^ 309.
unfoldable pub excess_bits : (fuel : ℕ) → ℕ → ℕ
excess_bits zero m = 0
excess_bits (suc fuel) m =
    let rest = excess_bits fuel (m / 2) in if ltb m (2 ^ 53) then 0 else suc rest

-- The number without its last bits, to the nearest and on a tie to the even one.
abbrev pub without_bits : (bits : ℕ) → ℕ → ℕ
without_bits bits m =
    let q = m / 2 ^ bits in
    let r = m % 2 ^ bits in
    if ltb (2 ^ bits) (2 * r) || (2 * r == 2 ^ bits && q % 2 == 1)
    then suc q * 2 ^ bits
    else q * 2 ^ bits

-- The float nearest to a number.
unfoldable pub rounded : ℕ → ℕ
unfolding excess_bits
rounded m = without_bits (excess_bits 256 m) m

-- st_mtime: the seconds and 1e-9 times the nanoseconds of the second.
unfoldable pub st_mtime : (mtime : ℕ) → ℕ
unfolding rounded
st_mtime mtime = rounded (
    mtime / nanoseconds_per_second * 2 ^ 82 + rounded (mtime % nanoseconds_per_second * nanosecond))

-- int(commit_time * nanoseconds_per_second)
unfoldable pub commit_time_ns : (commit_time : ℕ) → ℕ
unfolding rounded
commit_time_ns commit_time = rounded (commit_time * nanoseconds_per_second) / 2 ^ 82
