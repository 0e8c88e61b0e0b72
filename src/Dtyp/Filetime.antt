-- ===== src/Dtyp/Filetime.antt =====
-- Filetime and FiletimeDecoder of internal/smb2/dtyp.go.
use smb_mem_lib.Prelude.{
  ℕ, ◌*◌, ◌/◌, ◌%◌, ◌^◌, ◌≤◌, ◌<◌, ◌≡◌, Option, none, some, ◌++◌, Bytes, length, drop, ltb, leb,
  ◌==◌, if◌then◌else◌, arith,
}
use smb_mem_lib.Prelude.Words.{add64, sub64}
use smb_mem_lib.Dtyp.{◌>>=◌, le_bytes, le_uint32, le_word}

pub record Filetime : Type 0 where
  pub low_date_time : ℕ
  pub high_date_time : ℕ

-- Filetime.Encode into a slice, with the slice afterwards.
unfoldable pub encode : Filetime → Bytes → Option Bytes
encode ft p =
    if leb 8 (length p)
    then some (le_bytes ft.low_date_time ++ (le_bytes ft.high_date_time ++ drop 8 p))
    else none

-- From 1601 to 1970, in units of 100 ns
abbrev pub epoch : ℕ
epoch = 116444736000000000

-- Nanoseconds, an int64
unfoldable pub nanoseconds : Filetime → ℕ
nanoseconds ft =
    let nsec = add64 (ft.high_date_time * 2 ^ 32 % 2 ^ 64) ft.low_date_time in
    if nsec == 0 then 0 else sub64 nsec epoch * 100 % 2 ^ 64

-- `nsec / 100` on int64, which rounds towards zero
abbrev pub div100 : ℕ → ℕ
div100 n = if ltb n (2 ^ 63) then n / 100 else sub64 0 (sub64 0 n / 100)

-- NsecToFiletime
unfoldable pub nsec_to_filetime : ℕ → Filetime
nsec_to_filetime nsec =
    let n = add64 (div100 nsec) epoch in
    record { low_date_time = n % 2 ^ 32; high_date_time = n / 2 ^ 32 % 2 ^ 32 }

-- FiletimeDecoder.Decode
unfoldable pub decode : Bytes → Option Filetime
decode s = do
  low ← le_uint32 s
  high ← le_uint32 (drop 4 s)
  some (record { low_date_time = low; high_date_time = high })

-- For a slice of at least eight bytes and uint32 fields: Encode succeeds, and what it writes decodes to
-- the same Filetime.
decode-encode :
    (ft : Filetime) (p : Bytes)
    → ft.low_date_time < 2 ^ 32
    → ft.high_date_time < 2 ^ 32
    → 8 ≤ length p
    → (q : Bytes) × (encode ft p ≡ some q) × (decode q ≡ some ft)
unfolding encode decode
decode-encode ft p hl hh h = (
  le_bytes ft.low_date_time ++ (le_bytes ft.high_date_time ++ drop 8 p),
  ground (arith, h),
  ground (arith, le_word ft.low_date_time hl, le_word ft.high_date_time hh),
)

-- For every int64 of nanoseconds since 1970: the conversion to a Filetime and back rounds it towards
-- zero to a multiple of 100.
pub nanoseconds-nsec_to_filetime :
    (nsec : ℕ) → nsec < 2 ^ 64 → nanoseconds (nsec_to_filetime nsec) ≡ div100 nsec * 100 % 2 ^ 64
unfolding nanoseconds nsec_to_filetime
nanoseconds-nsec_to_filetime nsec h = ground arith
