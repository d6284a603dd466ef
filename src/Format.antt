-- ===== src/Format.antt =====
-- The formatting helpers of the pages: `formatSize` and `formatDate` (CasesPage.tsx,
-- ArtifactListPage.tsx, and as `formatFileSize` ArtifactUploadPage.tsx), `shortHash` and `shortId`
-- (LedgerPage.tsx), and components/StatusBadge.tsx. Dates of the locale are a parameter.
pub mod Digits
pub mod Examples
use Prim.Native.Char.{code}
use Prim.Native.String.{◌++◌}
use Prim.Native.String
use forensic_chain.Common.{
  ℕ, zero, suc, ◌+◌, ◌*◌, ◌/◌, ◌%◌, String, Option, none, some, List, [], ◌∷◌, if◌then◌else◌, ltb,
  eqb, is_present, ◌==◌,
}

abbrev digit_text : ℕ → String
digit_text d =
    if eqb d 0
    then "0"
    else if eqb d 1
    then "1"
    else if eqb d 2
    then "2"
    else if eqb d 3
    then "3"
    else if eqb d 4
    then "4"
    else if eqb d 5
    then "5"
    else if eqb d 6
    then "6"
    else if eqb d 7
    then "7"
    else if eqb d 8
    then "8"
    else "9"

-- The digits of `n` in base ten, the first one first, before those of `acc`. Each round divides by
-- ten, so `suc n` rounds are enough.
pub digits_from : ℕ → ℕ → List ℕ → List ℕ
digits_from zero n acc = acc
digits_from (suc fuel) n acc =
    let rest = digits_from fuel (n / 10) (n % 10 ∷ acc) in if ltb n 10 then n ∷ acc else rest

pub digits : ℕ → List ℕ
unfolding digits_from
digits n = digits_from (suc n) n []

pub show_digits : List ℕ → String
show_digits [] = ""
show_digits (d ∷ ds) = digit_text d ++ show_digits ds

-- `${n}` of a number.
unfoldable pub show_nat : ℕ → String
unfolding digits show_digits
show_nat n = show_digits (digits n)

-- A file size as it is shown: whole bytes, or tenths of a unit.
pub data Size : Type 0 where
  in_bytes in_kb in_mb : ℕ → Size

-- `(bytes / unit).toFixed(1)` in tenths. ECMAScript defines `toFixed` as the nearest number of tenths,
-- the larger of two; the quotient by a power of two is exact.
abbrev to_tenths : ℕ → ℕ → ℕ
to_tenths bytes unit = (20 * bytes + unit) / (2 * unit)

-- The branches of `formatSize`.
unfoldable pub size_of : ℕ → Size
size_of bytes =
    if ltb bytes 1024
    then in_bytes bytes
    else if ltb bytes (1024 * 1024)
    then in_kb (to_tenths bytes 1024)
    else in_mb (to_tenths bytes (1024 * 1024))

show_tenths : ℕ → String
show_tenths t = show_nat (t / 10) ++ "." ++ show_nat (t % 10)

pub show_size : Size → String
unfolding show_nat show_tenths
show_size (in_bytes n) = show_nat n ++ " B"
show_size (in_kb t) = show_tenths t ++ " KB"
show_size (in_mb t) = show_tenths t ++ " MB"

unfoldable pub format_size : ℕ → String
unfolding size_of show_size
format_size bytes = show_size (size_of bytes)

-- `formatDate`: the dash for null and for the empty string.
unfoldable pub format_date : (String → String) → Option String → String
format_date locale_date none = "—"
format_date locale_date (some iso) = if is_present (some iso) then locale_date iso else "—"

-- `s.slice(0, n)`
unfoldable pub slice_to : ℕ → String → String
slice_to zero s = ""
slice_to (suc n) String.[] = ""
slice_to (suc n) (String.◌∷◌ c s) = String.◌∷◌ c (slice_to n s)

-- `s.replace('T', ' ')`: the first one only.
unfoldable pub replace_t : String → String
replace_t String.[] = ""
replace_t (String.◌∷◌ c s) =
    if eqb (code c) b'T' then String.◌∷◌ " " s else String.◌∷◌ c (replace_t s)

-- `at?.slice(0, 19).replace('T', ' ') ?? '—'`
unfoldable pub short_time : Option String → String
unfolding slice_to replace_t
short_time none = "—"
short_time (some at) = replace_t (slice_to 19 at)

unfoldable pub short_hash : Option String → String
unfolding slice_to
short_hash none = "—"
short_hash (some hash) = if is_present (some hash) then slice_to 12 hash ++ "…" else "—"

unfoldable pub short_id : String → String
unfolding slice_to
short_id id = slice_to 8 id ++ "…"

-- The colours of a badge, by name: `PALETTE` with its default.
pub data Tone : Type 0 where
  emerald amber red orange dark_red gray : Tone

unfoldable pub status_tone : String → Tone
status_tone status =
    if status == "INGESTED"
    then emerald
    else if status == "PENDING"
    then amber
    else if status == "INGESTION_FAILED"
    then red
    else if status == "VALID"
    then emerald
    else if status == "TAMPERED"
    then red
    else if status == "INVALID_SIGNATURE"
    then orange
    else if status == "LEDGER_CORRUPTED"
    then dark_red
    else gray
