-- ===== src/Format/Examples.antt =====
-- Sizes, times and hashes as they are shown.
use forensic_chain.Common.{some, ◌≡◌, refl}
use forensic_chain.Format.{
  digits, size_of, show_nat, format_size, digits_from, show_digits, show_size, show_tenths,
  short_time, slice_to, replace_t,
}

sizes :
    (format_size 0 ≡ "0 B")
    × (format_size 1023 ≡ "1023 B")
    × (format_size 1024 ≡ "1.0 KB")
    × (format_size 1536 ≡ "1.5 KB")
    × (format_size 5242880 ≡ "5.0 MB")
unfolding format_size size_of show_size show_tenths show_nat digits digits_from show_digits
sizes = (refl, refl, refl, refl, refl)

-- Just below one megabyte the unit is still that of a kilobyte.
below_one_megabyte : format_size 1048575 ≡ "1024.0 KB"
unfolding format_size size_of show_size show_tenths show_nat digits digits_from show_digits
below_one_megabyte = refl

iso_time : short_time (some "2026-01-02T03:04:05.678Z") ≡ "2026-01-02 03:04:05"
unfolding short_time slice_to replace_t
iso_time = refl
