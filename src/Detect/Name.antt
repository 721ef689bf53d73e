-- ===== src/Detect/Name.antt =====
-- The name of a kind of controller in the log, of dracDetect.go.
use dracd.Common.{◌≡◌, ◌++◌, Text, ℤ, false, if◌then◌else◌, drop}
use dracd.Common.Atoi.{number, atoi}
use dracd.Common.Decimal.{format, IsInt64, atoi-format}
use dracd.Common.Texts.{codes}
use dracd.Detect.{eq_ℤ, unknown}

-- dracTypeString.
drac_type_string : ℤ → Text
drac_type_string kind = if eq_ℤ kind unknown then codes "Unknown" else codes "DRAC" ++ format kind

-- Behind its first four letters, the name of a known kind holds its number.
drac_type_string_number :
    (kind : ℤ)
    → IsInt64 kind
    → eq_ℤ kind unknown ≡ false
    → atoi (drop 4 (drac_type_string kind)) ≡ number kind
unfolding drac_type_string
drac_type_string_number kind h known = rw known (atoi-format kind h)
