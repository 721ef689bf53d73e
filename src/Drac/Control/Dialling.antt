-- ===== src/Drac/Control/Dialling.antt =====
-- The addresses that ctrlReader dials.
use dracd.Common.{◌≡◌, ◌∷◌, Text, ℤ, length, drop, drop-length}
use dracd.Common.Atoi.{number, atoi}
use dracd.Common.Decimal.{format, IsInt64, atoi-format}
use dracd.Drac.Control.{host_port}

-- Behind the host and the colon, an address holds its port.
host_port_number :
    (host : Text) (port : ℤ)
    → IsInt64 port
    → (rest : Text) × (drop (length host) (host_port host port) ≡ b':' ∷ rest)
      × (atoi rest ≡ number port)
unfolding host_port
host_port_number host port h =
    (format port, drop-length host (b':' ∷ format port), atoi-format port h)
