-- ===== src/Ports.antt =====
-- The port writes of the drivers, as root/orbit-kernel/port_functions.h names them: a trace with
-- the latest write in front. What a read returns is a parameter, a function of the trace.
use relics.Prelude.{ℕ, List, [], ◌∷◌, Option, none, some, ◌==◌, if◌then◌else◌}

abbrev pub Trace : Type 0
Trace = List (ℕ × ℕ)

abbrev pub outb : ℕ → ℕ → Trace → Trace
outb port value t = (port, value) ∷ t

-- The value that was last written to a port.
abbrev pub last_written : ℕ → Trace → Option ℕ
last_written port [] = none
last_written port ((p, v) ∷ t) = if p == port then some v else last_written port t
