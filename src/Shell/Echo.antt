-- ===== src/Shell/Echo.antt =====
-- The command `echo` of root/libraryOSes/relics-libOS/apps/shell.c.
use relics.Prelude.{codes, ℕ, List, ◌++◌}

-- "echo " and a text.
abbrev pub echo_line : List ℕ → List ℕ
echo_line text = codes "echo " ++ text
