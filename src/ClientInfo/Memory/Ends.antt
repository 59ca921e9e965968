-- ===== src/ClientInfo/Memory/Ends.antt =====
-- When `get_mem_info` returns.
use client_server_db.Prelude.{Text, List, [], ◌∷◌}
use client_server_db.ClientInfo.Rounds.{Run, returns, rounds, ◌>>=◌}
use client_server_db.ClientInfo.Memory.{Amounts, take_rounds}

-- What the lines of the file make of the amounts, with no loop that may not end.
unfoldable pub take_lines : List Text → Amounts → Run Amounts
take_lines [] a = returns a
take_lines (line ∷ lines) a = take_rounds (rounds b':' line) a >>= take_lines lines
