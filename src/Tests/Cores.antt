-- ===== src/Tests/Cores.antt =====
-- Descriptions of cores.
use rids.Prelude.{ℕ, ◌≡◌, refl, List, [], ◌∷◌, some, arith, true, ok}
use rids.Parser.CpuCore.{Run, returns, overrun, parse_cpu_core}
use rids.Parser.CpuCore.Rounds.{parse_cpu_core_total}
use rids.Parser.CpuCore.Written.{parse_cpu_core-core_text, parse_cpu_core_overrun}

abbrev eight_digits : List ℕ
eight_digits = b'1' ∷ b'2' ∷ b'3' ∷ b'4' ∷ b'5' ∷ b'6' ∷ b'7' ∷ b'8' ∷ []

parse_cpu_core_total_example : (r : Run) × (parse_cpu_core eight_digits ≡ some r)
parse_cpu_core_total_example = parse_cpu_core_total eight_digits

parse_cpu_core-core_text_example :
    parse_cpu_core (b' ' ∷ b's' ∷ b'1' ∷ b'c' ∷ b'1' ∷ b'2' ∷ b'h' ∷ [])
    ≡ some (returns (ok (record { socket_id = 1; core_id = 12; thread_id = 1 })))
parse_cpu_core-core_text_example =
    parse_cpu_core-core_text (b' ' ∷ []) (some (b'1' ∷ [])) (some (b'1' ∷ b'2' ∷ [])) true
      (refl, tt) (ground arith) (ground arith)

parse_cpu_core_overrun_example :
    (parse_cpu_core eight_digits ≡ some overrun)
    × (parse_cpu_core (b's' ∷ eight_digits) ≡ some overrun)
    × (parse_cpu_core (b'c' ∷ eight_digits) ≡ some overrun)
parse_cpu_core_overrun_example = parse_cpu_core_overrun [] eight_digits tt (ground arith) refl
