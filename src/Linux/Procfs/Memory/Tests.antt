-- ===== src/Linux/Procfs/Memory/Tests.antt =====
-- A small /proc/meminfo.
use lx.Base.{some, text, refl, suc, Bytes, length, before, from, ◌≡◌}
use lx.Domain.{success}
use lx.Linux.Procfs.Memory.{
  parse_memory_info, after_row, go_on, memory_of, put_bytes, put_row, read_row, read_rows,
  read_word, row_bytes, scaled, skip_line, with_row,
}
use lx.Linux.Procfs.Memory.Bounds.{Reads, parse_memory_info-Reads}
use lx.Base.Decimal.{at_end, from_chars, number_of, parse_unsigned}
use lx.Linux.Procfs.Metrics.{metrics_failure}

abbrev contents : Bytes
contents = text "MemTotal: 8 kB\nMemFree: 2 kB\nMemAvailable: 4 kB"

parse_memory_info-Reads_example : Reads (parse_memory_info (suc (length contents)) contents)
parse_memory_info-Reads_example = parse_memory_info-Reads contents

memory_test :
    parse_memory_info (suc (length contents)) contents
    ≡ some (success (record { total_bytes = 8192; available_bytes = 4096 }))
unfolding after_row at_end before from from_chars go_on memory_of metrics_failure number_of
    parse_memory_info parse_unsigned put_bytes put_row read_row read_rows read_word row_bytes scaled
    skip_line text with_row
memory_test = refl
