-- ===== src/Linux/Procfs/Tests.antt =====
-- The theorems of the parsers of /proc at small files.
use lx.Linux.Procfs.Cmdline.{parse_cmdline, cmdline, parse_cmdline-cmdline}
use lx.Linux.Procfs.Status.{
  StatusRecord, parse_status, complete, read_lines, read_line, read_value, read_key, read_field,
  fill_field, read_rss, rss_of, first_token, not_leading_blank, leading_blank, ends_token, is_colon,
  newline,
}
use lx.Linux.Procfs.Status.Tokens.{IsStatusOf}
use lx.Linux.Procfs.Status.Shown.{parse_status-IsStatusOf}
use lx.Linux.Procfs.Stat.RoundTrip.{IsPlain}
use lx.Linux.Procfs.Stat.{
  parse_stat, parse_counter, is_open, parse_split, split_close, stat_record, parse_pid,
  strip_spaces, ppid_text, closing, not_negative, state_at,
}
use lx.Linux.Procfs.Metrics.{
  parse_cpu_times, row_words, is_newline, cpu_row, add_counters, add_counter, add_value, add_idle,
  is_idle, checked_add,
}
use lx.Base.{
  refl, [], ◌<◌, ◌∷◌, ℤ, Bytes, List, text, ◌≡◌, length, arith, words, pieces, before, from,
  starts_with,
}
use lx.Linux.Procfs.CpuStat.{
  parse_process_cpu_stat, fields_of, IsCpuTime, field_at, parse_process_cpu_stat-IsCpuTime,
  cpu_fields, behind_state, cpu_of, cpu_sample, is_blank,
}
use lx.Linux.Procfs.Stat.RoundTrip.{stat_line, parse_stat-stat_line}
use lx.Domain.{success, CpuTimes, ProcessCpuSample}
use lx.Linux.Procfs.Metrics.Sums.{SumsFrom, no_ticks, parse_cpu_times-SumsFrom}
use lx.Base.Decimal.{at_end, from_chars_signed, number_of, parse_unsigned, from_chars}

parse_cmdline-cmdline_example :
    parse_cmdline (cmdline ((b'a' ∷ []) ∷ [] ∷ [])) ≡ (b'a' ∷ []) ∷ [] ∷ []
parse_cmdline-cmdline_example =
    parse_cmdline-cmdline ((b'a' ∷ []) ∷ [] ∷ []) ((ground arith, tt), (tt, tt))

fields-IsPlain : IsPlain (text " 5 6")
unfolding text
fields-IsPlain = (ground arith, (ground arith, (ground arith, (ground arith, tt))))

parse_stat-stat_line_example :
    parse_stat (stat_line 42 (text "a) (b") b'S' 1 (text " 5 6"))
    ≡ success (record { pid = ℤ.pos 42; name = text "a) (b"; state = b'S'; ppid = ℤ.pos 1 })
parse_stat-stat_line_example =
    parse_stat-stat_line 42 (text "a) (b") b'S' 1 (text " 5 6") (omega arith) (omega arith)
      (ground arith) fields-IsPlain

abbrev cpu_line : Bytes
cpu_line = text "7 (sh) S 1 0 0 0 0 0 0 0 0 0 20 22 0 0 0 0 0 0 99\n"

abbrev cpu_line_sample : ProcessCpuSample
cpu_line_sample = record { pid = ℤ.pos 7; start_time_ticks = 99; cpu_time_ticks = 42 }

cpu_line-read : parse_process_cpu_stat cpu_line ≡ success cpu_line_sample
unfolding text parse_process_cpu_stat parse_stat is_open parse_split split_close before stat_record
    parse_pid at_end from_chars_signed strip_spaces number_of from ppid_text cpu_fields fields_of
    from_chars parse_unsigned pieces starts_with words behind_state cpu_of cpu_sample field_at
    is_blank closing not_negative state_at parse_counter
cpu_line-read = refl

parse_process_cpu_stat-IsCpuTime_example :
    (18 < length (fields_of cpu_line))
    × IsCpuTime
        (parse_counter (field_at 10 (fields_of cpu_line)))
        (parse_counter (field_at 11 (fields_of cpu_line)))
        (parse_counter (field_at 18 (fields_of cpu_line)))
        cpu_line_sample
parse_process_cpu_stat-IsCpuTime_example =
    parse_process_cpu_stat-IsCpuTime cpu_line cpu_line_sample cpu_line-read

abbrev stat_row : Bytes
stat_row = text "cpu  10 0 5 70 15 0\ncpu0 1 2 3 4\n"

abbrev stat_row_times : CpuTimes
stat_row_times = record { total_ticks = 100; idle_ticks = 85 }

stat_row-read : parse_cpu_times stat_row ≡ success stat_row_times
unfolding text parse_cpu_times row_words words pieces before is_newline cpu_row add_counters
    add_counter add_value add_idle is_idle checked_add parse_unsigned at_end from_chars number_of
    from
stat_row-read = refl

parse_cpu_times-SumsFrom_example :
    (tokens : List Bytes) × (row_words stat_row ≡ text "cpu" ∷ tokens)
    × SumsFrom 0 no_ticks tokens stat_row_times
parse_cpu_times-SumsFrom_example = parse_cpu_times-SumsFrom stat_row stat_row_times stat_row-read

abbrev status_file : Bytes
status_file = text "Uid:\t5 5\nGid:\t6\nVmRSS:\t 2 kB\nThreads:\t1\n"

abbrev status_file_record : StatusRecord
status_file_record = record { uid = 5; gid = 6; threads = 1; rss_bytes = 2048 }

status_file-read : parse_status status_file ≡ success status_file_record
unfolding text parse_status complete read_lines read_line read_value read_key read_field fill_field
    read_rss rss_of first_token not_leading_blank leading_blank ends_token is_colon newline pieces
    before from parse_unsigned at_end from_chars number_of
status_file-read = refl

parse_status-IsStatusOf_example : IsStatusOf (pieces newline status_file) status_file_record
parse_status-IsStatusOf_example =
    parse_status-IsStatusOf status_file status_file_record status_file-read
