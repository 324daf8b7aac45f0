-- ===== src/Linux/Procfs/Processes/Tests.antt =====
-- The provider at a small /proc.
use lx.Base.{
  [], ◌∷◌, some, none, inl, inr, refl, nat_Eq, list_Eq, int_Eq, option_Eq, text, ℤ, if◌then◌else◌,
  List, ◌≡◌, ◌==◌, int_ltb, before, from, pieces, starts_with,
}
use lx.Domain.{success, Observation, ProcessInfo, not_found}
use lx.Linux.Errno.{System, enoent, disappeared, system_failure}
use lx.Linux.Procfs.InodeResolver.{end, entry, Listing, parse_pid_name, pid_in_range}
use lx.Linux.Procfs.Reader.{
  contents, unopened, FileSystem, entry_ids, process_ids, add_pid, errno_or_eio, file_result,
  link_result, read_file, read_link, reader_code, reader_error, sorted_ids,
}
use lx.Exec.{Machine, ask, attempt, fail, lift, proceed, pure, ◌>>=◌, ◌>>◌}
use lx.Linux.Procfs.Processes.{
  ProcFsProcessProvider, list, with_ids, list_warning, for_ids, gather, get, add_process,
  arguments_of, count_code, count_codes, get_checked, get_details, list_warnings, or_nothing,
  or_warn, process_of_files, provider_error, state_name,
}
use lx.Base.Sort.{IsSorted, sort, insert_sorted}
use lx.Linux.Procfs.Processes.Listed.{Picks, list-Picks}
use lx.Base.Decimal.{
  at_end, decimal, from_chars, from_chars_signed, number_of, parse_unsigned, to_string,
}
use lx.Linux.Procfs.Stat.{
  closing, is_open, not_negative, parse_pid, parse_split, parse_stat, ppid_text, split_close,
  stat_error, stat_record, state_at, strip_spaces,
}
use lx.Linux.Procfs.Status.{
  complete, ends_token, fill_field, first_token, is_colon, leading_blank, newline,
  not_leading_blank, parse_status, read_field, read_key, read_line, read_lines, read_rss,
  read_value, rss_of, status_failure,
}
use lx.Linux.Procfs.Cmdline.{is_nul, parse_cmdline}

abbrev system : System
system = record { number = λ e. ℤ.pos 2; message = λ e. [] }

-- process 9 is gone when its files are read
abbrev files : FileSystem (Unit {0})
files = record {
  open_file = λ pid name w. (
    if pid == ℤ.pos 9
        then unopened (some enoent)
        else if name == text "stat"
        then contents (text "5 (sh) S 1 ")
        else if name == text "status"
        then contents (text "Uid:\t5\nGid:\t6\nThreads:\t1\n")
        else contents [],
    w,
  );
  read_symlink = λ pid name w. (inl enoent, w);
  open_root = λ w. (inr (entry (text "9") (entry (text "self") (entry (text "5") end))), w);
}

abbrev provider : ProcFsProcessProvider (Unit {0})
provider = record {
  system = system;
  files = files;
  name_for_uid = λ uid w. (success (text "www"), w);
}

abbrev machine : Machine (Unit {0})
machine = record { world = tt; calls = [] }

abbrev listed_here : Observation (List ProcessInfo)
listed_here = record {
  value =
      record {
        pid = ℤ.pos 5;
        ppid = ℤ.pos 1;
        name = text "sh";
        state = text "sleeping";
        uid = 5;
        gid = 6;
        user = text "www";
        executable = none;
        cwd = none;
        argv = [];
        rss_bytes = 0;
        threads = 1;
        cpu_percent = none;
        systemd_unit = none;
      }
      ∷ [];
  warnings = list_warning not_found 3 (text " process details disappeared during enumeration");
}

machine-list : list provider machine ≡ (some (success listed_here), machine)
unfolding add_pid add_process arguments_of ask at_end attempt before closing complete count_code
    count_codes decimal disappeared ends_token entry_ids errno_or_eio fail file_result fill_field
    first_token for_ids from from_chars from_chars_signed gather get get_checked get_details
    insert_sorted is_colon is_nul is_open leading_blank lift link_result list list_warning
    list_warnings newline not_leading_blank not_negative number_of or_nothing or_warn parse_cmdline
    parse_pid parse_pid_name parse_split parse_stat parse_status parse_unsigned pid_in_range pieces
    ppid_text proceed process_ids process_of_files provider_error pure read_field read_file read_key
    read_line read_lines read_link read_rss read_value reader_code reader_error rss_of sort
    sorted_ids split_close starts_with stat_error stat_record state_at state_name status_failure
    strip_spaces system_failure text to_string with_ids ◌>>=◌ ◌>>◌
machine-list = refl

list-Picks_example :
    (listing : Listing) × (ids : List ℤ) × ((files.open_root tt).0 ≡ inr listing)
    × (entry_ids listing ≡ some ids)
    × IsSorted int_ltb (sort int_ltb ids)
    × Picks provider (sort int_ltb ids) listed_here.value
list-Picks_example = list-Picks provider machine machine listed_here machine-list
