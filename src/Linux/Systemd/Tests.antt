-- ===== src/Linux/Systemd/Tests.antt =====
-- The theorems of the journal fields at small inputs.
use lx.Linux.Systemd.JournalFields.{
  JournalFields, IsEntry, journal_entry_from_fields, journal_entry_from_fields-IsEntry,
}
use lx.Base.{some, none, [], text}

abbrev fields : JournalFields
fields = record {
  timestamp_usec = 5;
  cursor = [];
  systemd_unit = none;
  pid = some (text "42");
  command = none;
  message = none;
  priority = some (text "9");
}

journal_entry_from_fields-IsEntry_example : IsEntry fields (journal_entry_from_fields fields).value
journal_entry_from_fields-IsEntry_example = journal_entry_from_fields-IsEntry fields
