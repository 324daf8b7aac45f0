-- ===== src/Application/LogService/Tests.antt =====
-- The theorems of the log service at small inputs.
use lx.Application.LogService.{
  parse_relative, without_last, normalize, normalized_unit, name_unit, valid_pid, age_from, age_of,
  multiplier, invalid_log, last_byte, back_by, since_epoch,
}
use lx.Base.{
  refl, some, [], text, ◌++◌, ◌∷◌, ◌^◌, ◌≡◌, before, from, if◌then◌else◌, leb, ◌*◌, ◌-◌, arith, ◌+◌,
}
use lx.Domain.{LogQuery, any_log, success}
use lx.Application.LogService.Queries.{IsLogQuery, normalize-IsLogQuery}
use lx.Base.Decimal.{to_string, parse_unsigned, from_chars, number_of, at_end}
use lx.Application.ServiceService.{
  normalize_unit, is_alnum, valid_unit_character, service_suffix, ends_with,
}
use lx.Application.LogService.Ages.{parse_relative-exact}

parse_relative-exact_example : parse_relative (to_string 10 ++ b'm' ∷ []) (2 ^ 60) ≡ (
    if leb (10 * 60 * 1000000000) (2 ^ 60)
    then success (2 ^ 60 - 10 * 60 * 1000000000)
    else invalid_log (text "Relative time precedes the Unix epoch") (text "parse since"))
parse_relative-exact_example =
    parse_relative-exact 10 b'm' 60 (2 ^ 60) minutes (omega arith) (omega arith)
  where
    minutes : multiplier b'm' ≡ some 60
    minutes = unfold multiplier in refl

-- An age of about 585 years wraps around and is read as a time after now.
age-wraps : parse_relative (text "18446744073s") (2 ^ 60) ≡ success (2 ^ 60 + 709551616)
unfolding text parse_relative without_last parse_unsigned from_chars before from number_of at_end
    age_from age_of multiplier last_byte back_by since_epoch
age-wraps = refl

abbrev asked : LogQuery
asked = record any_log { unit = some (text "web") }

abbrev answered : LogQuery
answered = record any_log { unit = some (text "web.service") }

asked-normalize : normalize asked ≡ success answered
unfolding text normalize normalized_unit name_unit valid_pid normalize_unit is_alnum
    valid_unit_character service_suffix ends_with
asked-normalize = refl

normalize-IsLogQuery_example : IsLogQuery answered
normalize-IsLogQuery_example = normalize-IsLogQuery asked answered asked-normalize
