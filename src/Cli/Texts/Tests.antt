-- ===== src/Cli/Texts/Tests.antt =====
-- `safeLogText` at a message with a control sequence.
use lx.Cli.Texts.{safe_from, safe_character}
use lx.Base.{text, ◌≡◌, [], refl, ◌∷◌, ◌++◌, ◌≤◌, All, Bytes, length}
use lx.Cli.Texts.{safe_log_text}
use lx.Cli.Texts.Escapes.{IsNotAsciiControl, safe_log_text-IsNotAsciiControl, IsShown}

abbrev message : Bytes
message = text "a" ++ 27 ∷ 10 ∷ []

escaped : safe_log_text message ≡ text "a\\x1b\\n"
unfolding text safe_log_text safe_from safe_character
escaped = refl

-- A byte from 128 on is not escaped: here 155, a control that begins a sequence as ESC and [ do.
high_byte_shown : safe_log_text (155 ∷ []) ≡ 155 ∷ []
unfolding text safe_log_text safe_from safe_character
high_byte_shown = refl

safe_log_text-IsNotAsciiControl_example :
    IsShown 4096 0 message (safe_log_text message)
    × All IsNotAsciiControl (safe_log_text message)
    × (length (safe_log_text message) ≤ 4102)
safe_log_text-IsNotAsciiControl_example = safe_log_text-IsNotAsciiControl message
