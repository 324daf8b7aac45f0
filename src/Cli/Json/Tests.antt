-- ===== src/Cli/Json/Tests.antt =====
-- The theorem of the hidden arguments at a command line.
use lx.Cli.Json.{argument_values, argument_value, asks_to_redact}
use lx.Cli.Texts.{secret_key, hides_next, argument_key}
use lx.Application.FindService.{lower, lower_byte}
use lx.Base.{from, before}
use lx.Base.{text, ◌≡◌, [], refl, false, List, Bytes, Bool, inl, ◌∷◌, inr}
use lx.Cli.Texts.{displayed_arguments}
use lx.Cli.Json.Secrets.{SameButSecrets, arguments-SameButSecrets}
use lx.Cli.Json.{arguments}

abbrev first_line : List Bytes
first_line = text "db" ∷ text "--password" ∷ text "one" ∷ text "token=x" ∷ []

abbrev second_line : List Bytes
second_line = text "db" ∷ text "--password" ∷ text "two" ∷ text "token=y" ∷ []

shown_line :
    arguments first_line false
    ≡ text "db" ∷ text "--password" ∷ text "<redacted>" ∷ text "token=<redacted>" ∷ []
unfolding arguments argument_values text argument_value asks_to_redact secret_key lower from before
    lower_byte
shown_line = refl

same_lines : SameButSecrets false first_line second_line
unfolding hides_next secret_key lower argument_key from before text lower_byte
same_lines =
    (inl refl, (inl refl, (inr (text "token", text "x", text "y", refl, refl, refl, refl), tt)))

arguments-SameButSecrets_example :
    (displayed_arguments first_line false ≡ displayed_arguments second_line false)
    × (arguments first_line false ≡ arguments second_line false)
    × ((raw : Bool) → arguments first_line raw ≡ displayed_arguments first_line raw)
arguments-SameButSecrets_example = arguments-SameButSecrets first_line second_line same_lines
