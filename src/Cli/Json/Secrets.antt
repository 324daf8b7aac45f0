-- ===== src/Cli/Json/Secrets.antt =====
-- The arguments of a process on the terminal and with `--json`: what they hide.
use lx.Base.{
  ◌≡◌, refl, [], true, false, nat_Eq, list_Eq, int_Eq, option_Eq, before, Bool, Bytes, ◌⊎◌, List,
  any_of, ◌∙◌, ◌∷◌, ◌==◌, inl, ap, ◌++◌, sym, from, arith, any_of-append, inr, not, if◌then◌else◌,
  ◌&&◌,
}
use lx.Cli.Json.{arguments, argument_values, argument_value, asks_to_redact}
use lx.Cli.Texts.{
  redact, displayed_arguments, shown_argument, hides_next, argument_key, secret_key, redacted,
}

-- Both are `key=value` for the same key, which names a secret.
abbrev pub SameSecret : Bytes → Bytes → Type 0
SameSecret x y =
    (key : Bytes) × (v : Bytes) × (w : Bytes) × (any_of (λ c. c == b'=') key ≡ false)
    × (secret_key (from (λ c. not (c == b'-')) key) ≡ true)
    × (x ≡ key ++ b'=' ∷ v)
    × (y ≡ key ++ b'=' ∷ w)

-- The lists are the same but for the values of secrets: those behind `=`, and the argument behind one
-- that names a secret and has no value. The flag says whether the first argument is such a value.
abbrev pub SameButSecrets : Bool → List Bytes → List Bytes → Type 0
SameButSecrets hidden [] [] = Unit
SameButSecrets hidden [] (y ∷ ys) = ⊥
SameButSecrets hidden (x ∷ xs) [] = ⊥
SameButSecrets true (x ∷ xs) (y ∷ ys) = SameButSecrets false xs ys
SameButSecrets false (x ∷ xs) (y ∷ ys) =
    ((x ≡ y) ⊎ SameSecret x y) × SameButSecrets (hides_next x) xs ys

before_key :
    (key value : Bytes)
    → any_of (λ c. c == b'=') key ≡ false
    → before (λ c. c == b'=') (key ++ b'=' ∷ value) ≡ key
unfolding before
before_key [] value h = refl
before_key (c ∷ key) value h =
    let rest = before_key key value (ground arith) in
    let other : (c == b'=') ≡ false = ground arith in rw other (ap (λ k. c ∷ k) rest)

any_key : (key value : Bytes) → any_of (λ c. c == b'=') (key ++ b'=' ∷ value) ≡ true
any_key key value = any_of-append (λ c. c == b'=') key (b'=' ∷ value) refl

-- a secret `key=value` is shown without the value, and hides nothing behind it
shown_secret :
    (key value : Bytes)
    → any_of (λ c. c == b'=') key ≡ false
    → secret_key (from (λ c. not (c == b'-')) key) ≡ true
    → (shown_argument (key ++ b'=' ∷ value) ≡ key ++ b'=' ∷ redacted)
      × (hides_next (key ++ b'=' ∷ value) ≡ false)
unfolding shown_argument hides_next argument_key
shown_secret key value plain secret =
    let k = before_key key value plain in
    let a = any_key key value in (rw (k, secret, a) refl, rw (k, secret, a) refl)

shown-SameSecret :
    (x y : Bytes)
    → SameSecret x y
    → (shown_argument x ≡ shown_argument y) × (hides_next x ≡ hides_next y)
shown-SameSecret x y (key, v, w, plain, secret, ex, ey) =
    let (sx, hx) = shown_secret key v plain secret in
    let (sy, hy) = shown_secret key w plain secret in
    (rw (ex, ey) (sx ∙ sym sy), rw (ex, ey) (hx ∙ sym hy))

shown-SameButSecrets :
    (x y : Bytes)
    → (x ≡ y) ⊎ SameSecret x y
    → (shown_argument x ≡ shown_argument y) × (hides_next x ≡ hides_next y)
shown-SameButSecrets x y (inl e) = (ap shown_argument e, ap hides_next e)
shown-SameButSecrets x y (inr s) = shown-SameSecret x y s

redact-SameButSecrets :
    (hidden : Bool) (xs ys : List Bytes)
    → SameButSecrets hidden xs ys
    → redact hidden xs ≡ redact hidden ys
unfolding redact
redact-SameButSecrets hidden [] [] same = refl
redact-SameButSecrets hidden [] (y ∷ ys) same = absurd same
redact-SameButSecrets hidden (x ∷ xs) [] same = absurd same
redact-SameButSecrets true (x ∷ xs) (y ∷ ys) same =
    ap (λ l. redacted ∷ l) (redact-SameButSecrets false xs ys same)
redact-SameButSecrets false (x ∷ xs) (y ∷ ys) (first, same) =
    let (shown, hides) = shown-SameButSecrets x y first in
    let rest = redact-SameButSecrets (hides_next x) xs ys same in
    rw (shown, ← hides) (ap (λ l. shown_argument y ∷ l) rest)

argument_values-redact :
    (hidden : Bool) (xs : List Bytes) → argument_values hidden xs ≡ redact hidden xs
unfolding argument_values redact argument_value shown_argument asks_to_redact hides_next
    argument_key
argument_values-redact hidden [] = refl
argument_values-redact hidden (x ∷ xs) =
    ap (λ l. (if hidden then redacted else shown_argument x) ∷ l)
      (argument_values-redact (not hidden && hides_next x) xs)

-- Unless `--raw-command` asks for the values, two command lines that differ in the values of secrets
-- alone are shown alike, on the terminal and with `--json`, which shows the same arguments.
pub arguments-SameButSecrets :
    (xs ys : List Bytes)
    → SameButSecrets false xs ys
    → (displayed_arguments xs false ≡ displayed_arguments ys false)
      × (arguments xs false ≡ arguments ys false)
      × ((raw : Bool) → arguments xs raw ≡ displayed_arguments xs raw)
unfolding displayed_arguments arguments
arguments-SameButSecrets xs ys same =
    let shown = redact-SameButSecrets false xs ys same in
    (shown, argument_values-redact false xs ∙ shown ∙ sym (argument_values-redact false ys), alike)
  where
    alike : (raw : Bool) → arguments xs raw ≡ displayed_arguments xs raw
    alike true = refl
    alike false = argument_values-redact false xs
