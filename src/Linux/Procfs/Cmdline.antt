-- ===== src/Linux/Procfs/Cmdline.antt =====
-- CmdlineParser.cpp: the arguments of a process, each ended by a NUL.
use lx.Base.{
  refl, nat_Eq, list_Eq, int_Eq, option_Eq, [], false, List, ℕ, pieces, Bool, Bytes, ◌≢◌, ◌==◌, ◌∷◌,
  ◌≡◌, All, arith, ◌++◌, pieces-append, All-map, ◌∙◌, ap,
}

unfoldable pub is_nul : ℕ → Bool
is_nul c = c == 0

unfoldable pub parse_cmdline : Bytes → List Bytes
unfolding is_nul pieces
parse_cmdline contents = pieces is_nul contents

-- what the kernel shows in /proc/PID/cmdline
abbrev pub cmdline : List Bytes → Bytes
cmdline [] = []
cmdline (argument ∷ rest) = argument ++ 0 ∷ cmdline rest

not_nul : (c : ℕ) → c ≢ 0 → is_nul c ≡ false
unfolding is_nul
not_nul c h = ground arith

-- Arguments without NUL bytes are read back from the form in which the kernel shows them, the empty
-- ones included.
pub parse_cmdline-cmdline :
    (arguments : List Bytes)
    → All (All (λ c. c ≢ 0)) arguments
    → parse_cmdline (cmdline arguments) ≡ arguments
unfolding parse_cmdline
parse_cmdline-cmdline [] _ = refl
parse_cmdline-cmdline (argument ∷ rest) (h, hs) =
    pieces-append is_nul argument (cmdline rest) 0 (All-map argument not_nul h) refl
    ∙ ap (λ t. argument ∷ t) (parse_cmdline-cmdline rest hs)
