-- ===== src/Tests/Tokens.antt =====
-- The states of the TOML scanner at concrete inputs.
use coaly.Prelude.Texts.{codes}
use coaly.Prelude.{◌≡◌, refl, true, false, arith}
use coaly.Scanner.{resume_calling_state}
use coaly.Scanner.Quotes.{
  delims_run, delims_meaning, delims_run-delims_meaning, escape_run, escape_run-unicode,
}
use coaly.Scanner.Strings.{escape_start}

delims_run-delims_meaning_example : delims_run b'"' 1 3 b'x' ≡ delims_meaning b'"' 4
delims_run-delims_meaning_example =
    delims_run-delims_meaning b'"' 1 3 b'x' (omega arith) (omega arith) refl

escape_run-unicode_example :
    escape_run (escape_start true) b'u' (codes "0041") ≡ resume_calling_state 0 65 1
escape_run-unicode_example =
    escape_run-unicode true false b'0' (codes "041") (refl, (refl, (refl, (refl, tt)))) refl
