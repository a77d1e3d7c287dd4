-- ===== src/Argv/Tests.antt =====
-- Runs of argv.c at concrete inputs.
use powerman.Base.{◌≡◌, some}
use powerman.CStr.{CStr, codes}
use powerman.Argv.{argv_create}
use powerman.Argv.Words.{words, argv_create-words}

abbrev line : CStr
line = codes "ssh -p;22 t1"

argv_create-words_example : argv_create line (codes ";") ≡ some (words (codes ";") line)
argv_create-words_example = argv_create-words line (codes ";")
