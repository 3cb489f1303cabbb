-- ===== src/Word/Tests.antt =====
-- The theorems on words, at concrete ones.
use libumem.Base.{◌-◌, ◌<◌, arith}
use libumem.Bits.Split.{IsHigh}
use libumem.Word.{highbit, lowbit}
use libumem.Word.Highbit.{highbit_lem}
use libumem.Word.Lowbit.{IsLow, lowbit_lem}

highbit_lem_example : (0 < highbit 5000) × IsHigh 5000 (highbit 5000 - 1)
highbit_lem_example = highbit_lem 5000 (omega arith) (omega arith)

lowbit_lem_example : (0 < lowbit 5000) × IsLow 5000 (lowbit 5000 - 1)
lowbit_lem_example = lowbit_lem 5000 (omega arith) (omega arith)
