-- ===== src/Libc/Tests.antt =====
-- Runs of the string and memory functions on concrete memories and texts.
use prismatic_os.Base.{ℕ, ◌%◌, ◌≡◌, none, some, List, [], ◌∷◌, arith, codes}
use prismatic_os.Libc.Mem.{Mem, memmove, memset, memcmp}
use prismatic_os.Libc.Mem.Copy.{Copied, memmove-Copied}
use prismatic_os.Libc.Mem.Fill.{Filled, memset-Filled}
use prismatic_os.Libc.Mem.Compare.{Verdict, memcmp-Verdict}
use prismatic_os.Libc.Strtok.{tokens}
use prismatic_os.Libc.Strtok.Words.{words, tokens-words}
use prismatic_os.Libc.StrCopy.{strncpy, strncpy_overrun}

-- Every byte is the low byte of its address.
abbrev counting : Mem
counting a = a % 256

memmove-Copied_example : Copied counting (memmove 105 100 20 counting) 105 100 20
memmove-Copied_example = memmove-Copied 105 100 20 counting

memset-Filled_example : Filled counting (memset 3 513 20 counting) 3 (513 % 256) 20
memset-Filled_example = memset-Filled 3 513 20 counting

memcmp-Verdict_example : Verdict counting 3 259 20 (memcmp 3 259 20 counting)
memcmp-Verdict_example = memcmp-Verdict 3 259 20 counting (λ a. omega arith)

tokens-words_example :
    tokens 9 (codes "/") (some (codes "/usr/bin")) none ≡ words (codes "/") (codes "/usr/bin")
tokens-words_example = tokens-words 9 (codes "/") (codes "/usr/bin") none (omega arith)

abbrev three_handlers : List ℕ
three_handlers = 1 ∷ 2 ∷ 3 ∷ []

strncpy_overrun_example : strncpy 8 (codes "abc") 2 counting 1000 ≡ 0
strncpy_overrun_example =
    strncpy_overrun 2 8 (codes "abc") counting (omega arith) 1000 (omega arith) (omega arith)
