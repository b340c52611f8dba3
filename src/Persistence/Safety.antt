-- ===== src/Persistence/Safety.antt =====
-- internal/persistence: recovery from files of any contents.
use gocache.Prelude.{suc, ◌<◌, ◌≡◌, ◌⊎◌, List, [], length, Outcome, panic}
use gocache.Prelude.Maps.{Bytes}
use gocache.Resp.{Value, ParseError, eof, good, bad, crash, parse}
use gocache.Cache.{Cache}
use gocache.Cache.Spec.{Entry}
use gocache.Cache.Steps.{Becomes}

-- A cache with the capacity and the lock of another, that holds some list of entries.
abbrev pub Sound : Outcome Cache → Cache → Type 0
Sound o c = (es : List Entry) × Becomes o c es

abbrev pub SoundOrPanic : Outcome Cache → Cache → Type 0
SoundOrPanic o c = (o ≡ panic) ⊎ Sound o c

-- What a round of the loops meets: a value or an error after which fewer bytes are left, the end of
-- the file, or a panic.
data Round (input : Bytes) : Type 0 where
  value_read :
      (v : Value) (rest : Bytes)
      → parse (suc (length input)) input ≡ good v rest
      → length rest < length input
      → Round input
  passed_over :
      (e : ParseError) (rest : Bytes)
      → parse (suc (length input)) input ≡ bad e rest
      → length rest < length input
      → Round input
  at_end : parse (suc (length input)) input ≡ bad eof [] → Round input
  negative_length : parse (suc (length input)) input ≡ crash → Round input
