-- ===== src/Prelude/Lock.antt =====
-- sync.RWMutex as one goroutine sees it. It is not reentrant: `Lock` waits for every holder, and
-- `RLock` for a writer, so a goroutine that asks again for a lock that it holds never goes on.
use mathlib.Core.Bool.{Bool, true, false}

pub data Lock : Type 0 where
  free reading writing : Lock

-- Lock() returns
abbrev pub can_lock : Lock → Bool
can_lock free = true
can_lock reading = false
can_lock writing = false

-- RLock() returns
abbrev pub can_read : Lock → Bool
can_read free = true
can_read reading = true
can_read writing = false
