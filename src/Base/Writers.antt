-- ===== src/Base/Writers.antt =====
-- `impl Write`, the writers of the standard library that the code is generic over: what it calls
-- is `write_all`, which takes all bytes or fails. `Vec<u8>` is the writer of the tests.
use fast_rsync.Base.Lists.{Bytes}
use fast_rsync.Base.Results.{Outcome, ok, err}

-- `io::Result<()>`, with the writer after the call.
pub data IoResult (E W : Type 0) : Type 0 where
  written : W → IoResult E W
  failed : E → IoResult E W

pub record Write (E W : Type 0) : Type 0 where
  pub write_all : Bytes → W → IoResult E W

-- A writer's result behind `?`, with `From<io::Error>`.
abbrev pub from_io : {E W F : Type 0} → (E → F) → IoResult E W → Outcome F W
from_io f (written w) = ok w
from_io f (failed e) = err (f e)
