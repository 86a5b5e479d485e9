-- ===== src/Executor/Execution.antt =====
-- Handlers that call the host and may fail: a call that was made stays made.
use cpa_codex_compact_bridge.Common.{List}
use cpa_codex_compact_bridge.Errors.{Err, Result, ok, err}
use cpa_codex_compact_bridge.Host.{HostModelExecutionRequest}

-- The calls of host.model.execute, in their order.
abbrev pub Calls : Type 0
Calls = List HostModelExecutionRequest

abbrev pub Run : Type 0 → Type 0
Run A = Calls → Result A × Calls

abbrev pub pure : {A : Type 0} → A → Run A
pure a calls = (ok a, calls)

abbrev pub raise : {A : Type 0} → Err → Run A
raise e calls = (err e, calls)

abbrev pub lift : {A : Type 0} → Result A → Run A
lift r calls = (r, calls)

abbrev pub continue : {A B : Type 0} → Result A → (A → Run B) → Run B
continue (ok a) f calls = f a calls
continue (err e) f calls = (err e, calls)

infixl 5 ◌>>=◌ ◌>>◌
abbrev pub ◌>>=◌ : {A B : Type 0} → Run A → (A → Run B) → Run B
◌>>=◌ m f calls = let (r, calls') = m calls in continue r f calls'

abbrev pub ◌>>◌ : {A B : Type 0} → Run A → Run B → Run B
m >> k = m >>= λ _. k
