-- ===== src/Tests/Locals.antt =====
-- src/internal/phoenix_tls.rs.
use swym.Shared.{◌≡◌, Option, some, none, refl, arith}
use swym.Phoenix.{Tls, get, clone, new, drop, drop_handle, destroy, Step, Steps, stay, next, start}
use swym.Phoenix.Counts.{Counted, handles-Counted}

abbrev or_start : Option Tls → Tls
or_start none = start
or_start (some s) = s

-- The thread gets a handle, ends, and drops the handle.
abbrev got : Tls
got = or_start (get start)

gets : get start ≡ some got
unfolding get clone new
gets = refl

abbrev ended : Tls
ended = destroy got.slow got

abbrev dropped : Tls
dropped = drop_handle 0 ended

steps : Steps start dropped
unfolding get clone new drop
steps = next (next (next stay (Step.gets got gets)) Step.ends) (Step.drops 0 (omega arith))

unsubscribed : dropped.unsubscribes 0 ≡ 1
unfolding get clone new drop drop_handle
unsubscribed = refl

handles-Counted_example : Counted dropped 0
handles-Counted_example = handles-Counted dropped 0 steps
