-- ===== src/Phoenix.antt =====
-- src/internal/phoenix_tls.rs: thread locals that are counted, and made again after they are gone.
-- One thread; an object is a number, in the order in which they are allocated.
pub mod Laws
pub mod Counts
use swym.Shared.{
  ℕ, ◌+◌, ◌-◌, ◌%◌, ◌≡◌, ◌<◌, Bool, true, false, Option, none, some, ◌==◌, if◌then◌else◌, update,
}
use swym.Epoch.Word.{word_mod, inactive_epoch}

-- usize::max_count()
abbrev pub max_count : ℕ
max_count = inactive_epoch

-- `PhoenixImpl`, without the value, and whether it is allocated
pub record PhoenixImpl : Type 0 where
  pub ref_count : ℕ
  pub clear_tls : Bool
  pub live : Bool

-- The `thread_local!` of the slow path: not yet made, holding a handle, or destroyed.
pub data Slow : Type 0 where
  unmade : Slow
  holds : ℕ → Slow
  destroyed : Slow

-- The objects, the number of them so far, the cached pointer, the slow thread local, and the calls of
-- `subscribe` and `unsubscribe` on each object. The handles that the program has are counted too.
pub record Tls : Type 0 where
  pub heap : ℕ → PhoenixImpl
  pub allocated : ℕ
  pub fast : Option ℕ
  pub slow : Slow
  pub subscribes : ℕ → ℕ
  pub unsubscribes : ℕ → ℕ
  pub handles : ℕ → ℕ

-- `Phoenix::new`; the object is the one whose number was next.
unfoldable pub new : Bool → Tls → Tls
new clear_tls s = record s {
  heap = update s.heap s.allocated (record { ref_count = 1; clear_tls = clear_tls; live = true });
  allocated = s.allocated + 1;
  subscribes = update s.subscribes s.allocated (s.subscribes s.allocated + 1);
}

abbrev pub set_count : ℕ → ℕ → Tls → Tls
set_count p count s = record s { heap = update s.heap p (record (s.heap p) { ref_count = count }) }

-- `clone`, and `clone_raw`; `none` is the abort.
unfoldable pub clone : ℕ → Tls → Option Tls
clone p s =
    let new_count = ((s.heap p).ref_count + 1) % word_mod in
    if new_count == max_count then none else some (set_count p new_count s)

-- `dealloc`
abbrev pub dealloc : ℕ → Tls → Tls
dealloc p s = record s {
  heap = update s.heap p (record (s.heap p) { live = false });
  fast = if (s.heap p).clear_tls then none else s.fast;
  unsubscribes = update s.unsubscribes p (s.unsubscribes p + 1);
}

-- `drop`
unfoldable pub drop : ℕ → Tls → Tls
drop p s =
    let count = (s.heap p).ref_count in
    let s' = set_count p ((count + word_mod - 1) % word_mod) s in
    if count == 1 then dealloc p s' else s'

-- `with`: the object that the closure is given, and the state at that time. A temporary is made
-- once the slow thread local is destroyed; it is dropped after the closure.
pub record With : Type 0 where
  pub object : ℕ
  pub temporary : Bool
  pub during : Tls

abbrev pub init : Slow → Tls → With
init Slow.unmade s = record {
  object = s.allocated;
  temporary = false;
  during = record (new true s) { slow = Slow.holds s.allocated; fast = some s.allocated };
}
init (Slow.holds p) s = record {
  object = p;
  temporary = false;
  during = record s { fast = some p };
}
init Slow.destroyed s = record { object = s.allocated; temporary = true; during = new false s }

abbrev pub with_fast : Option ℕ → Tls → With
with_fast none s = init s.slow s
with_fast (some p) s = record { object = p; temporary = false; during = s }

abbrev pub handed : ℕ → Tls → Tls
handed p s = record s { handles = update s.handles p (s.handles p + 1) }

-- `get`: `with` a closure that clones; the handle goes to the program.
abbrev pub after_clone : With → Option Tls → Option Tls
after_clone w none = none
after_clone w (some s) = some (handed w.object (if w.temporary then drop w.object s else s))

unfoldable pub get : Tls → Option Tls
get s = let w = with_fast s.fast s in after_clone w (clone w.object w.during)

-- A handle that the program clones, and one that it drops.
abbrev pub cloned : ℕ → Option Tls → Option Tls
cloned p none = none
cloned p (some s) = some (handed p s)

unfoldable pub clone_handle : ℕ → Tls → Option Tls
clone_handle p s = cloned p (clone p s)

unfoldable pub drop_handle : ℕ → Tls → Tls
drop_handle p s = drop p (record s { handles = update s.handles p (s.handles p - 1) })

-- The end of the thread drops the slow thread local.
abbrev pub destroy : Slow → Tls → Tls
destroy Slow.unmade s = record s { slow = Slow.destroyed }
destroy (Slow.holds p) s = drop p (record s { slow = Slow.destroyed })
destroy Slow.destroyed s = s

-- What the program and the end of the thread may do, in any order.
pub data Step (s : Tls) : Tls → Type 0 where
  gets : (s' : Tls) → get s ≡ some s' → Step s s'
  clones : (p : ℕ) (s' : Tls) → 0 < s.handles p → clone_handle p s ≡ some s' → Step s s'
  drops : (p : ℕ) → 0 < s.handles p → Step s (drop_handle p s)
  ends : Step s (destroy s.slow s)

pub data Steps (s : Tls) : Tls → Type 0 where
  stay : Steps s s
  next : {u v : Tls} → Steps s u → Step u v → Steps s v

abbrev pub start : Tls
start = record {
  heap = λ p. record { ref_count = 0; clear_tls = false; live = false };
  allocated = 0;
  fast = none;
  slow = Slow.unmade;
  subscribes = λ p. 0;
  unsubscribes = λ p. 0;
  handles = λ p. 0;
}
