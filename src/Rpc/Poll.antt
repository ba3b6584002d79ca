-- ===== src/Rpc/Poll.antt =====
-- The poll manager of rpc/pollmgr.cc over `select`: which descriptors are watched, whose callback
-- each has, and one round of the poll thread. A set of descriptors is a test. `none` is a process
-- that a VERIFY ends. The byte that wakes the poll thread out of `select` has no other effect.
use simple_distributed_files.Prelude.{
  ℕ, zero, suc, ◌<◌, Bool, true, false, not, ◌&&◌, ◌||◌, List, [], ◌∷◌, ◌++◌, Option, none, some,
  ltb, leb, ◌==◌, if◌then◌else◌,
}
pub mod Select
pub mod Turns
pub mod Removal
mod Tests

pub data PollFlag : Type 0 where
  cb_none cb_rdonly cb_wronly cb_rdwr cb_mask : PollFlag

abbrev pub FdSet : Type 0
FdSet = ℕ → Bool

abbrev pub fd_zero : FdSet
fd_zero fd = false

abbrev pub fd_put : ℕ → FdSet → FdSet
fd_put fd s i = if i == fd then true else s i

abbrev pub fd_clr : ℕ → FdSet → FdSet
fd_clr fd s i = if i == fd then false else s i

pub record SelectAio : Type 0 where
  pub rfds : FdSet
  pub wfds : FdSet
  pub highfds : ℕ
  pub pipe : ℕ

abbrev pub select_new : ℕ → SelectAio
select_new pipe = record { rfds = fd_put pipe fd_zero; wfds = fd_zero; highfds = pipe; pipe = pipe }

unfoldable pub watch_fd : ℕ → PollFlag → SelectAio → SelectAio
watch_fd fd flag a =
    let high : ℕ = if leb a.highfds fd then fd else a.highfds in
    elim flag [
      | cb_rdonly ↦ record a { highfds = high; rfds = fd_put fd a.rfds }
      | cb_wronly ↦ record a { highfds = high; wfds = fd_put fd a.wfds }
      | _ ↦ record a { highfds = high; rfds = fd_put fd a.rfds; wfds = fd_put fd a.wfds }
    ]

unfoldable pub is_watched : ℕ → PollFlag → SelectAio → Bool
is_watched fd flag a = elim flag [
  | cb_rdonly ↦ a.rfds fd
  | cb_wronly ↦ a.wfds fd
  | _ ↦ a.rfds fd && a.wfds fd
]

-- The loop that looks for the highest descriptor, over those below a bound.
unfoldable pub find_high : ℕ → SelectAio → ℕ
find_high zero a = a.pipe
find_high (suc i) a = if a.rfds i then i else if a.wfds i then i else find_high i a

-- The sets that `unwatch_fd` leaves.
unfoldable pub clear_fd : ℕ → PollFlag → SelectAio → Option SelectAio
clear_fd fd cb_rdonly a = some (record a { rfds = fd_clr fd a.rfds })
clear_fd fd cb_wronly a = some (record a { wfds = fd_clr fd a.wfds })
clear_fd fd cb_rdwr a = some (record a { rfds = fd_clr fd a.rfds; wfds = fd_clr fd a.wfds })
clear_fd fd _ a = none

unfoldable pub lower_high : ℕ → SelectAio → SelectAio
lower_high fd a =
    if not (a.rfds fd) && not (a.wfds fd) && fd == a.highfds
    then record a { highfds = find_high (suc a.highfds) a }
    else a

-- `unwatch_fd`, and whether the descriptor is not watched at all any more.
unfoldable pub unwatch_fd : ℕ → PollFlag → SelectAio → Option (SelectAio × Bool)
unwatch_fd fd flag a = elim (clear_fd fd flag a) [
  | none ↦ none
  | some b ↦ some (lower_high fd b, not (b.rfds fd) && not (b.wfds fd))
]

-- The loop over the descriptors below a bound, after `select` left those that are ready.
unfoldable pub collect : ℕ → ℕ → FdSet → FdSet → List ℕ × List ℕ
collect pipe zero trfds twfds = ([], [])
collect pipe (suc fd) trfds twfds =
    let (readable, writable) = collect pipe fd trfds twfds in
    if fd == pipe && trfds fd then (readable, writable) else (
      if trfds fd then readable ++ fd ∷ [] else readable,
      if twfds fd then writable ++ fd ∷ [] else writable,
    )

-- `wait_ready`, with what `select` leaves of the two sets.
unfoldable pub wait_ready : FdSet → FdSet → SelectAio → List ℕ × List ℕ
wait_ready trfds twfds a = collect a.pipe (suc a.highfds) trfds twfds

pub record PollMgr (A : Type 0) : Type 0 where
  pub callbacks : ℕ → Option A
  pub aio : SelectAio
  pub pending_change : Bool

abbrev pub max_poll_fds : ℕ
max_poll_fds = 128

module _ {A : Type 0} where
  abbrev pub set_callback : ℕ → Option A → (ℕ → Option A) → ℕ → Option A
  set_callback fd c cs i = if i == fd then c else cs i

  abbrev pub pollmgr_new : ℕ → PollMgr A
  pollmgr_new pipe = record {
    callbacks = λ fd. none;
    aio = select_new pipe;
    pending_change = false;
  }

  unfoldable pub add_callback : (A → A → Bool) → ℕ → PollFlag → A → PollMgr A → Option (PollMgr A)
  add_callback same fd flag ch m =
      if not (ltb fd max_poll_fds)
      then none
      else if elim (m.callbacks fd) [ none ↦ true | some c ↦ same c ch ]
      then some (record m {
        aio = watch_fd fd flag m.aio;
        callbacks = set_callback fd (some ch) m.callbacks;
      })
      else none

  unfoldable pub del_callback : ℕ → PollFlag → PollMgr A → Option (PollMgr A)
  del_callback fd flag m = elim (unwatch_fd fd flag m.aio) [
    | none ↦ none
    | some (a, gone) ↦ some (record m {
      aio = a;
      callbacks = if gone then set_callback fd none m.callbacks else m.callbacks;
    })
  ]

  unfoldable pub has_callback : (A → A → Bool) → ℕ → PollFlag → A → PollMgr A → Bool
  has_callback same fd flag c m = elim (m.callbacks fd) [
    | none ↦ false
    | some d ↦ same d c && is_watched fd flag m.aio
  ]

  -- `block_remove_fd` up to its wait.
  unfoldable pub block_remove_fd : ℕ → PollMgr A → Option (PollMgr A)
  block_remove_fd fd m = elim (unwatch_fd fd cb_rdwr m.aio) [
    | none ↦ none
    | some (a, gone) ↦ some (record m { aio = a; pending_change = true })
  ]

  -- The rest of `block_remove_fd`.
  unfoldable pub removed : ℕ → PollMgr A → PollMgr A
  removed fd m = record m { callbacks = set_callback fd none m.callbacks }
