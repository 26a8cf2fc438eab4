-- ===== src/Thread.antt =====
-- The timer thread of src/lib/timer.cpp (`timerCk::doit`), where one table owns the nodes of the heap and
-- the deque. The clock is read as one time in a turn. `aborted`, `aborts` and `none` are an abort or undefined
-- behaviour.
pub mod Drain
pub mod Empty
mod Tests
use tcpoudp.Prelude.{
  ℕ, zero, suc, ◌+◌, Bool, true, false, Option, none, some, List, [], ◌∷◌, length, leb, half_word,
  ◌>>=◌, Attempt, aborts, spins, gives, attempt,
}
use tcpoudp.Delack.{Delayed, proc_delack_xmit}
use tcpoudp.Link.{Link, Env, transmit_some}
use tcpoudp.Node.{Node}
use tcpoudp.Run.{Outcome, aborted, unfinished, returned, try_run}
use tcpoudp.Timer.{Fired, proc_sndpkt}

-- A node's turn in `timerCk::proc_delack`.
abbrev pub delayed : Delayed → Link → Link
delayed d l = transmit_some d.sent (record l { tb = record l.tb { tc = d.tc } })

-- `timerCk::proc_delack`: the nodes that are left, and the link.
unfoldable pub delack_nodes : Env → List Node → Link → Option (List Node × Link)
delack_nodes env [] l = some ([], l)
delack_nodes env (n ∷ ns) l = do
  d ← proc_delack_xmit env.junk l.tb.tc env.now n
  (rest, l') ← delack_nodes env ns (delayed d l)
  some (d.node ∷ rest, l')

unfoldable pub proc_delack : Env → Link → Option Link
proc_delack env l = do (ns, l') ← delack_nodes env l.ackdeque l; some (record l' { ackdeque = ns })

-- The inner loop: `run` as long as its result is not negative, on the descriptor of the heap's top; the
-- top of an empty heap is undefined. `tries` are the results of its `try_lock`, `unfinished` the end
-- of them.
unfoldable pub drain : Env → List Bool → Link → Outcome
drain env [] l = elim l.timerheap [ [] ↦ aborted | n ∷ ns ↦ unfinished ]
drain env (free ∷ tries) l = elim l.timerheap [
  | [] ↦ aborted
  | n ∷ ns ↦ elim (try_run env free l) [
    | aborted ↦ aborted
    | unfinished ↦ unfinished
    | returned r l' ↦ elim (leb half_word r) [ true ↦ returned r l' | false ↦ drain env tries l' ]
  ]
]

-- `proc_sndpkt` on the link.
unfoldable pub resend : Env → Link → Option Link
resend env l = do
  f ← proc_sndpkt env.junk env.now l.timerheap l.tb.tc
  some (transmit_some f.sent (record l { timerheap = f.heap; tb = record l.tb { tc = f.tc } }))

-- What follows `proc_delack` in a turn. It spins where the loop over `run` outlasts the tries.
unfoldable pub after_delack : Env → List Bool → Link → Attempt Link
after_delack env tries l = elim l.timerheap [
  | [] ↦ gives l
  | n ∷ ns ↦ elim (drain env tries l) [
    | aborted ↦ aborts
    | unfinished ↦ spins
    | returned r l' ↦ attempt (resend env l')
  ]
]

-- One turn of `doit`.
unfoldable pub doit_turn : Env → List Bool → Link → Attempt Link
doit_turn env tries l = elim (proc_delack env l) [
  | none ↦ aborts
  | some l' ↦ after_delack env tries l'
]

-- The tries that find the lock free.
abbrev pub frees : List Bool → ℕ
frees [] = 0
frees (true ∷ tries) = frees tries + 1
frees (false ∷ tries) = frees tries
