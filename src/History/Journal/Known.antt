-- ===== src/History/Journal/Known.antt =====
-- src/history.rs: what has become of the numbers that were given out.
use vivado_server.Base.{ℕ, ◌≡◌, true, ◌++◌, arith}
use vivado_server.History.Journal.Retained.{Event}
use vivado_server.History.Journal.State.{Journal}
use vivado_server.History.Journal.Accounts.{Accounts, Told}
use vivado_server.History.Journal.Books.{queued}
use vivado_server.History.Journal.Detached.{with_gaps}
use vivado_server.History.Journal.Moves.{
  Turn, resting, gathering, writing, storing, tracking, trimming, joining, pruning, finishing,
  answering, noting, recovering, aging, unread, carried, is_resting, Moves,
}
use vivado_server.History.Journal.Turns.{IsDesk}

-- The accounts at any point of a turn.
pub desk-Accounts :
    (encoded : Event → ℕ) (t : Turn) (j : Journal)
    → IsDesk encoded t j
    → Accounts (unread t ++ queued j.queue) j.producer j.pending (with_gaps (carried t) j.reader)
unfolding unread carried
desk-Accounts encoded resting j v = v.accounts
desk-Accounts encoded (gathering batch) j v = v.accounts
desk-Accounts encoded (writing batch) j v = v.accounts
desk-Accounts encoded (storing batch left) j (v, s) = v.accounts
desk-Accounts encoded (tracking batch e left) j (v, s) = v.accounts
desk-Accounts encoded (trimming batch left id bytes items) j (v, s) = v.accounts
desk-Accounts encoded (joining batch gaps) j (v, s) = v.accounts
desk-Accounts encoded (pruning batch) j (v, s) = v.accounts
desk-Accounts encoded (finishing batch) j (v, s) = v.accounts
desk-Accounts encoded (answering batch left done) j (v, s, how) = v.accounts
desk-Accounts encoded (noting batch left done) j (v, s, how) = v.accounts
desk-Accounts encoded (recovering changed) j v = v.accounts
desk-Accounts encoded aging j v = v.accounts

pub resting-Told :
    (encoded : Event → ℕ) (t : Turn) (j : Journal)
    → is_resting t ≡ true
    → IsDesk encoded t j
    → Told j.reader
unfolding is_resting
resting-Told encoded resting j h v = v.told
resting-Told encoded (gathering batch) j h v = v.told
resting-Told encoded (writing batch) j h v = v.told
resting-Told encoded (storing batch left) j h v = absurd (ground (arith, h))
resting-Told encoded (tracking batch e left) j h v = absurd (ground (arith, h))
resting-Told encoded (trimming batch left id bytes items) j h v = absurd (ground (arith, h))
resting-Told encoded (joining batch gaps) j h v = absurd (ground (arith, h))
resting-Told encoded (pruning batch) j h (v, s) = v.told
resting-Told encoded (finishing batch) j h (v, s) = v.told
resting-Told encoded (answering batch left done) j h (v, s, how) = v.told
resting-Told encoded (noting batch left done) j h (v, s, how) = v.told
resting-Told encoded (recovering changed) j h v = v.told
resting-Told encoded aging j h v = v.told
