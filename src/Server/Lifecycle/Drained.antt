-- ===== src/Server/Lifecycle/Drained.antt =====
-- How a server that has stopped accepting comes to its end (server.go, `ListenAndServe` and `Shutdown`).
use smtpx.Base.{true, false, List, [], ◌∷◌, All, length, ◌≡◌, ◌≢◌, refl, ap, ◌∙◌}
use smtpx.Server.Config.{Server}
use smtpx.Server.Lifecycle.{
  Host, Client, Stage, serving, hung_up, uncounted, draining, ended, finish, hang_up,
  is_shutting_down, Step, returns, uncounts, leaves, drained, Reach, later,
}
use smtpx.Server.Lifecycle.Preserved.{Reach-HostInv}
use smtpx.Server.Session.{Externals, crashed}
use smtpx.Server.Turn.{is_live}

-- The loop of `handleConn` has been left, and not by a panic.
abbrev pub IsOver : Client → Type 0
IsOver c = (is_live c.session ≡ false) × (c.session.phase ≢ crashed)

-- Steps from a state.
pub data Run (x : Externals) (h : Host) : Host → Type 0 where
  stay : Run x h h
  next : {k l : Host} → Run x h k → Step x k l → Run x h l

Run-Reach : {x : Externals} {cfg : Server} {h k : Host} → Run x h k → Reach x cfg h → Reach x cfg k
Run-Reach stay r = r
Run-Reach (next run s) r = later (Run-Reach run r) s

-- A state that comes later than `h`, in which the server drains and has these connections.
abbrev Later : Externals → Host → List Client → Type 0
Later x h cs = (k : Host) × Run x h k × (k.loop ≡ draining) × (k.clients ≡ cs)

module _ (x : Externals) (h : Host) where
  leave_uncounted :
      (k : Host) (c : Client) (cs : List Client)
      → Run x h k
      → k.loop ≡ draining
      → k.clients ≡ c ∷ cs
      → c.stage ≡ uncounted
      → Later x h cs
  leave_uncounted k c cs run q at stage = (_, next run (leaves c [] cs at stage), q, refl)

  leave_hung_up :
      (k : Host) (c : Client) (cs : List Client)
      → Run x h k
      → k.loop ≡ draining
      → k.clients ≡ c ∷ cs
      → c.stage ≡ hung_up
      → Later x h cs
  leave_hung_up k c cs run q at stage =
      leave_uncounted _ (record c { stage = uncounted }) cs (next run (uncounts c [] cs at stage)) q
        refl refl

  leave_serving :
      (k : Host) (c : Client) (cs : List Client)
      → Run x h k
      → k.loop ≡ draining
      → k.clients ≡ c ∷ cs
      → c.stage ≡ serving
      → IsOver c
      → Later x h cs
  leave_serving k c cs run q at stage (dead, fine) =
      leave_hung_up _ (hang_up c) cs (next run (returns c [] cs at stage dead fine)) q refl refl

  leave_one :
      (k : Host) (c : Client) (cs : List Client) (s : Stage)
      → Run x h k
      → k.loop ≡ draining
      → k.clients ≡ c ∷ cs
      → c.stage ≡ s
      → IsOver c
      → Later x h cs
  leave_one k c cs serving run q at stage over = leave_serving k c cs run q at stage over
  leave_one k c cs hung_up run q at stage over = leave_hung_up k c cs run q at stage
  leave_one k c cs uncounted run q at stage over = leave_uncounted k c cs run q at stage

  leave_each :
      (cs : List Client) (k : Host)
      → Run x h k
      → k.loop ≡ draining
      → k.clients ≡ cs
      → All IsOver cs
      → Later x h []
  leave_each [] k run q at over = (k, run, q, at)
  leave_each (c ∷ cs) k run q at (here, over) =
      let (l, run1, q1, at1) = leave_one k c cs c.stage run q at refl here in
      leave_each cs l run1 q1 at1 over

-- A server that has stopped accepting can come to the end of ListenAndServe from every state in which the
-- loop of handleConn has been left in all of its connections, and in none by a panic: there are steps to
-- a state without connections and with the flag of the shutdown up.
pub drains :
    (x : Externals) (cfg : Server) (h : Host)
    → Reach x cfg h
    → h.loop ≡ draining
    → All IsOver h.clients
    → (k : Host) × Run x h k × (k.loop ≡ ended) × (k.clients ≡ []) × (is_shutting_down k ≡ true)
unfolding finish is_shutting_down
drains x cfg h r q over =
    let (k, run, q1, none_left) = leave_each x h h.clients h stay q refl over in
    let idle_group = (Reach-HostInv (Run-Reach run r)).waits ∙ ap length none_left in
    (finish k, next run (drained q1 idle_group), refl, none_left, refl)
