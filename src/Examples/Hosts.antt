-- ===== src/Examples/Hosts.antt =====
-- The server as a whole: goroutines that listen, accept, shut down and drain.
use smtpx.Base.{◌++◌, ◌∷◌, [], none, codes, All, ◌≡◌, ◌≢◌, ◌⊎◌, true, false, refl, sym, ◌∙◌, arith}
use smtpx.Examples.Data.{small_server, outside, says}
use smtpx.Server.Config.{set_defaults}
use smtpx.Server.Session.{Phase, returned, crashed}
use smtpx.Server.Turn.{advance, turn_in, is_live}
use smtpx.Server.Lifecycle.Drained.{IsOver, Run, drains}
use smtpx.Server.Lifecycle.{
  Client, arrive, take_turn, with_clients, turns, Arrival, Host, ended, up, bound, accepting,
  absent, new_host, Reach, begin, later, listen, accepted, refused, drained, shutdown, accept_one,
  stop_accepting, finish, shut_down, is_shutting_down, get_active_clients_count, ShutdownReturns,
  no_error, listener_gone,
}
use smtpx.Server.Lifecycle.Preserved.{HostInv, Reach-HostInv}
use smtpx.Server.Lifecycle.Shared.{IsServed, shutdown_never_seen, shutdown_waits}

abbrev visitor : Arrival
visitor = record {
  addr = codes "192.0.2.1:25";
  xid = codes "x0";
  time = codes "now";
  handshake_err = none;
}

abbrev listening : Host
listening = record (new_host small_server) { status = up; listener = bound; loop = accepting }

listening-Reach : Reach outside small_server listening
unfolding set_defaults
listening-Reach = later begin (listen none small_server refl refl)

-- A client is there when `Shutdown` is called.
abbrev visited : Host
visited = shut_down (accept_one listening visitor)

visited-Reach : Reach outside small_server visited
visited-Reach = later (later listening-Reach (accepted visitor refl refl)) shutdown

-- `Shutdown` without a client, and the end of `ListenAndServe` behind it.
abbrev drained_host : Host
drained_host = finish (stop_accepting (shut_down listening))

drained-Reach : Reach outside small_server drained_host
unfolding stop_accepting shut_down
drained-Reach = later (later (later listening-Reach shutdown) (refused refl)) (drained refl refl)

Reach-HostInv_example : HostInv visited
Reach-HostInv_example = Reach-HostInv visited-Reach

shutdown_never_seen_example :
    (is_shutting_down visited ≡ true → Host.clients visited ≡ [])
    × All (IsServed (Host.config visited)) (Host.clients visited)
shutdown_never_seen_example = shutdown_never_seen visited-Reach

drained-ShutdownReturns : ShutdownReturns drained_host no_error
unfolding finish stop_accepting shut_down
drained-ShutdownReturns = listener_gone (ground arith) refl

shutdown_waits_example :
    (Host.listener drained_host ≡ absent)
    ⊎ ((Host.loop drained_host ≡ ended)
        × (Host.clients drained_host ≡ [])
        × (get_active_clients_count drained_host ≡ 0))
shutdown_waits_example = shutdown_waits drained-Reach drained-ShutdownReturns

-- A client that is greeted and says QUIT, and then a server that stops.
abbrev arrived : Host
arrived = accept_one listening visitor

abbrev guest : Client
guest = arrive small_server 1 visitor

abbrev greeted : Client
greeted = take_turn arrived outside (says []) guest

-- The guest has been greeted.
abbrev serving_guest : Host
serving_guest = with_clients arrived ([] ++ (greeted ∷ []))

abbrev gone : Client
gone = take_turn serving_guest outside (says (codes "QUIT")) greeted

abbrev left : Host
left = stop_accepting (with_clients serving_guest ([] ++ (gone ∷ [])))

left-Reach : Reach outside small_server left
unfolding accept_one
left-Reach =
    later
      (later
        (later (later listening-Reach (accepted visitor refl refl))
          (turns (says []) guest [] [] refl refl))
        (turns (says (codes "QUIT")) greeted [] [] refl refl))
      (refused refl)

gone_returned : gone.session.phase ≡ returned
unfolding advance arrive turn_in is_shutting_down accept_one
gone_returned = refl

gone_dead : is_live gone.session ≡ false
unfolding advance arrive turn_in is_shutting_down accept_one
gone_dead = refl

returned-ne-crashed : Phase.returned ≢ crashed
returned-ne-crashed = ground arith

gone-IsOver : IsOver gone
gone-IsOver = (gone_dead, (λ crash. returned-ne-crashed (sym gone_returned ∙ crash)))

drains_example :
    (k : Host) × Run outside left k
    × (Host.loop k ≡ ended)
    × (Host.clients k ≡ [])
    × (is_shutting_down k ≡ true)
unfolding stop_accepting
drains_example = drains outside small_server left left-Reach refl (gone-IsOver, tt)
