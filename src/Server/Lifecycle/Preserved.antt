-- ===== src/Server/Lifecycle/Preserved.antt =====
-- What holds in every state of the server (server.go, `ListenAndServe`).
use smtpx.Base.{
  ℕ, ◌+◌, ◌-◌, ◌≤◌, ◌<◌, true, List, [], ◌∷◌, ◌++◌, ◌≡◌, ◌≢◌, refl, ap, sym, arith, length,
  length-append, ◌∙◌,
}
use mathlib.Core.Path.{subst}
use smtpx.Server.Lifecycle.{
  Host, Client, uncounted, idle, accepting, draining, ended, Arrival, accept_one, stop_accepting,
  finish, shut_down, take_turn, hang_up, Step, no_defaults, no_listener, listen, accepted, refused,
  drained, shutdown, turns, returns, uncounts, leaves, Reach, begin, later,
}
use smtpx.Server.Config.{Server}
use smtpx.Server.Session.{Externals}

-- The numbers of the connections decrease from a bound on, so no two are the same.
abbrev pub Below : ℕ → List Client → Type 0
Below n [] = Unit
Below n (c ∷ cs) = (c.number < n) × Below c.number cs

abbrev pub weight : Client → ℕ
weight c = elim c.stage [ uncounted ↦ 0 | _ ↦ 1 ]

abbrev pub counted : List Client → ℕ
counted [] = 0
counted (c ∷ cs) = weight c + counted cs

pub record HostInv (h : Host) : Type 0 where
  pub waits : h.wait_group ≡ length h.clients
  pub counts : h.count_connections ≡ counted h.clients
  pub numbered : Below (h.connection_id + 1) h.clients
  pub none_before : h.loop ≡ idle → h.clients ≡ []
  pub none_after : h.loop ≡ ended → h.clients ≡ []
  pub closed_after : h.closed_listener ≡ true → h.loop ≡ ended

counted-append : (cs ds : List Client) → counted (cs ++ ds) ≡ counted cs + counted ds
counted-append [] ds = omega arith
counted-append (c ∷ cs) ds = omega (arith, counted-append cs ds)

Below-replace :
    (n : ℕ) (c d : Client) (cs ds : List Client)
    → d.number ≡ c.number
    → Below n (cs ++ (c ∷ ds))
    → Below n (cs ++ (d ∷ ds))
Below-replace n c d [] ds e (lt, b) = rw e (lt, b)
Below-replace n c d (a ∷ cs) ds e (lt, b) = (lt, Below-replace a.number c d cs ds e b)

Below-weaken : (m n : ℕ) (cs : List Client) → m ≤ n → Below m cs → Below n cs
Below-weaken m n [] h b = tt
Below-weaken m n (c ∷ cs) h (lt, b) = (omega arith, b)

Below-remove :
    (n : ℕ) (c : Client) (cs ds : List Client) → Below n (cs ++ (c ∷ ds)) → Below n (cs ++ ds)
Below-remove n c [] ds (lt, b) = Below-weaken c.number n ds (omega arith) b
Below-remove n c (a ∷ cs) ds (lt, b) = (lt, Below-remove a.number c cs ds b)

-- A list with an element is not empty.
pub append-cons-ne-nil : (c : Client) (cs ds : List Client) → (cs ++ (c ∷ ds)) ≢ []
append-cons-ne-nil c [] ds = ground arith
append-cons-ne-nil c (a ∷ cs) ds = ground arith

-- One connection of the list changes, with its number kept.
replace-HostInv :
    (h : Host) (c d : Client) (cs ds : List Client) (count : ℕ)
    → HostInv h
    → h.clients ≡ cs ++ (c ∷ ds)
    → d.number ≡ c.number
    → count + weight c ≡ h.count_connections + weight d
    → HostInv (record h { count_connections = count; clients = cs ++ (d ∷ ds) })
replace-HostInv h c d cs ds count v at same moved =
    let there = append-cons-ne-nil c cs ds in
    record {
      waits =
          v.waits
          ∙ ap length at
          ∙ (omega (arith, length-append cs (c ∷ ds), length-append cs (d ∷ ds)));
      counts = omega (
        arith,
        moved,
        v.counts,
        ap counted at,
        counted-append cs (c ∷ ds),
        counted-append cs (d ∷ ds),
      );
      numbered =
          Below-replace (h.connection_id + 1) c d cs ds same
            (subst (Below (h.connection_id + 1)) at v.numbered);
      none_before = λ q. absurd (there (sym at ∙ v.none_before q));
      none_after = λ q. absurd (there (sym at ∙ v.none_after q));
      closed_after = v.closed_after;
    }

leave-HostInv :
    (h : Host) (c : Client) (cs ds : List Client)
    → HostInv h
    → h.clients ≡ cs ++ (c ∷ ds)
    → c.stage ≡ uncounted
    → HostInv (record h { wait_group = h.wait_group - 1; clients = cs ++ ds })
leave-HostInv h c cs ds v at gone =
    let there = append-cons-ne-nil c cs ds in
    let light : weight c ≡ 0 = ground arith in
    record {
      waits = omega (arith, v.waits, ap length at, length-append cs (c ∷ ds), length-append cs ds);
      counts =
          omega (
            arith,
            light,
            v.counts,
            ap counted at,
            counted-append cs (c ∷ ds),
            counted-append cs ds,
          );
      numbered =
          Below-remove (h.connection_id + 1) c cs ds
            (subst (Below (h.connection_id + 1)) at v.numbered);
      none_before = λ q. absurd (there (sym at ∙ v.none_before q));
      none_after = λ q. absurd (there (sym at ∙ v.none_after q));
      closed_after = v.closed_after;
    }

accept_one-HostInv :
    (h : Host) (a : Arrival) → h.loop ≡ accepting → HostInv h → HostInv (accept_one h a)
unfolding accept_one
accept_one-HostInv h a q v = ground arith

refused-HostInv : (h : Host) → h.loop ≡ accepting → HostInv h → HostInv (stop_accepting h)
unfolding stop_accepting
refused-HostInv h q v = record {
  waits = v.waits;
  counts = v.counts;
  numbered =
      Below-weaken (h.connection_id + 1) (h.connection_id + 1 + 1) h.clients (omega arith)
        v.numbered;
  none_before = λ r. ground arith;
  none_after = λ r. ground arith;
  closed_after = λ r. ground (arith, v.closed_after r);
}

empty : (cs : List Client) → length cs ≡ 0 → cs ≡ []
empty [] h = refl
empty (c ∷ cs) h = absurd (omega arith)

finish-HostInv : (h : Host) → h.loop ≡ draining → h.wait_group ≡ 0 → HostInv h → HostInv (finish h)
unfolding finish
finish-HostInv h q none_left v = record {
  waits = v.waits;
  counts = v.counts;
  numbered = v.numbered;
  none_before = λ r. ground arith;
  none_after = λ r. empty h.clients (sym v.waits ∙ none_left);
  closed_after = λ r. refl;
}

-- Every step keeps what the wait group, the count and the numbers say of the connections.
pub Step-HostInv : {x : Externals} {h k : Host} → Step x h k → HostInv h → HostInv k
unfolding shut_down
Step-HostInv (no_defaults os q d) v = ground arith
Step-HostInv (no_listener os cfg q d) v = ground arith
Step-HostInv (listen os cfg q d) v = ground arith
Step-HostInv {h = h} (accepted a q l) v = accept_one-HostInv h a q v
Step-HostInv {h = h} (refused q) v = refused-HostInv h q v
Step-HostInv {h = h} (drained q none_left) v = finish-HostInv h q none_left v
Step-HostInv shutdown v = ground arith
Step-HostInv {x} {h} (turns i c cs ds at q) v =
    replace-HostInv h c (take_turn h x i c) cs ds h.count_connections v at refl refl
Step-HostInv {h = h} (returns c cs ds at q dead fine) v =
    replace-HostInv h c (hang_up c) cs ds h.count_connections v at refl (ground arith)
Step-HostInv {h = h} (uncounts c cs ds at q) v =
    let heavy : weight c ≡ 1 = ground arith in
    replace-HostInv h c (record c { stage = uncounted }) cs ds (h.count_connections - 1) v at refl
      (omega (arith, heavy, v.counts, ap counted at, counted-append cs (c ∷ ds)))
Step-HostInv {h = h} (leaves c cs ds at q) v = leave-HostInv h c cs ds v at q

-- In every state that the goroutines of a server reach, in whatever order they interleave: the wait group
-- counts the connections, and the count of active clients those of them that have not been taken off
-- it; no two connections have the same number, and none has one above the last that was given; there
-- is no connection before ListenAndServe and none behind its end, and the flag of the shutdown is up
-- only behind its end.
pub Reach-HostInv : {x : Externals} {cfg : Server} {h : Host} → Reach x cfg h → HostInv h
Reach-HostInv begin = ground arith
Reach-HostInv (later r s) = Step-HostInv s (Reach-HostInv r)
