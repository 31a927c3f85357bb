-- ===== src/Inbound/Dispatch.antt =====
-- What dealConnection of src/native/src/tunnel.cc does whatever comes: one next hop for the whole connection, and no descriptor left open.
use mathlib.Core.Path.{subst}
use snakesocks.Base.{
  ap, ℕ, zero, suc, ◌≡◌, Bool, true, false, if◌then◌else◌, Option, none, some, List, arith,
}
use snakesocks.Io.{
  Status, running, closed, Bytes, Result, ok, thrown, overrun, M, follow, die, auth_failed,
}
use snakesocks.Module.{ClientQuery, ServerFunctions}
use snakesocks.Environment.{Environment}
use snakesocks.Inbound.{
  Session, do_auth, answer_dns, next_hop_for, on_client_data, on_next_hop_data, next_hop_turn,
  round, serve, cleanup, with_cleanup, refuse, deal_connection_impl, caught, new_session,
  deal_connection,
}

module _ {I : Type 0} (env : Environment) (server : ServerFunctions I) (bind_port connfd : ℕ) where
  abbrev S : Type 0
  S = Session env.io.World I

  -- A step that leaves the next hop `fd` in place, whatever its result.
  abbrev pub Keeps : ℕ → {A : Type 0} → M S A → Type 0
  Keeps fd m = (s : S) → s.next_hop ≡ some fd → (m s).1.next_hop ≡ some fd

  do_auth-still : (s : S) → (do_auth env server bind_port connfd s).1.next_hop ≡ s.next_hop
  unfolding do_auth
  do_auth-still s = ground arith

  answer_dns-Keeps :
      (fd : ℕ) (q : ClientQuery) → Keeps fd (answer_dns env server bind_port connfd q)
  unfolding answer_dns
  answer_dns-Keeps fd q s e = ground arith

  next_hop_for-Keeps :
      (fd : ℕ) (q : ClientQuery) → Keeps fd (next_hop_for env server bind_port connfd q)
  unfolding next_hop_for
  next_hop_for-Keeps fd q s e = ground arith

  on_client_data-Keeps : (fd : ℕ) → Keeps fd (on_client_data env server bind_port connfd)
  unfolding on_client_data
  on_client_data-Keeps fd s e = ground arith

  on_next_hop_data-Keeps : (fd g : ℕ) → Keeps fd (on_next_hop_data env server bind_port connfd g)
  unfolding on_next_hop_data
  on_next_hop_data-Keeps fd g s e = ground arith

  next_hop_turn-Keeps :
      (fd : ℕ) (ready : List ℕ) → Keeps fd (next_hop_turn env server bind_port connfd ready)
  unfolding next_hop_turn
  next_hop_turn-Keeps fd ready s e = ground arith

  round-Keeps : (fd : ℕ) → Keeps fd (round env server bind_port connfd)
  unfolding round
  round-Keeps fd s e = ground arith

  -- Once there is a next hop, no number of rounds changes it, whatever the client sends.
  pub serve-next_hop :
      (rounds fd : ℕ) (s : Session env.io.World I)
      → s.next_hop ≡ some fd
      → (serve env server bind_port connfd rounds s).1.next_hop ≡ some fd
  unfolding serve
  serve-next_hop zero fd s e = e
  serve-next_hop (suc rounds) fd s e =
      ground (
        arith,
        round-Keeps fd s e,
        serve-next_hop rounds fd (round env server bind_port connfd s).1,
      )

-- What the code relies on of `close`: it closes its descriptor, and opens no other.
pub record Closing (env : Environment) : Type 0 where
  pub is_closed : env.io.World → ℕ → Bool
  pub close_self : (fd : ℕ) (w : env.io.World) → is_closed (env.close fd w) fd ≡ true
  pub close_keeps :
      (fd g : ℕ) (w : env.io.World) → is_closed w g ≡ true → is_closed (env.close fd w) g ≡ true

module _ (env : Environment) (closing : Closing env) where
  abbrev pub IsHopClosed : Option ℕ → env.io.World → Type 0
  IsHopClosed none w = Unit {0}
  IsHopClosed (some fd) w = closing.is_closed w fd ≡ true

  close-IsHopClosed :
      (fd : ℕ) (o : Option ℕ) (w : env.io.World) → IsHopClosed o w → IsHopClosed o (env.close fd w)
  close-IsHopClosed fd none w h = tt
  close-IsHopClosed fd (some g) w h = closing.close_keeps fd g w h

module _ {I : Type 0} (env : Environment) (closing : Closing env) (server : ServerFunctions I)
    (bind_port connfd : ℕ) where
  -- The next hop is closed if the call has ended.
  abbrev Ended : Result Status × Session env.io.World I → Type 0
  Ended (ok running, s) = Unit {0}
  Ended (ok closed, s) = IsHopClosed env closing s.next_hop s.world
  Ended (thrown e, s) = IsHopClosed env closing s.next_hop s.world
  Ended (overrun, s) = Unit {0}

  abbrev pub AllClosed : Session env.io.World I → Type 0
  AllClosed s =
      (closing.is_closed s.world connfd ≡ true) × IsHopClosed env closing s.next_hop s.world

  cleanup-IsHopClosed :
      (s : Session env.io.World I)
      → IsHopClosed env closing s.next_hop (cleanup env server bind_port connfd s).world
  unfolding cleanup
  cleanup-IsHopClosed s = closed_hop s.next_hop
    where
      closed_hop :
          (o : Option ℕ)
          → IsHopClosed env closing o (elim o [ none ↦ s.world | some fd ↦ env.close fd s.world ])
      closed_hop none = tt
      closed_hop (some fd) = closing.close_self fd s.world

  with_cleanup-Ended :
      (p : Result Status × Session env.io.World I)
      → Ended (with_cleanup env server bind_port connfd p)
  unfolding with_cleanup
  with_cleanup-Ended (ok running, s) = tt
  with_cleanup-Ended (ok closed, s) = unfold cleanup in cleanup-IsHopClosed s
  with_cleanup-Ended (thrown e, s) = unfold cleanup in cleanup-IsHopClosed s
  with_cleanup-Ended (overrun, s) = tt

  no_hop : (o : Option ℕ) (w : env.io.World) → o ≡ none → IsHopClosed env closing o w
  no_hop o w e = rw e tt

  refused-Ended :
      (p : Result (Bytes × ℕ) × env.io.World) (s : Session env.io.World I)
      → s.next_hop ≡ none
      → Ended (follow (p.0, record s { world = p.1 }) (λ _ t. (thrown auth_failed, t)))
  refused-Ended (ok name, w) s h = no_hop s.next_hop w h
  refused-Ended (thrown e, w) s h = no_hop s.next_hop w h
  refused-Ended (overrun, w) s h = tt

  authenticated-Ended :
      (rounds : ℕ) (p : Result Bool × Session env.io.World I)
      → p.1.next_hop ≡ none
      → Ended (
          follow p (λ authenticated.
            if authenticated
            then (λ s.
                with_cleanup env server bind_port connfd
                  (serve env server bind_port connfd rounds s))
            else refuse env server bind_port connfd))
  unfolding refuse die
  authenticated-Ended rounds (ok true, s) h =
      with_cleanup-Ended (serve env server bind_port connfd rounds s)
  authenticated-Ended rounds (ok false, s) h = refused-Ended (env.get_peer_name connfd s.world) s h
  authenticated-Ended rounds (thrown e, s) h = no_hop s.next_hop s.world h
  authenticated-Ended rounds (overrun, s) h = tt

  caught-closed :
      (p : Result Status × Session env.io.World I) (s : Session env.io.World I)
      → Ended p
      → caught env server bind_port connfd p ≡ (ok closed, s)
      → AllClosed s
  unfolding caught
  caught-closed (ok running, s') s h e = absurd (cc)
  caught-closed (ok closed, s') s h e = subst AllClosed (ap (λ p. p.1) e) (
    closing.close_self connfd s'.world,
    close-IsHopClosed env closing connfd s'.next_hop s'.world h,
  )
  caught-closed (thrown x, s') s h e = subst AllClosed (ap (λ p. p.1) e) (
    closing.close_self connfd s'.world,
    close-IsHopClosed env closing connfd s'.next_hop s'.world h,
  )
  caught-closed (overrun, s') s h e = absurd (cc)

  -- When the connection has ended, by the loop, by an exception or by a failed authentication, the
  -- client's descriptor is closed, and so is that of the next hop, if there is one.
  pub deal_connection-closes :
      (rounds : ℕ) (passphrase : Bytes) (w : env.io.World) (s : Session env.io.World I)
      → deal_connection env server bind_port connfd rounds passphrase w ≡ (ok closed, s)
      → AllClosed s
  unfolding deal_connection deal_connection_impl
  deal_connection-closes rounds passphrase w s e =
      caught-closed _ s
        (authenticated-Ended rounds
          (do_auth env server bind_port connfd
            (new_session env server bind_port connfd passphrase w))
          (unfold new_session in
            do_auth-still env server bind_port connfd
              (new_session env server bind_port connfd passphrase w)))
        e
