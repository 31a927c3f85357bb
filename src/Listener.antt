-- ===== src/Listener.antt =====
-- The loops of accept: the end of Socks5Server::listen in src/native/src/socks5.cc, and
-- inbound_tunnel::listen in src/native/src/tunnel.cc. Each connection becomes a task of a ThreadPool, here
-- the list of its descriptor. `accept`, rlib's `quick_accept`, what the workers do between two rounds
-- (`meanwhile`) and what they do within addTask, between its look at them and newWorker (`during`), are
-- parameters. That `go` may spin for ever is modelled in ThreadPool.
use snakesocks.Base.{
  ℕ, zero, suc, ◌≡◌, refl, Option, none, some, List, [], ◌∷◌, length, ◌==◌, if◌then◌else◌,
}
use snakesocks.Io.{Result, ok, thrown, overrun, M, follow, follow-same, ◌>>=◌, return}
use snakesocks.ThreadPool.Pool.{Pool, IsPool, Given, add_task_to, add_task_to-gives}

module _ (W : Type 0) (accept : ℕ → W → Option ℕ × W) (meanwhile during : Pool → Pool) where
  -- What a round does with the result of `accept`; `none` is -1.
  abbrev on_accept : Pool → Option ℕ × W → Result Pool × W
  on_accept pool (none, w) = (ok pool, w)
  on_accept pool (some connfd, w) = (add_task_to (connfd ∷ []) pool (during pool), w)

  -- One round of the client's listener.
  unfoldable pub accept_round : ℕ → Pool → M W Pool
  accept_round listenfd pool w = on_accept pool (accept listenfd w)

  -- So many rounds of its loop, which has no end.
  unfoldable pub accept_rounds : ℕ → ℕ → Pool → M W Pool
  unfolding accept_round
  accept_rounds zero listenfd pool = return pool
  accept_rounds (suc n) listenfd pool =
      accept_round listenfd pool >>= λ next. accept_rounds n listenfd (meanwhile next)

  abbrev cons_accepted : (W → List ℕ) → Option ℕ × W → List ℕ
  cons_accepted later (none, w) = later w
  cons_accepted later (some connfd, w) = connfd ∷ later w

  -- The connections that are accepted in so many rounds.
  unfoldable pub accepted_in : ℕ → ℕ → W → List ℕ
  accepted_in zero listenfd w = []
  accepted_in (suc n) listenfd w = cons_accepted (accepted_in n listenfd) (accept listenfd w)

  -- From one pool to another each of these connections has been given to exactly one worker, in this
  -- order, and nothing else has been given to any.
  pub data Handed : List ℕ → Pool → Pool → Type 0 where
    nobody : (pool : Pool) → Handed [] pool pool
    working :
        (fds : List ℕ) (pool next : Pool) → Handed fds (meanwhile pool) next → Handed fds pool next
    one_more :
        (connfd : ℕ) (fds : List ℕ) (pool given next : Pool)
        → Given (connfd ∷ []) pool.workers given.workers
        → Handed fds (meanwhile given) next
        → Handed (connfd ∷ fds) pool next

  module _ (keeps : (pool : Pool) → IsPool pool → IsPool (meanwhile pool))
      (still : (pool : Pool) → during pool ≡ pool) where
    abbrev Goes : List ℕ → Pool → Result Pool × W → Type 0
    Goes fds pool p =
        (next : Pool) × (v : W) × (p ≡ (ok next, v)) × Handed fds pool next × IsPool next

    one_round :
        (n listenfd : ℕ) (pool : Pool)
        → IsPool pool
        → ((q : Pool) (u : W)
            → IsPool q
            → Goes (accepted_in n listenfd u) q (accept_rounds n listenfd q u))
        → (p : Option ℕ × W)
        → Goes
            (cons_accepted (accepted_in n listenfd) p)
            pool
            (follow (on_accept pool p) (λ q. accept_rounds n listenfd (meanwhile q)))
    one_round n listenfd pool h go_on (none, u) =
        let (next, v, e, g, k) = go_on (meanwhile pool) u (keeps pool h) in
        (next, v, e, working _ pool next g, k)
    one_round n listenfd pool h go_on (some connfd, u) =
        let (given, added, gives, k, _, _) = add_task_to-gives (connfd ∷ []) pool h in
        let (next, v, e, g, k') = go_on (meanwhile given) u (keeps given k) in
        (next, v, rw (still pool, added) e, one_more connfd _ pool given next gives g, k')

    -- If the workers do not change while addTask looks for one, each call of `go` returns, and what they do between
    -- two rounds keeps the size right: however many rounds the client's listener goes, the loop neither
    -- throws nor leaves the list of workers; a failed accept is skipped,
    -- and each accepted connection is given to one worker, which waited or is new.
    pub accept_rounds-Handed :
        (n listenfd : ℕ) (pool : Pool) (w : W)
        → IsPool pool
        → (next : Pool) × (v : W) × (accept_rounds n listenfd pool w ≡ (ok next, v))
          × Handed (accepted_in n listenfd w) pool next
          × IsPool next
    unfolding accept_rounds accepted_in
    accept_rounds-Handed zero listenfd pool w h = (pool, w, refl, nobody pool, h)
    accept_rounds-Handed (suc n) listenfd pool w h =
        one_round n listenfd pool h (accept_rounds-Handed n listenfd) (accept listenfd w)

-- The server's listener, whose `quick_accept` throws where `accept` fails.
module _ (W : Type 0) (quick_accept : ℕ → M W ℕ) (meanwhile during : Pool → Pool) where
  -- An exception destroys the pool, whose workers are still joinable: with one or more of them,
  -- `std::terminate` ends the program.
  abbrev pub unwind_pool : Pool → Result ℕ × W → Result ℕ × W
  unwind_pool pool (ok fd, w) = (ok fd, w)
  unwind_pool pool (thrown e, w) = if length pool.workers == 0 then (thrown e, w) else (overrun, w)
  unwind_pool pool (overrun, w) = (overrun, w)

  unfoldable pub tunnel_rounds : ℕ → ℕ → Pool → M W Pool
  tunnel_rounds zero listenfd pool = return pool
  tunnel_rounds (suc n) listenfd pool = do
    connfd ← λ w. unwind_pool pool (quick_accept listenfd w)
    next ← λ w. (add_task_to (connfd ∷ []) pool (during pool), w)
    tunnel_rounds n listenfd (meanwhile next)

  -- As long as no accept fails, the two listeners are the same.
  pub tunnel_rounds-accept_rounds :
      (conn : ℕ → W → ℕ × W)
      → ((fd : ℕ) (w : W) → quick_accept fd w ≡ (ok (conn fd w).0, (conn fd w).1))
      → (n listenfd : ℕ) (pool : Pool) (w : W)
      → tunnel_rounds n listenfd pool w
        ≡ accept_rounds W
            (λ fd u. (some (conn fd u).0, (conn fd u).1))
            meanwhile
            during
            n
            listenfd
            pool
            w
  unfolding tunnel_rounds accept_rounds
  tunnel_rounds-accept_rounds conn good zero listenfd pool w = refl
  tunnel_rounds-accept_rounds conn good (suc n) listenfd pool w = rw (good listenfd w) (
      follow-same (λ q. tunnel_rounds n listenfd (meanwhile q))
        (λ q.
          accept_rounds W (λ fd u. (some (conn fd u).0, (conn fd u).1)) meanwhile during n listenfd
            (meanwhile q))
        (λ q. tunnel_rounds-accept_rounds conn good n listenfd (meanwhile q))
        (add_task_to ((conn listenfd w).0 ∷ []) pool (during pool), (conn listenfd w).1))
